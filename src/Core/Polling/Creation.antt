-- ===== src/Core/Polling/Creation.antt =====
-- The creation of an account, in crates/core/src/account.rs: its end, and the client that it shares.
use acme_wasm.Prelude.{ℕ, ◌≡◌, refl, Bool, false, List, arith, Text, text, ok_or}
use acme_wasm.Core.Error.{AcmeError, missing_field}
use acme_wasm.Core.Transport.{HttpClient, check, header}
use acme_wasm.Core.Crates.{Crates, from_json}
use acme_wasm.Core.Records.Directory.{Directory}
use acme_wasm.Core.Jws.{AccountKey, sign_jws_with_jwk}
use acme_wasm.Core.Program.{attempt, io}
use acme_wasm.Core.Program.Keeps.{Keeps, Keeps-pure, Keeps-attempt, Keeps-bind}
use acme_wasm.Core.Program.Yields.{Yields, Yields-pure, Yields-bind, Yields-after}
use acme_wasm.Core.Nonce.Keeps.{OfWorld, Keeps-Quiet, absorb-Keeps, new-Keeps, get-Keeps}
use acme_wasm.Core.Nonce
use acme_wasm.Core.Nonce.{ReplayNonceStore}
use acme_wasm.Core.Account.{account_payload, create, create_with_options}
use acme_wasm.Core.Polling.{Since}

abbrev pub no_location : AcmeError
no_location = missing_field (text "Location on newAccount response")

module _ (c : Crates) {W : Type 0} where
  pub new-Yields :
      (url : Text) (client : HttpClient W)
      → Yields (λ store. store.transport ≡ client) (Nonce.new url client)
  unfolding Nonce.new
  new-Yields url client = record { at = λ s. refl }

  -- The account shares the client of its creation with its nonce store.
  pub create-Yields :
      (directory : Directory) (contact : List Text) (agreed : Bool) (key : AccountKey c)
      (client : HttpClient W)
      → Yields
          (λ account. account.nonce.transport ≡ client)
          (create c directory contact agreed key client)
  unfolding create create_with_options
  create-Yields directory contact agreed key client =
      Yields-bind (Nonce.new directory.new_nonce client) _ (new-Yields directory.new_nonce client)
        λ store e.
          Yields-after (attempt (from_json (c.to_vec (account_payload contact agreed false)))) _
            λ payload. Yields-after (Nonce.get store) _ λ nonce.
              Yields-after (attempt (sign_jws_with_jwk c payload directory.new_account nonce key)) _
                λ jws. Yields-after (io (client.post_jose directory.new_account jws)) _ λ response.
                  Yields-after (Nonce.absorb response) _ λ _.
                    Yields-after (attempt (check c.problem_from_slice response)) _ λ good.
                      Yields-after (attempt (ok_or no_location (header good (text "Location")))) _
                        λ kid.
                          Yields-after (attempt (from_json (c.account_from_slice good.body))) _
                            λ account.
                              Yields-pure
                                (record {
                                  account = account;
                                  kid = kid;
                                  key = key;
                                  nonce = store;
                                  directory = directory;
                                })
                                e

module _ (c : Crates) {W : Type 0} (time : W → ℕ) (client : HttpClient W) where
  pub account_create-Keeps :
      (directory : Directory) (contact : List Text) (agreed : Bool) (key : AccountKey c)
      → Keeps ⊥ (OfWorld (Since time 0)) (create c directory contact agreed key client)
  unfolding create create_with_options
  account_create-Keeps directory contact agreed key =
      Keeps-bind (Nonce.new directory.new_nonce client) _
        (new-Keeps ⊥ (Since time 0) directory.new_nonce client)
        λ store.
          Keeps-bind (attempt (from_json (c.to_vec (account_payload contact agreed false)))) _
            (Keeps-attempt (from_json (c.to_vec (account_payload contact agreed false))))
            λ payload.
              Keeps-bind (Nonce.get store) _ (get-Keeps ⊥ (Since time 0) store (λ w h. omega arith))
                λ nonce.
                  Keeps-bind (attempt (sign_jws_with_jwk c payload directory.new_account nonce key))
                    _ (Keeps-attempt (sign_jws_with_jwk c payload directory.new_account nonce key))
                    λ jws.
                      Keeps-bind (io (client.post_jose directory.new_account jws)) _
                        (Keeps-Quiet ⊥ (Since time 0) (client.post_jose directory.new_account jws)
                          (λ w h. omega arith))
                        λ response.
                          Keeps-bind (Nonce.absorb response) _
                            (absorb-Keeps ⊥ (Since time 0) response)
                            λ _.
                              Keeps-bind (attempt (check c.problem_from_slice response)) _
                                (Keeps-attempt (check c.problem_from_slice response))
                                λ good.
                                  Keeps-bind
                                    (attempt (ok_or no_location (header good (text "Location")))) _
                                    (Keeps-attempt
                                      (ok_or no_location (header good (text "Location"))))
                                    λ kid.
                                      Keeps-bind
                                        (attempt (from_json (c.account_from_slice good.body))) _
                                        (Keeps-attempt (from_json (c.account_from_slice good.body)))
                                        λ account. Keeps-pure (record {
                                          account = account;
                                          kid = kid;
                                          key = key;
                                          nonce = store;
                                          directory = directory;
                                        })
