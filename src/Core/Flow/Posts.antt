-- ===== src/Core/Flow/Posts.antt =====
-- The signed requests of crates/core/src/account.rs keep the account of the ledger.
use mathlib.Core.Path
use acme_wasm.Prelude.{
  ◌≡◌, refl, Bool, false, Option, none, some, List, Bytes, Text, text, Result, ok, err, ok_or,
}
use acme_wasm.Core.Error.{AcmeError}
use acme_wasm.Core.Transport.{HttpResponse, HttpClient, check, header}
use acme_wasm.Core.Json.{Value}
use acme_wasm.Core.Crates.{Crates, from_json}
use acme_wasm.Core.Records.Directory.{Directory}
use acme_wasm.Core.Jws.{
  AccountKey, sign_jws_with_jwk, sign_jws_with_kid, sign_jws_inner, public_jwk,
}
use acme_wasm.Core.Nonce
use acme_wasm.Core.Nonce.{ReplayNonceStore}
use acme_wasm.Core.Nonce.Ledger.{Ledger, Observes, Accounts, Pending, skip}
use acme_wasm.Core.Nonce.Bookkeeping.{get-Triple, new-Accounts, send-Triple}
use acme_wasm.Core.Program.{State, Program, pure, attempt, io, ◌>>=◌, ◌>>◌}
use acme_wasm.Core.Program.Keeps.{
  Keeps, Keeps-pure, Keeps-attempt, Keeps-bind, Keeps-bind_run, keeps_rules,
}
use acme_wasm.Core.Program.Triples.{Ends, Triple, Triple-bind, Keeps-Triple}
use acme_wasm.Core.Program.Yields.{Yields-at}
use acme_wasm.Core.Account.{Account, account_payload, create, create_with_options, post_kid}
use acme_wasm.Core.Polling.Creation.{no_location, new-Yields}

module _ (c : Crates) {W : Type 0} (ledger : Ledger W) (client : HttpClient W)
    (observes : Observes ledger client) where
  -- A nonce is taken, a request signed with it and sent, and the answer absorbed.
  signed_post-Triple :
      {B : Type 0} (jwk : Option Value) (kid : Option Text) (key : AccountKey c) (url : Text)
      (payload : Bytes) (n : Text) (f : HttpResponse → Program W B)
      → ((r : HttpResponse) → Keeps Unit (Accounts c ledger) (f r))
      → Triple Unit
          (Pending c ledger n)
          (λ _. Accounts c ledger)
          (Accounts c ledger)
          (attempt (sign_jws_inner c payload url n jwk kid key) >>= λ jws.
            io (client.post_jose url jws) >>= λ r. (Nonce.absorb r >> f r))
  signed_post-Triple jwk kid key url payload n f k = record {
    at = λ s h. on_signed (sign_jws_inner c payload url n jwk kid key) refl s h;
  }
    where
      on_signed :
          (r : Result Bytes AcmeError)
          → sign_jws_inner c payload url n jwk kid key ≡ r
          → (s : State W) → Pending c ledger n s
          → Ends Unit
              (λ _. Accounts c ledger)
              (Accounts c ledger)
              ((attempt r >>= λ jws. io (client.post_jose url jws) >>= λ r. (Nonce.absorb r >> f r))
                s)
      on_signed (err e) eq s h = skip c ledger n s.pool s.world h
      on_signed (ok jws) eq s h =
          (send-Triple c ledger Unit client observes jws n
              (record {
                payload = payload;
                url = url;
                jwk = jwk;
                kid = kid;
                key = key;
                signed = eq;
              })
              url f k).at
            s h

  pub post_kid-Accounts :
      (account : Account c W) (url : Text) (payload : Bytes)
      → account.nonce.transport ≡ client
      → Keeps Unit (Accounts c ledger) (post_kid c account url payload client)
  unfolding post_kid sign_jws_with_kid
  post_kid-Accounts account url payload shared = Keeps-Triple _ (
      Triple-bind (Nonce.get account.nonce) _
        (get-Triple c ledger Unit account.nonce (Path.subst⁻¹ (Observes ledger) shared observes))
        λ n.
          signed_post-Triple none (some account.kid) account.key url payload n _ λ r. Keeps-pure r)

  -- What follows the answer to the newAccount request.
  created-Keeps :
      (directory : Directory) (key : AccountKey c) (store : ReplayNonceStore W) (r : HttpResponse)
      → Keeps Unit (Accounts c ledger) (
          attempt (check c.problem_from_slice r) >>= λ good.
          attempt (ok_or no_location (header good (text "Location"))) >>= λ kid.
          attempt (from_json (c.account_from_slice good.body)) >>= λ account.
          pure {A = Account c W} (record {
            account = account;
            kid = kid;
            key = key;
            nonce = store;
            directory = directory;
          }))
  created-Keeps directory key store r = search keeps_rules depth 9

  pub create-Accounts :
      (directory : Directory) (contact : List Text) (agreed : Bool) (key : AccountKey c)
      → Keeps Unit (Accounts c ledger) (create c directory contact agreed key client)
  unfolding create create_with_options sign_jws_with_jwk
  create-Accounts directory contact agreed key =
      Keeps-bind_run (Nonce.new directory.new_nonce client) _
        (new-Accounts c ledger Unit directory.new_nonce client)
        λ store s t made.
          let shared =
            Yields-at (Nonce.new directory.new_nonce client) s t store
              (new-Yields c directory.new_nonce client) made in
          Keeps-bind (attempt (from_json (c.to_vec (account_payload contact agreed false)))) _
            (Keeps-attempt (from_json (c.to_vec (account_payload contact agreed false))))
            λ payload. Keeps-Triple _ (
              Triple-bind (Nonce.get store) _
                (get-Triple c ledger Unit store (Path.subst⁻¹ (Observes ledger) shared observes))
                λ n.
                  signed_post-Triple (some (public_jwk c key)) none key directory.new_account
                    payload n _ (created-Keeps directory key store))
