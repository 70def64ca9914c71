-- ===== src/Core/Account.antt =====
-- crates/core/src/account.rs: account creation, and the signed POST that every later request is.
use acme_wasm.Prelude.{Bool, false, List, Bytes, Text, text, ok_or}
use acme_wasm.Core.Json.{Value, bool, array, object, end, member, strings}
use acme_wasm.Core.Error.{missing_field}
use acme_wasm.Core.Transport.{HttpResponse, header, HttpClient, check}
use acme_wasm.Core.Records.Directory.{Directory}
use acme_wasm.Core.Records.Account.{AccountRecord}
use acme_wasm.Core.Crates.{Crates, from_json}
use acme_wasm.Core.Program.{Program, pure, attempt, io, ◌>>=◌, ◌>>◌}
use acme_wasm.Core.Nonce
use acme_wasm.Core.Nonce.{ReplayNonceStore}
use acme_wasm.Core.Jws.{AccountKey, sign_jws_with_jwk, sign_jws_with_kid}

pub record Account (c : Crates) (W : Type 0) : Type 0 where
  pub account : AccountRecord
  pub kid : Text
  pub key : AccountKey c
  pub nonce : ReplayNonceStore W
  pub directory : Directory

-- the object under `json!`
abbrev pub account_payload : List Text → Bool → Bool → Value
account_payload contact terms_agreed only_return_existing = object (
    member (text "termsOfServiceAgreed") (bool terms_agreed) (
      member (text "contact") (array (strings contact))
        (member (text "onlyReturnExisting") (bool only_return_existing) end)))

module _ (c : Crates) {W : Type 0} where
  unfoldable pub post_kid : Account c W → Text → Bytes → HttpClient W → Program W HttpResponse
  post_kid account url payload client = do
    nonce ← Nonce.get account.nonce
    jws ← attempt (sign_jws_with_kid c payload url nonce account.kid account.key)
    response ← io (client.post_jose url jws)
    Nonce.absorb response
    pure response

  unfoldable pub create_with_options :
      Directory → List Text → Bool → Bool → AccountKey c → HttpClient W → Program W (Account c W)
  create_with_options directory contact terms_agreed only_return_existing key client = do
    nonce_store ← Nonce.new directory.new_nonce client
    payload_bytes ←
        attempt (from_json (c.to_vec (account_payload contact terms_agreed only_return_existing)))
    nonce ← Nonce.get nonce_store
    jws ← attempt (sign_jws_with_jwk c payload_bytes directory.new_account nonce key)
    response ← io (client.post_jose directory.new_account jws)
    Nonce.absorb response
    response ← attempt (check c.problem_from_slice response)
    kid ← attempt (
        ok_or (missing_field (text "Location on newAccount response"))
          (header response (text "Location")))
    account ← attempt (from_json (c.account_from_slice response.body))
    pure (record {
      account = account;
      kid = kid;
      key = key;
      nonce = nonce_store;
      directory = directory;
    })

  unfoldable pub create :
      Directory → List Text → Bool → AccountKey c → HttpClient W → Program W (Account c W)
  unfolding create_with_options
  create directory contact terms_agreed key client =
      create_with_options directory contact terms_agreed false key client
