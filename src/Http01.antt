-- ===== src/Http01.antt =====
-- crates/challenge-http-01/src/lib.rs: what to serve for an HTTP-01 challenge.
mod Laws
use acme_wasm.Prelude.{◌/◌, ◌++◌, Text, text}
use acme_wasm.Core.Crates.{Crates}
use acme_wasm.Core.Jws.{AccountKey}
use acme_wasm.Core.Challenge.{compute_key_authorization}

-- `CONTENT_TYPE`
abbrev pub content_type : Text
content_type = text "application/octet-stream"

unfoldable pub path : Text → Text
path token = text "/.well-known/acme-challenge/" ++ token

unfoldable pub response_body : (c : Crates) → Text → AccountKey c → Text
response_body c token account_key = compute_key_authorization c token account_key

pub record Http01Response : Type 0 where
  pub path : Text
  pub body : Text
  pub content_type : Text

unfoldable pub respond : (c : Crates) → Text → AccountKey c → Http01Response
unfolding path response_body
respond c token account_key = record {
  path = path token;
  body = response_body c token account_key;
  content_type = content_type;
}
