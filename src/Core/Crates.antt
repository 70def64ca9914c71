-- ===== src/Core/Crates.antt =====
-- What crates/core calls outside the repository: the signature crates, SHA-256, base64, serde_json
-- with the derived (de)serializers, rcgen, and the formatting of the standard library that only
-- fills in messages. All of it is a parameter.
use acme_wasm.Prelude.{ℕ, ◌≡◌, Option, List, Bytes, Text, Result, ok, map_err}
use acme_wasm.Core.Json.{Value}
use acme_wasm.Core.Error.{AcmeError, serialization, ProblemDocument}
use acme_wasm.Core.Records.Directory.{Directory}
use acme_wasm.Core.Records.Account.{AccountRecord}
use acme_wasm.Core.Records.Order.{Order}
use acme_wasm.Core.Records.Challenge.{Challenge}
use acme_wasm.Core.Records.Authorization.{Authorization}

-- The protected header and the flattened JWS of crates/core/src/jws.rs, which serde serializes.
pub record ProtectedHeader : Type 0 where
  pub alg : Text
  pub jwk : Option Value
  pub kid : Option Text
  pub nonce : Text
  pub url : Text

pub record Flattened : Type 0 where
  pub protected : Text
  pub payload : Text
  pub signature : Text

pub record Crates : Type 1 where
  -- rsa, p256, p384, ed25519-dalek: private keys, the parts of their public keys, signing
  pub RsaPrivateKey : Type 0
  pub P256Key : Type 0
  pub P384Key : Type 0
  pub Ed25519Key : Type 0
  pub rsa_n : RsaPrivateKey → Bytes
  pub rsa_e : RsaPrivateKey → Bytes
  pub p256_x : P256Key → Bytes
  pub p256_y : P256Key → Bytes
  pub p384_x : P384Key → Bytes
  pub p384_y : P384Key → Bytes
  pub ed25519_bytes : Ed25519Key → Bytes
  pub rsa_sign : RsaPrivateKey → Bytes → Bytes
  pub p256_sign : P256Key → Bytes → Bytes
  pub p384_sign : P384Key → Bytes → Bytes
  pub ed25519_sign : Ed25519Key → Bytes → Bytes
  -- sha2, base64 (`URL_SAFE_NO_PAD.encode`)
  pub sha256 : Bytes → Bytes
  pub b64url : Bytes → Text
  -- serde_json: `to_vec`, `to_string`, `from_slice` at each type; an error is its `Display` text
  pub to_vec : Value → Result Bytes Text
  -- A `Value` always serializes: its keys are texts.
  pub value_bytes : Value → Bytes
  pub to_vec_ok : (v : Value) → to_vec v ≡ ok (value_bytes v)
  pub header_to_vec : ProtectedHeader → Result Bytes Text
  pub flattened_to_vec : Flattened → Result Bytes Text
  pub problem_from_slice : Bytes → Result ProblemDocument Text
  pub directory_from_slice : Bytes → Result Directory Text
  pub account_from_slice : Bytes → Result AccountRecord Text
  pub order_from_slice : Bytes → Result Order Text
  pub challenge_from_slice : Bytes → Result Challenge Text
  pub authorization_from_slice : Bytes → Result Authorization Text
  -- rcgen: `CertificateParams::new`, `serialize_request` with `der`
  pub KeyPair : Type 0
  pub CertificateParams : Type 0
  pub params_new : List Text → Result CertificateParams Text
  pub serialize_request : CertificateParams → KeyPair → Result Bytes Text
  -- `{:?}` of a duration in milliseconds and of a list of strings
  pub debug_duration : ℕ → Text
  pub debug_texts : List Text → Text

-- `From<serde_json::Error>` for `AcmeError`: what `?` applies after serde_json's functions
abbrev pub from_json : {A : Type 0} → Result A Text → Result A AcmeError
from_json = map_err serialization
