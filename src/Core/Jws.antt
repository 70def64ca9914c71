-- ===== src/Core/Jws.antt =====
-- crates/core/src/jws.rs: account keys, their public JWK and thumbprint, and flattened JWS.
pub mod Thumbprint
pub mod Verify
mod Tests
use Prim.Native.String.{String}
use acme_wasm.Prelude.{Option, none, some, ◌++◌, Bytes, Text, text, Result, ok, map_err, and_then}
use acme_wasm.Core.Json.{Value, string, object, Members, end, member}
use acme_wasm.Core.Error.{AcmeError, jose}
use acme_wasm.Core.Crates.{ProtectedHeader, Flattened, Crates}

pub data EcdsaKey (c : Crates) : Type 0 where
  p256 : c.P256Key → EcdsaKey c
  p384 : c.P384Key → EcdsaKey c

pub data AccountKey (c : Crates) : Type 0 where
  rsa : c.RsaPrivateKey → AccountKey c
  ecdsa : EcdsaKey c → AccountKey c
  ed25519 : c.Ed25519Key → AccountKey c

module _ (c : Crates) where
  unfoldable pub alg : AccountKey c → Text
  alg (rsa sk) = text "RS256"
  alg (ecdsa (p256 sk)) = text "ES256"
  alg (ecdsa (p384 sk)) = text "ES384"
  alg (ed25519 sk) = text "EdDSA"

  abbrev field : String → Value → Members → Members
  field name = member (text name)

  abbrev encoded : Bytes → Value
  encoded b = string (c.b64url b)

  abbrev ec_members : String → Bytes → Bytes → Members
  ec_members crv x y =
      field "crv" (string (text crv))
        (field "kty" (string (text "EC")) (field "x" (encoded x) (field "y" (encoded y) end)))

  unfoldable pub jwk_members : AccountKey c → Members
  jwk_members (rsa sk) =
      field "e" (encoded (c.rsa_e sk))
        (field "kty" (string (text "RSA")) (field "n" (encoded (c.rsa_n sk)) end))
  jwk_members (ecdsa (p256 sk)) = ec_members "P-256" (c.p256_x sk) (c.p256_y sk)
  jwk_members (ecdsa (p384 sk)) = ec_members "P-384" (c.p384_x sk) (c.p384_y sk)
  jwk_members (ed25519 sk) =
      field "crv" (string (text "Ed25519"))
        (field "kty" (string (text "OKP")) (field "x" (encoded (c.ed25519_bytes sk)) end))

  unfoldable pub public_jwk : AccountKey c → Value
  unfolding jwk_members
  public_jwk key = object (jwk_members key)

  -- `to_vec(jwk).expect(…)` cannot fail, by `to_vec_ok`.
  unfoldable pub jwk_thumbprint : Value → Text
  jwk_thumbprint jwk = c.b64url (c.sha256 (c.value_bytes jwk))

  -- `AccountKey::jwk_thumbprint`
  unfoldable pub key_thumbprint : AccountKey c → Text
  unfolding jwk_thumbprint public_jwk
  key_thumbprint key = jwk_thumbprint (public_jwk key)

  unfoldable pub sign_bytes : Bytes → AccountKey c → Result Bytes AcmeError
  sign_bytes input (rsa sk) = ok (c.rsa_sign sk input)
  sign_bytes input (ecdsa (p256 sk)) = ok (c.p256_sign sk input)
  sign_bytes input (ecdsa (p384 sk)) = ok (c.p384_sign sk input)
  sign_bytes input (ed25519 sk) = ok (c.ed25519_sign sk input)

  infixl 5 ◌>>=◌
  abbrev ◌>>=◌ : {A B : Type 0} → Result A AcmeError → (A → Result B AcmeError) → Result B AcmeError
  m >>= f = and_then m f

  unfoldable pub sign_jws_inner :
      Bytes → Text → Text → Option Value → Option Text → AccountKey c → Result Bytes AcmeError
  unfolding alg sign_bytes
  sign_jws_inner payload url nonce jwk kid key = do
    let header : ProtectedHeader = record {
      alg = alg key;
      jwk = jwk;
      kid = kid;
      nonce = nonce;
      url = url;
    }
    header_bytes ← map_err (λ e. jose (text "header: " ++ e)) (c.header_to_vec header)
    let protected_b64 = c.b64url header_bytes
    let payload_b64 = c.b64url payload
    let signing_input = protected_b64 ++ text "." ++ payload_b64
    signature ← sign_bytes signing_input key
    let signature_b64 = c.b64url signature
    let out : Flattened = record {
      protected = protected_b64;
      payload = payload_b64;
      signature = signature_b64;
    }
    map_err (λ e. jose (text "serialize: " ++ e)) (c.flattened_to_vec out)

  unfoldable pub sign_jws_with_jwk : Bytes → Text → Text → AccountKey c → Result Bytes AcmeError
  unfolding sign_jws_inner public_jwk
  sign_jws_with_jwk payload url nonce key =
      sign_jws_inner payload url nonce (some (public_jwk key)) none key

  unfoldable pub sign_jws_with_kid :
      Bytes → Text → Text → Text → AccountKey c → Result Bytes AcmeError
  unfolding sign_jws_inner
  sign_jws_with_kid payload url nonce kid key = sign_jws_inner payload url nonce none (some kid) key
