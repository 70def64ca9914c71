-- ===== src/Core/Csr/Keys.antt =====
-- The generators and exports of `CertificateKey` in crates/core/src/csr.rs, on the `rcgen` crate as a
-- parameter.
use acme_wasm.Prelude.{◌++◌, Bytes, Text, text, Result, ok, err}
use acme_wasm.Core.Error.{jose, AcmeError}
use acme_wasm.Core.Crates.{Crates}
use acme_wasm.Core.Csr.{CertificateKey}

-- the algorithms that the code names
pub data Algorithm : Type 0 where
  ecdsa_p256_sha256 ecdsa_p384_sha384 ed25519 : Algorithm

-- `rcgen::KeyPair`: a new key is drawn from the world.
pub record KeyPairs (c : Crates) (W : Type 0) : Type 0 where
  pub generate_for : Algorithm → W → Result c.KeyPair Text × W
  pub serialize_pem : c.KeyPair → Text
  pub serialize_der : c.KeyPair → Bytes

module _ (c : Crates) {W : Type 0} (keys : KeyPairs c W) where
  -- `.map_err(..)?` and the key around the pair
  unfoldable pub generated :
      Text → Result c.KeyPair Text × W → Result (CertificateKey c) AcmeError × W
  generated name (err e, w) = (err (jose (text "keygen " ++ name ++ text ": " ++ e)), w)
  generated name (ok pair, w) = (ok (record { key_pair = pair }), w)

  unfoldable pub generate_p256 : W → Result (CertificateKey c) AcmeError × W
  unfolding generated
  generate_p256 w = generated (text "P-256") (keys.generate_for ecdsa_p256_sha256 w)

  unfoldable pub generate_p384 : W → Result (CertificateKey c) AcmeError × W
  unfolding generated
  generate_p384 w = generated (text "P-384") (keys.generate_for ecdsa_p384_sha384 w)

  unfoldable pub generate_ed25519 : W → Result (CertificateKey c) AcmeError × W
  unfolding generated
  generate_ed25519 w = generated (text "Ed25519") (keys.generate_for ed25519 w)

  unfoldable pub to_pkcs8_pem : CertificateKey c → Text
  to_pkcs8_pem key = keys.serialize_pem key.key_pair

  unfoldable pub to_pkcs8_der : CertificateKey c → Bytes
  to_pkcs8_der key = keys.serialize_der key.key_pair
