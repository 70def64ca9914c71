-- ===== src/TlsAlpn01.antt =====
-- crates/challenge-tls-alpn-01/src/lib.rs: the certificate that a TLS-ALPN-01 responder presents. The
-- assertion of debug builds that the identifier is a DNS name is left out.
pub mod Laws
pub mod Sample
use acme_wasm.Prelude.{
  ℕ, ◌+◌, ◌*◌, Bool, true, List, [], ◌∷◌, ◌++◌, Bytes, Text, text, Result, ok, err,
}
use acme_wasm.Core.Crates.{Crates}
use acme_wasm.Core.Jws.{AccountKey}
use acme_wasm.Core.Challenge.{compute_key_authorization}

-- `ACME_TLS_ALPN_PROTOCOL`
abbrev pub acme_tls_alpn_protocol : Bytes
acme_tls_alpn_protocol = text "acme-tls/1"

-- `ACME_IDENTIFIER_OID`
abbrev pub acme_identifier_oid : List ℕ
acme_identifier_oid = 1 ∷ 3 ∷ 6 ∷ 1 ∷ 5 ∷ 5 ∷ 7 ∷ 1 ∷ 31 ∷ []

-- `rcgen::CustomExtension`
pub record CustomExtension : Type 0 where
  pub oid : List ℕ
  pub critical : Bool
  pub content : Bytes

-- `rcgen`, `time` and the source of randomness. `CertificateParams` has the fields that the code sets
-- or reads, the rest are the defaults of `rcgen`; times are in seconds.
pub record CertificateParams (San Name : Type 0) : Type 0 where
  pub subject_alt_names : List San
  pub distinguished_name : Name
  pub not_before : ℕ
  pub not_after : ℕ
  pub custom_extensions : List CustomExtension

pub record Rcgen (W : Type 0) : Type 1 where
  pub KeyPair : Type 0
  pub San : Type 0
  pub Name : Type 0
  pub empty_name : Name
  pub generate : W → Result KeyPair Text × W
  pub now_utc : W → ℕ × W
  pub params_new : List Text → Result (CertificateParams San Name) Text
  pub self_signed : CertificateParams San Name → KeyPair → Result Bytes Text
  pub serialize_der : KeyPair → Bytes

-- `TlsAlpn01Error`
pub data TlsAlpn01Error : Type 0 where
  cert_build : Text → TlsAlpn01Error

pub record TlsAlpn01Responder : Type 0 where
  pub cert_der : Bytes
  pub key_der : Bytes

-- The DER octet string of 32 bytes.
abbrev pub octet_string : Bytes → Bytes
octet_string hash = 0x04 ∷ 0x20 ∷ hash

-- `from_oid_content`, `set_criticality` and the push
abbrev pub acme_identifier : Bytes → CustomExtension
acme_identifier hash = record {
  oid = acme_identifier_oid;
  critical = true;
  content = octet_string hash;
}

module _ (c : Crates) {W : Type 0} (rcgen : Rcgen W) where
  abbrev pub filled :
      ℕ → Bytes → CertificateParams rcgen.San rcgen.Name → CertificateParams rcgen.San rcgen.Name
  filled now hash params = record params {
    distinguished_name = rcgen.empty_name;
    not_before = now;
    not_after = now + 24 * 60 * 60;
    custom_extensions = params.custom_extensions ++ acme_identifier hash ∷ [];
  }

  -- What follows the time.
  unfoldable pub sign_at :
      rcgen.KeyPair
      → CertificateParams rcgen.San rcgen.Name
      → Bytes
      → ℕ
      → Result TlsAlpn01Responder TlsAlpn01Error
  sign_at key_pair params hash now = elim (rcgen.self_signed (filled now hash params) key_pair) [
    | err e ↦ err (cert_build e)
    | ok cert ↦ ok (record { cert_der = cert; key_der = rcgen.serialize_der key_pair })
  ]

  -- What follows the key pair.
  unfoldable pub build :
      Text → Bytes → Result rcgen.KeyPair Text × W → Result TlsAlpn01Responder TlsAlpn01Error × W
  unfolding sign_at
  build identifier hash (err e, w) = (err (cert_build e), w)
  build identifier hash (ok key_pair, w) = elim (rcgen.params_new (identifier ∷ [])) [
    | err e ↦ (err (cert_build e), w)
    | ok params ↦ (sign_at key_pair params hash (rcgen.now_utc w).0, (rcgen.now_utc w).1)
  ]

  unfoldable pub responder_cert_from_key_authorization :
      Text → Text → W → Result TlsAlpn01Responder TlsAlpn01Error × W
  unfolding build
  responder_cert_from_key_authorization identifier key_authorization w =
      build identifier (c.sha256 key_authorization) (rcgen.generate w)

  unfoldable pub responder_cert :
      Text → Text → AccountKey c → W → Result TlsAlpn01Responder TlsAlpn01Error × W
  unfolding responder_cert_from_key_authorization
  responder_cert identifier token account_key w =
      responder_cert_from_key_authorization identifier
        (compute_key_authorization c token account_key) w
