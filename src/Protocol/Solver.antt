-- ===== src/Protocol/Solver.antt =====
-- The solver that crates/protocol/src/solver.rs exports, beside the certificate that it asks for.
use mathlib.Core.Path
use acme_wasm.Prelude.{◌≡◌, refl, ap, Option, length, Bytes, Text, Result, ok, err, ok_inj}
use acme_wasm.Core.Crates.{Crates}
use acme_wasm.Core.Jws.{AccountKey}
use acme_wasm.Core.Challenge.{compute_key_authorization}
use acme_wasm.TlsAlpn01.{
  Rcgen, CertificateParams, TlsAlpn01Responder, TlsAlpn01Error, responder_cert,
}
use acme_wasm.TlsAlpn01.Laws.{Reads, Proves, responder_cert-Proves}
use acme_wasm.Protocol.{
  WitIdentifier, exported, error_text, solver_responder_cert, identifier_from_wit,
}

module _ (c : Crates) {W : Type 0} (rcgen : Rcgen W)
    (parse : Bytes → Option (CertificateParams rcgen.San rcgen.Name)) where
  of_exported :
      (identifier : Text) (hash cert key_der : Bytes) (v : W)
      (o : Result TlsAlpn01Responder TlsAlpn01Error × W)
      → ((r : TlsAlpn01Responder)
          → o ≡ (ok r, o.1)
          → Proves c rcgen parse identifier hash r.cert_der)
      → ◌≡◌ {A = Result (Bytes × Bytes) Text × W} (exported o.0, o.1) (ok (cert, key_der), v)
      → Proves c rcgen parse identifier hash cert
  of_exported identifier hash cert key_der v (ok r, w) proves e =
      Path.subst (Proves c rcgen parse identifier hash) (ap (λ p. p.0) (ok_inj (ap (λ p. p.0) e)))
        (proves r refl)
  of_exported identifier hash cert key_der v (err x, w) proves e =
      absurd (no_error (error_text x) cert key_der (ap (λ p. p.0) e))
    where
      no_error :
          (m : Text) (cert key_der : Bytes)
          → ◌≡◌ {A = Result (Bytes × Bytes) Text} (err m) (ok (cert, key_der))
          → ⊥
      no_error m cert key_der h = cc

  -- If certificates are read back as they were signed, new certificate parameters have no
  -- extensions, and digests have 32 bytes, then a certificate that the exported solver returns for a
  -- key authorization is read as one for the names of the identifier, valid for a day, whose critical
  -- acmeIdentifier extension holds, as a DER octet string, the SHA-256 digest of the key authorization.
  pub solver_responder_cert-Proves :
      (id : WitIdentifier) (token : Text) (key : AccountKey c) (w v : W) (cert key_der : Bytes)
      → Reads c rcgen parse
      → ((b : Bytes) → length (c.sha256 b) ≡ 32)
      → solver_responder_cert c rcgen id (compute_key_authorization c token key) w
        ≡ (ok (cert, key_der), v)
      → Proves c rcgen parse id.value (c.sha256 (compute_key_authorization c token key)) cert
  unfolding solver_responder_cert identifier_from_wit responder_cert
  solver_responder_cert-Proves id token key w v cert key_der reads sized e =
      of_exported id.value (c.sha256 (compute_key_authorization c token key)) cert key_der v
        (responder_cert c rcgen id.value token key w)
        (λ r h.
          responder_cert-Proves c rcgen parse id.value token key w
            (responder_cert c rcgen id.value token key w).1 r reads sized h)
        e
