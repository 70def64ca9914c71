-- ===== src/Harness/TlsServer/Laws.antt =====
-- What the TLS-ALPN-01 responder of crates/testing/src/tls_server.rs presents while it is armed.
use mathlib.Core.Path
use acme_wasm.Core.Jws.{AccountKey}
use acme_wasm.Core.Challenge.{compute_key_authorization}
use acme_wasm.Core.Records.Order.{Identifier}
use acme_wasm.TlsAlpn01.{responder_cert, TlsAlpn01Error}
use acme_wasm.TlsAlpn01.Laws.{Reads, responder_cert-Proves}
use acme_wasm.Prelude.{
  ok_inj, ap, length, ◌≡◌, refl, inl, inr, true, false, Option, none, some, List, [], ◌∷◌,
  Bool-cases, Bytes, Text, Result, ok, err,
}
use acme_wasm.Core.Crates.{Crates}
use acme_wasm.Core.Jws.{AccountKey}
use acme_wasm.Core.Challenge.{ChallengeReady, compute_key_authorization}
use acme_wasm.Core.Records.Order.{Identifier}
use acme_wasm.TlsAlpn01.{
  Rcgen, CertificateParams, TlsAlpn01Responder, TlsAlpn01Error, responder_cert,
}
use acme_wasm.TlsAlpn01.Laws.{Reads, Proves, responder_cert-Proves}
use acme_wasm.Harness.TlsServer.{
  tls_ready, tls_solver, tls_arm, clear, Rustls, CertifiedKey, Slot, alpn_ok, resolve, install,
  installed, with_responder,
}

module _ (tls : Rustls) (c : Crates) {V : Type 0} (rcgen : Rcgen V)
    (parse : Bytes → Option (CertificateParams rcgen.San rcgen.Name)) where
  -- What is presented from the slot of `w`: to clients that offer the protocol, one certificate that
  -- proves the digest for the identifier, and to others, nothing; and after the handle is dropped,
  -- nothing to anyone.
  pub record Presents (identifier : Text) (hash : Bytes) (ready : ChallengeReady (Slot tls × V))
      (w : Slot tls × V) : Type 0 where
    pub certified : CertifiedKey tls
    pub cert : Bytes
    pub alone : certified.chain ≡ cert ∷ []
    pub proves : Proves c rcgen parse identifier hash cert
    pub to_acme :
        (alpn : Option (List Bytes))
        → alpn_ok tls alpn ≡ true
        → resolve tls alpn w.0 ≡ some certified
    pub to_others :
        (alpn : Option (List Bytes)) → alpn_ok tls alpn ≡ false → resolve tls alpn w.0 ≡ none
    pub torn_down : (alpn : Option (List Bytes)) → resolve tls alpn (ready.drop w).0 ≡ none

  resolve_empty : (alpn : Option (List Bytes)) → resolve tls alpn none ≡ none
  unfolding resolve
  resolve_empty alpn = elim (Bool-cases (alpn_ok tls alpn)) [
    | inl e ↦ rw e refl
    | inr e ↦ rw e refl
  ]

  module _ (identifier : Text) (hash : Bytes) where
    loaded :
        (v : V) (certified : CertifiedKey tls) (cert : Bytes)
        → certified.chain ≡ cert ∷ []
        → Proves c rcgen parse identifier hash cert
        → Presents identifier hash (tls_ready tls) (some certified, v)
    unfolding resolve tls_ready clear
    loaded v certified cert alone proves = record {
      certified = certified;
      cert = cert;
      alone = alone;
      proves = proves;
      to_acme = λ alpn e. rw e refl;
      to_others = λ alpn e. rw e refl;
      torn_down = resolve_empty;
    }

    installed-Presents :
        (slot : Slot tls) (v : V) (responder : TlsAlpn01Responder)
        (key : Result tls.SigningKey Text)
        → tls.any_ecdsa_type responder.key_der ≡ key
        → Proves c rcgen parse identifier hash responder.cert_der
        → (ready : ChallengeReady (Slot tls × V)) (w : Slot tls × V)
        → with_responder tls c rcgen slot (ok responder, v) ≡ (ok ready, w)
        → Presents identifier hash ready w
    unfolding with_responder install installed
    installed-Presents slot v responder (err e) made proves ready w h =
        let g = rw (made, install) at h in absurd cc
    installed-Presents slot v responder (ok key) made proves ready w h =
        let g = rw (made, install) at h in
        Path.subst (λ r. Presents identifier hash r w) (ok_inj (ap (λ x. x.0) g))
          (Path.subst (Presents identifier hash (tls_ready tls)) (ap (λ x. x.1) g) (
            loaded v (record { chain = responder.cert_der ∷ []; key = key }) responder.cert_der refl
              proves))

    with_responder-Presents :
        (slot : Slot tls) (o : Result TlsAlpn01Responder TlsAlpn01Error × V)
        → ((r : TlsAlpn01Responder) (v : V)
            → o ≡ (ok r, v)
            → Proves c rcgen parse identifier hash r.cert_der)
        → (ready : ChallengeReady (Slot tls × V)) (w : Slot tls × V)
        → with_responder tls c rcgen slot o ≡ (ok ready, w)
        → Presents identifier hash ready w
    unfolding with_responder
    with_responder-Presents slot (err e, v) proves ready w h = absurd cc
    with_responder-Presents slot (ok r, v) proves ready w h =
        installed-Presents slot v r (tls.any_ecdsa_type r.key_der) refl (proves r v refl) ready w h

  -- If certificates are read back as they were signed, new certificate parameters have no
  -- extensions, and digests have 32 bytes, then after the solver was armed with the key
  -- authorization of a token, clients that offer `acme-tls/1` are presented one certificate, which
  -- proves the digest of that key authorization for the identifier, and other clients nothing; and
  -- after the handle is dropped, nobody is presented anything.
  pub tls_arm-Presents :
      (identifier : Identifier) (token : Text) (key : AccountKey c)
      (ready : ChallengeReady (Slot tls × V)) (s w : Slot tls × V)
      → Reads c rcgen parse
      → ((b : Bytes) → length (c.sha256 b) ≡ 32)
      → (tls_solver tls c rcgen).arm identifier (compute_key_authorization c token key) s
        ≡ (ok ready, w)
      → Presents identifier.value (c.sha256 (compute_key_authorization c token key)) ready w
  unfolding tls_solver tls_arm responder_cert
  tls_arm-Presents identifier token key ready s w reads sized h =
      with_responder-Presents identifier.value (c.sha256 (compute_key_authorization c token key))
        s.0 (responder_cert c rcgen identifier.value token key s.1)
        (λ r v made.
          responder_cert-Proves c rcgen parse identifier.value token key s.1 v r reads sized made)
        ready w h
