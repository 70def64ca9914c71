-- ===== src/TlsAlpn01/Laws.antt =====
-- A CA that reads the responder's certificate as RFC 8737 says accepts it.
use mathlib.Core.Path
use acme_wasm.Prelude.{
  ℕ, ◌+◌, ◌≡◌, refl, ap, ◌&&◌, Option, none, some, List, [], ◌∷◌, ltb, ◌==◌, if◌then◌else◌, length,
  find_first, Bytes, Text, ◌is◌, Result, ok, err, ok_inj,
}
use acme_wasm.Core.Crates.{Crates}
use acme_wasm.Core.Jws.{AccountKey}
use acme_wasm.Core.Challenge.{compute_key_authorization, now}
use acme_wasm.TlsAlpn01.{
  acme_identifier_oid, CustomExtension, CertificateParams, Rcgen, TlsAlpn01Responder, filled,
  sign_at, build, responder_cert_from_key_authorization, responder_cert,
}

-- A DER octet string of less than 128 bytes.
abbrev pub read_octet_string : Bytes → Option Bytes
read_octet_string (tag ∷ size ∷ content) =
    if tag == 4 && ltb size 128 && length content == size then some content else none
read_octet_string _ = none

-- The digest that a certificate proves: in its acmeIdentifier extension, which must be critical.
abbrev pub proved_digest : List CustomExtension → Option Bytes
proved_digest extensions = elim (find_first (λ e. e.oid is acme_identifier_oid) extensions) [
  | none ↦ none
  | some e ↦ if e.critical then read_octet_string e.content else none
]

module _ (c : Crates) {W : Type 0} (rcgen : Rcgen W)
    (parse : Bytes → Option (CertificateParams rcgen.San rcgen.Name)) where
  -- A certificate is read back as it was signed; new parameters have no extensions of their own.
  pub record Reads : Type 0 where
    pub signed :
        (params : CertificateParams rcgen.San rcgen.Name) (key_pair : rcgen.KeyPair) (der : Bytes)
        → rcgen.self_signed params key_pair ≡ ok der
        → parse der ≡ some params
    pub plain :
        (names : List Text) (params : CertificateParams rcgen.San rcgen.Name)
        → rcgen.params_new names ≡ ok params
        → params.custom_extensions ≡ []

  pub record Proves (identifier : Text) (hash cert : Bytes) : Type 0 where
    pub params : CertificateParams rcgen.San rcgen.Name
    pub reads : parse cert ≡ some params
    pub names : CertificateParams rcgen.San rcgen.Name
    pub for_identifier : rcgen.params_new (identifier ∷ []) ≡ ok names
    pub named : params.subject_alt_names ≡ names.subject_alt_names
    pub digest : proved_digest params.custom_extensions ≡ some hash
    pub one_day : params.not_after ≡ params.not_before + 86400

  proved_digest-filled :
      (now : ℕ) (hash : Bytes) (params : CertificateParams rcgen.San rcgen.Name)
      → length hash ≡ 32
      → params.custom_extensions ≡ []
      → proved_digest (filled c rcgen now hash params).custom_extensions ≡ some hash
  unfolding ◌is◌
  proved_digest-filled now hash params sized plain = rw plain (rw sized refl)

  module _ (reads : Reads) (identifier : Text) (hash : Bytes) (sized : length hash ≡ 32) where
    sign_at-Proves :
        (key_pair : rcgen.KeyPair) (names : CertificateParams rcgen.San rcgen.Name) (now : ℕ)
        (signed : Result Bytes Text)
        → rcgen.params_new (identifier ∷ []) ≡ ok names
        → rcgen.self_signed (filled c rcgen now hash names) key_pair ≡ signed
        → (r : TlsAlpn01Responder) → sign_at c rcgen key_pair names hash now ≡ ok r
        → Proves identifier hash r.cert_der
    unfolding sign_at
    sign_at-Proves key_pair names now (err e) new signed r h =
        let g = rw (signed, sign_at) at h in absurd cc
    sign_at-Proves key_pair names now (ok der) new signed r h =
        let g = rw (signed, sign_at) at h in
        Path.subst (Proves identifier hash) (ap (λ x. x.cert_der) (ok_inj g)) (record {
          params = filled c rcgen now hash names;
          reads = reads.signed (filled c rcgen now hash names) key_pair der signed;
          names = names;
          for_identifier = new;
          named = refl;
          digest =
              proved_digest-filled now hash names sized (reads.plain (identifier ∷ []) names new);
          one_day = refl;
        })

    build-Proves :
        (o : Result rcgen.KeyPair Text × W)
        (new : Result (CertificateParams rcgen.San rcgen.Name) Text)
        → rcgen.params_new (identifier ∷ []) ≡ new
        → (r : TlsAlpn01Responder) (v : W) → build c rcgen identifier hash o ≡ (ok r, v)
        → Proves identifier hash r.cert_der
    unfolding build
    build-Proves (err e, w) new made r v h = absurd cc
    build-Proves (ok key_pair, w) (err e) made r v h = let g = rw (made, build) at h in absurd cc
    build-Proves (ok key_pair, w) (ok names) made r v h =
        let g = rw (made, build) at h in
        sign_at-Proves key_pair names (rcgen.now_utc w).0
          (rcgen.self_signed (filled c rcgen (rcgen.now_utc w).0 hash names) key_pair) made refl r
          (ap (λ x. x.0) g)

  -- If certificates are read back as they were signed, new certificate parameters have no
  -- extensions, and digests have 32 bytes, then a responder certificate is read as one for the names
  -- of the identifier, valid for a day, whose critical acmeIdentifier extension holds, as a DER octet
  -- string, the SHA-256 digest of the key authorization.
  pub responder_cert-Proves :
      (identifier token : Text) (key : AccountKey c) (w v : W) (r : TlsAlpn01Responder)
      → Reads
      → ((b : Bytes) → length (c.sha256 b) ≡ 32)
      → responder_cert c rcgen identifier token key w ≡ (ok r, v)
      → Proves identifier (c.sha256 (compute_key_authorization c token key)) r.cert_der
  unfolding responder_cert responder_cert_from_key_authorization
  responder_cert-Proves identifier token key w v r reads sized h =
      build-Proves reads identifier (c.sha256 (compute_key_authorization c token key))
        (sized (compute_key_authorization c token key)) (rcgen.generate w)
        (rcgen.params_new (identifier ∷ [])) refl r v h
