-- ===== src/Harness/TlsServer/Threads.antt =====
-- The TLS-ALPN-01 responder of crates/testing/src/tls_server.rs with its threads: to whom the
-- challenge certificate is presented, however connections and the caller's swaps interleave.
use acme_wasm.Prelude.{
  ◌≡◌, refl, ap, ◌≢◌, inl, inr, false, not, Option, none, some, List, [], ◌∷◌, if◌then◌else◌,
  Bool-cases, any, All, Bytes, ◌is◌, is_iff,
}
use acme_wasm.TlsAlpn01.{acme_tls_alpn_protocol}
use acme_wasm.Harness.Accept.{Server, Run}
use acme_wasm.Harness.Accept.Laws.{Run-Kept}
use acme_wasm.Harness.TlsServer.{Rustls, CertifiedKey, Slot, alpn_ok, resolve, install, clear}

-- The protocols that the client of a connection offers, if any.
abbrev pub Offer : Type 0
Offer = Option (List Bytes)

module _ (tls : Rustls) where
  abbrev pub TlsServer : Type 0
  TlsServer = Server (Slot tls) Offer (Option (CertifiedKey tls))

  -- What `handle_tls_connection` presents in the handshake; without a certificate it is aborted.
  unfoldable pub handle_tls_connection : Offer → Slot tls → Option (CertifiedKey tls)
  unfolding resolve
  handle_tls_connection offer slot = resolve tls offer slot

  -- `TlsAlpn01Server::install` and `TlsAlpn01Server::clear`
  pub data Swap (slot : Slot tls) : Slot tls → Type 0 where
    installs : (cert_der key_der : Bytes) → Swap slot (install tls cert_der key_der slot).1
    clears : Swap slot (clear tls slot)

  -- The client does not offer `acme-tls/1`.
  abbrev pub Plain : Offer → Type 0
  Plain none = Unit
  Plain (some protocols) = All (λ p. p ≢ acme_tls_alpn_protocol) protocols

  abbrev pub Refuses : Offer × Option (CertifiedKey tls) → Type 0
  Refuses (offer, presented) = Plain offer → presented ≡ none

  none_offered :
      (protocols : List Bytes)
      → All (λ p. p ≢ acme_tls_alpn_protocol) protocols
      → any (λ p. p is acme_tls_alpn_protocol) protocols ≡ false
  none_offered [] h = refl
  none_offered (p ∷ protocols) h = elim (Bool-cases (p is acme_tls_alpn_protocol)) [
    | inl e ↦ absurd (h.0 ((is_iff p acme_tls_alpn_protocol).0 e))
    | inr e ↦ rw (e, none_offered protocols h.1) refl
  ]

  handle_tls_connection-Refuses :
      (offer : Offer) (slot : Slot tls) → Plain offer → handle_tls_connection offer slot ≡ none
  unfolding handle_tls_connection alpn_ok
  handle_tls_connection-Refuses none slot plain = refl
  handle_tls_connection-Refuses (some protocols) slot plain =
      ap (λ b. if not b then none else slot) (none_offered protocols plain)

  -- However the connections interleave with certificates being installed and cleared: no client that
  -- does not offer `acme-tls/1` is presented a certificate.
  pub Run-Refuses :
      (server last : TlsServer)
      → Run handle_tls_connection Swap server last
      → All Refuses server.served
      → All Refuses last.served
  Run-Refuses server last run so_far =
      (Run-Kept handle_tls_connection Swap (λ slot. Unit) Refuses (λ old new swap u. u)
        (λ offer slot u plain. handle_tls_connection-Refuses offer slot plain) server last run
        (tt, so_far)).1
