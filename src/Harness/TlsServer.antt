-- ===== src/Harness/TlsServer.antt =====
-- crates/testing/src/tls_server.rs: the certificate resolver of the TLS-ALPN-01 responder, and its
-- solver. The world is the slot of the resolver and whatever else there is.
pub mod Threads
pub mod Laws
mod Tests
use mathlib.Core.Path
use acme_wasm.Prelude.{
  Bool, false, not, Option, none, some, List, [], ◌∷◌, ◌++◌, if◌then◌else◌, drop, any, Bytes, Text,
  text, ◌is◌, Result, ok, err,
}
use acme_wasm.Core.Error.{AcmeError, jose}
use acme_wasm.Core.Crates.{Crates}
use acme_wasm.Core.Challenge.{ChallengeReady, ChallengeSolver}
use acme_wasm.Core.Records.Challenge.{tls_alpn01}
use acme_wasm.Core.Records.Order.{Identifier}
use acme_wasm.TlsAlpn01.{
  acme_tls_alpn_protocol, Rcgen, TlsAlpn01Error, cert_build, TlsAlpn01Responder, build,
  responder_cert_from_key_authorization,
}
use acme_wasm.TlsAlpn01.Laws.{Reads, Proves}

-- `rustls`: the signing key from a PKCS#8 private key.
pub record Rustls : Type 1 where
  pub SigningKey : Type 0
  pub any_ecdsa_type : Bytes → Result SigningKey Text

pub record CertifiedKey (tls : Rustls) : Type 0 where
  pub chain : List Bytes
  pub key : tls.SigningKey

module _ (tls : Rustls) where
  -- `SwappableResolver`
  abbrev pub Slot : Type 0
  Slot = Option (CertifiedKey tls)

  -- The protocols that the client offers, if any, have ours among them.
  unfoldable pub alpn_ok : Option (List Bytes) → Bool
  alpn_ok none = false
  alpn_ok (some protocols) = any (λ p. p is acme_tls_alpn_protocol) protocols

  unfoldable pub resolve : Option (List Bytes) → Slot → Option (CertifiedKey tls)
  unfolding alpn_ok
  resolve alpn slot = if not (alpn_ok alpn) then none else slot

  -- `TlsAlpn01Server::install`
  unfoldable pub install : Bytes → Bytes → Slot → Result (Unit {0}) Text × Slot
  install cert_der key_der slot = elim (tls.any_ecdsa_type key_der) [
    | err e ↦ (err e, slot)
    | ok key ↦ (ok tt, some (record { chain = cert_der ∷ []; key = key }))
  ]

  unfoldable pub clear : Slot → Slot
  clear slot = none

  abbrev build_failed : TlsAlpn01Error → AcmeError
  build_failed (cert_build e) =
      jose (text "build tls-alpn responder: rcgen failed to build responder cert: " ++ e)

  abbrev install_failed : Text → AcmeError
  install_failed e = jose (text "install responder cert: " ++ e)

  module _ {V : Type 0} where
    -- `TlsAlpn01Ready`
    unfoldable pub tls_ready : ChallengeReady (Slot × V)
    unfolding clear
    tls_ready = record { self_check = λ w. (ok tt, w); drop = λ (slot, v). (clear slot, v) }

  module _ (c : Crates) {V : Type 0} (rcgen : Rcgen V) where
    -- What follows `install`.
    unfoldable pub installed :
        V
        → Result (Unit {0}) Text × Slot
        → Result (ChallengeReady (Slot × V)) AcmeError × (Slot × V)
    unfolding tls_ready
    installed v (err e, slot) = (err (install_failed e), (slot, v))
    installed v (ok _, slot) = (ok tls_ready, (slot, v))

    -- What follows the certificate.
    unfoldable pub with_responder :
        Slot
        → Result TlsAlpn01Responder TlsAlpn01Error × V
        → Result (ChallengeReady (Slot × V)) AcmeError × (Slot × V)
    unfolding install installed
    with_responder slot (err e, v) = (err (build_failed e), (slot, v))
    with_responder slot (ok responder, v) =
        installed v (install responder.cert_der responder.key_der slot)

    unfoldable pub tls_arm :
        Identifier → Text → Slot × V → Result (ChallengeReady (Slot × V)) AcmeError × (Slot × V)
    unfolding with_responder responder_cert_from_key_authorization
    tls_arm identifier key_authorization (slot, v) =
        with_responder slot
          (responder_cert_from_key_authorization c rcgen identifier.value key_authorization v)

    -- `TlsAlpn01SolverAdapter`
    unfoldable pub tls_solver : ChallengeSolver (Slot × V)
    unfolding tls_arm
    tls_solver = record { kind = tls_alpn01; arm = tls_arm }
