-- ===== src/Protocol/Tests.antt =====
-- The exported solver for a token of the sample account.
use acme_wasm.Prelude.{refl, text}
use acme_wasm.Core.Challenge.{compute_key_authorization}
use acme_wasm.TlsAlpn01.Laws.{Proves}
use acme_wasm.TlsAlpn01.Sample.{toy, decode, digests, key, responder, toy-Reads}
use acme_wasm.Protocol.{WitIdentifier, solver_responder_cert}
use acme_wasm.Protocol.Solver.{solver_responder_cert-Proves}

abbrev identifier : WitIdentifier
identifier = record { kind = text "dns"; value = text "example.org" }

solver_responder_cert-Proves_example :
    Proves digests toy decode
      (text "example.org")
      (digests.sha256 (compute_key_authorization digests (text "token") key))
      responder.cert_der
unfolding solver_responder_cert
solver_responder_cert-Proves_example =
    solver_responder_cert-Proves digests toy decode identifier (text "token") key 0 1
      responder.cert_der responder.key_der toy-Reads (λ b. refl) refl
