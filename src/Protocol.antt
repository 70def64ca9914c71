-- ===== src/Protocol.antt =====
-- crates/protocol/src: what the component exports. An error crosses its boundary as the variant of the
-- `orchestrator` interface, of which the generated bindings have a type of their own; an identifier is
-- a record of the same two fields.
mod Solver
mod Laws
mod Tests
use acme_wasm.Prelude.{ℕ, List, ◌++◌, any, Bytes, Text, text, before, Result, ok, err}
use acme_wasm.Core.Error as Errors
use acme_wasm.Core.Records.Order.{Identifier}
use acme_wasm.Core.Crates.{Crates}
use acme_wasm.TlsAlpn01.{
  Rcgen, TlsAlpn01Error, cert_build, TlsAlpn01Responder, build,
  responder_cert_from_key_authorization,
}

pub data OrchestratorError : Type 0 where
  bad_csr bad_nonce bad_public_key bad_revocation_reason bad_signature_algorithm :
      Text → OrchestratorError
  caa compound connection dns external_account_required : Text → OrchestratorError
  incorrect_response invalid_contact malformed order_not_ready rate_limited :
      Text → OrchestratorError
  rejected_identifier server_internal tls unauthorized unsupported_contact :
      Text → OrchestratorError
  unsupported_identifier user_action_required account_does_not_exist already_revoked bad_revoked :
      Text → OrchestratorError
  transport serialization jose timeout missing_field : Text → OrchestratorError
  http : ℕ × Text → OrchestratorError
  other : Text → OrchestratorError

unfoldable pub to_orchestrator_error : Errors.AcmeError → OrchestratorError
to_orchestrator_error (Errors.bad_csr s) = bad_csr s
to_orchestrator_error (Errors.bad_nonce s) = bad_nonce s
to_orchestrator_error (Errors.bad_public_key s) = bad_public_key s
to_orchestrator_error (Errors.bad_revocation_reason s) = bad_revocation_reason s
to_orchestrator_error (Errors.bad_signature_algorithm s) = bad_signature_algorithm s
to_orchestrator_error (Errors.caa s) = caa s
to_orchestrator_error (Errors.compound s) = compound s
to_orchestrator_error (Errors.connection s) = connection s
to_orchestrator_error (Errors.dns s) = dns s
to_orchestrator_error (Errors.external_account_required s) = external_account_required s
to_orchestrator_error (Errors.incorrect_response s) = incorrect_response s
to_orchestrator_error (Errors.invalid_contact s) = invalid_contact s
to_orchestrator_error (Errors.malformed s) = malformed s
to_orchestrator_error (Errors.order_not_ready s) = order_not_ready s
to_orchestrator_error (Errors.rate_limited s) = rate_limited s
to_orchestrator_error (Errors.rejected_identifier s) = rejected_identifier s
to_orchestrator_error (Errors.server_internal s) = server_internal s
to_orchestrator_error (Errors.tls s) = tls s
to_orchestrator_error (Errors.unauthorized s) = unauthorized s
to_orchestrator_error (Errors.unsupported_contact s) = unsupported_contact s
to_orchestrator_error (Errors.unsupported_identifier s) = unsupported_identifier s
to_orchestrator_error (Errors.user_action_required s) = user_action_required s
to_orchestrator_error (Errors.account_does_not_exist s) = account_does_not_exist s
to_orchestrator_error (Errors.already_revoked s) = already_revoked s
to_orchestrator_error (Errors.bad_revoked s) = bad_revoked s
to_orchestrator_error (Errors.transport s) = transport s
to_orchestrator_error (Errors.serialization s) = serialization s
to_orchestrator_error (Errors.jose s) = jose s
to_orchestrator_error (Errors.timeout s) = timeout s
to_orchestrator_error (Errors.missing_field s) = missing_field s
to_orchestrator_error (Errors.other s) = other s
to_orchestrator_error (Errors.http status body) = http (status, body)

-- The `identifier` of an interface.
pub record WitIdentifier : Type 0 where
  pub kind : Text
  pub value : Text

unfoldable pub identifier_from_wit : WitIdentifier → Identifier
identifier_from_wit id = record { kind = id.kind; value = id.value }

-- `e.to_string()`
abbrev pub error_text : TlsAlpn01Error → Text
error_text (cert_build e) = text "rcgen failed to build responder cert: " ++ e

abbrev pub exported : Result TlsAlpn01Responder TlsAlpn01Error → Result (Bytes × Bytes) Text
exported (ok resp) = ok (resp.cert_der, resp.key_der)
exported (err e) = err (error_text e)

-- `TlsAlpn01Solver::responder_cert`
unfoldable pub solver_responder_cert :
    (c : Crates) {W : Type 0} → Rcgen W → WitIdentifier → Text → W → Result (Bytes × Bytes) Text × W
unfolding identifier_from_wit responder_cert_from_key_authorization
solver_responder_cert c rcgen id key_authorization w =
    let (result, w1) =
      responder_cert_from_key_authorization c rcgen (identifier_from_wit id).value key_authorization
        w in
    (exported result, w1)

abbrev pub not_composed_message : Text
not_composed_message =
    text "acme-protocol orchestrator has no HTTP capability of its own; "
    ++ text "compose this component with acme-http-client (or any component "
    ++ text "exporting an HttpClient) via `wac plug` before calling "
    ++ text "issue-certificate"

-- The orchestrator, which has no HTTP client before the component is composed with one.
unfoldable pub orchestrator_issue_certificate :
    {Issued : Type 0}
    → Text
    → List Text
    → List WitIdentifier
    → Text
    → Text
    → Result Issued OrchestratorError
orchestrator_issue_certificate directory_url contact identifiers cert_key_pem account_key_jwk =
    err (other not_composed_message)
