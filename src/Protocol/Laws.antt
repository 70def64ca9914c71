-- ===== src/Protocol/Laws.antt =====
-- Nothing is lost at the boundary of crates/protocol.
use acme_wasm.Prelude.{◌≡◌, refl, sym, ap, ◌∙◌}
use acme_wasm.Core.Error as Errors
use acme_wasm.Protocol.{
  OrchestratorError, bad_csr, bad_nonce, bad_public_key, bad_revocation_reason,
  bad_signature_algorithm, caa, compound, connection, dns, external_account_required,
  incorrect_response, invalid_contact, malformed, order_not_ready, rate_limited,
  rejected_identifier, server_internal, tls, unauthorized, unsupported_contact,
  unsupported_identifier, user_action_required, account_does_not_exist, already_revoked,
  bad_revoked, transport, serialization, jose, timeout, missing_field, http, other,
  to_orchestrator_error,
}

-- The error that a variant stands for.
abbrev pub read_back : OrchestratorError → Errors.AcmeError
read_back (bad_csr s) = Errors.bad_csr s
read_back (bad_nonce s) = Errors.bad_nonce s
read_back (bad_public_key s) = Errors.bad_public_key s
read_back (bad_revocation_reason s) = Errors.bad_revocation_reason s
read_back (bad_signature_algorithm s) = Errors.bad_signature_algorithm s
read_back (caa s) = Errors.caa s
read_back (compound s) = Errors.compound s
read_back (connection s) = Errors.connection s
read_back (dns s) = Errors.dns s
read_back (external_account_required s) = Errors.external_account_required s
read_back (incorrect_response s) = Errors.incorrect_response s
read_back (invalid_contact s) = Errors.invalid_contact s
read_back (malformed s) = Errors.malformed s
read_back (order_not_ready s) = Errors.order_not_ready s
read_back (rate_limited s) = Errors.rate_limited s
read_back (rejected_identifier s) = Errors.rejected_identifier s
read_back (server_internal s) = Errors.server_internal s
read_back (tls s) = Errors.tls s
read_back (unauthorized s) = Errors.unauthorized s
read_back (unsupported_contact s) = Errors.unsupported_contact s
read_back (unsupported_identifier s) = Errors.unsupported_identifier s
read_back (user_action_required s) = Errors.user_action_required s
read_back (account_does_not_exist s) = Errors.account_does_not_exist s
read_back (already_revoked s) = Errors.already_revoked s
read_back (bad_revoked s) = Errors.bad_revoked s
read_back (transport s) = Errors.transport s
read_back (serialization s) = Errors.serialization s
read_back (jose s) = Errors.jose s
read_back (timeout s) = Errors.timeout s
read_back (missing_field s) = Errors.missing_field s
read_back (other s) = Errors.other s
read_back (http (status, body)) = Errors.http status body

read_back-to_orchestrator_error : (e : Errors.AcmeError) → read_back (to_orchestrator_error e) ≡ e
unfolding to_orchestrator_error
read_back-to_orchestrator_error (Errors.bad_csr s) = refl
read_back-to_orchestrator_error (Errors.bad_nonce s) = refl
read_back-to_orchestrator_error (Errors.bad_public_key s) = refl
read_back-to_orchestrator_error (Errors.bad_revocation_reason s) = refl
read_back-to_orchestrator_error (Errors.bad_signature_algorithm s) = refl
read_back-to_orchestrator_error (Errors.caa s) = refl
read_back-to_orchestrator_error (Errors.compound s) = refl
read_back-to_orchestrator_error (Errors.connection s) = refl
read_back-to_orchestrator_error (Errors.dns s) = refl
read_back-to_orchestrator_error (Errors.external_account_required s) = refl
read_back-to_orchestrator_error (Errors.incorrect_response s) = refl
read_back-to_orchestrator_error (Errors.invalid_contact s) = refl
read_back-to_orchestrator_error (Errors.malformed s) = refl
read_back-to_orchestrator_error (Errors.order_not_ready s) = refl
read_back-to_orchestrator_error (Errors.rate_limited s) = refl
read_back-to_orchestrator_error (Errors.rejected_identifier s) = refl
read_back-to_orchestrator_error (Errors.server_internal s) = refl
read_back-to_orchestrator_error (Errors.tls s) = refl
read_back-to_orchestrator_error (Errors.unauthorized s) = refl
read_back-to_orchestrator_error (Errors.unsupported_contact s) = refl
read_back-to_orchestrator_error (Errors.unsupported_identifier s) = refl
read_back-to_orchestrator_error (Errors.user_action_required s) = refl
read_back-to_orchestrator_error (Errors.account_does_not_exist s) = refl
read_back-to_orchestrator_error (Errors.already_revoked s) = refl
read_back-to_orchestrator_error (Errors.bad_revoked s) = refl
read_back-to_orchestrator_error (Errors.transport s) = refl
read_back-to_orchestrator_error (Errors.serialization s) = refl
read_back-to_orchestrator_error (Errors.jose s) = refl
read_back-to_orchestrator_error (Errors.timeout s) = refl
read_back-to_orchestrator_error (Errors.missing_field s) = refl
read_back-to_orchestrator_error (Errors.other s) = refl
read_back-to_orchestrator_error (Errors.http status body) = refl

onto : (v : OrchestratorError) → to_orchestrator_error (read_back v) ≡ v
unfolding to_orchestrator_error
onto (bad_csr s) = refl
onto (bad_nonce s) = refl
onto (bad_public_key s) = refl
onto (bad_revocation_reason s) = refl
onto (bad_signature_algorithm s) = refl
onto (caa s) = refl
onto (compound s) = refl
onto (connection s) = refl
onto (dns s) = refl
onto (external_account_required s) = refl
onto (incorrect_response s) = refl
onto (invalid_contact s) = refl
onto (malformed s) = refl
onto (order_not_ready s) = refl
onto (rate_limited s) = refl
onto (rejected_identifier s) = refl
onto (server_internal s) = refl
onto (tls s) = refl
onto (unauthorized s) = refl
onto (unsupported_contact s) = refl
onto (unsupported_identifier s) = refl
onto (user_action_required s) = refl
onto (account_does_not_exist s) = refl
onto (already_revoked s) = refl
onto (bad_revoked s) = refl
onto (transport s) = refl
onto (serialization s) = refl
onto (jose s) = refl
onto (timeout s) = refl
onto (missing_field s) = refl
onto (other s) = refl
onto (http (status, body)) = refl

-- Two errors that cross the boundary as the same variant are the same error, and each variant is
-- what some error crosses it as.
pub to_orchestrator_error_lem :
    ((d e : Errors.AcmeError) → to_orchestrator_error d ≡ to_orchestrator_error e → d ≡ e)
    × ((v : OrchestratorError) → to_orchestrator_error (read_back v) ≡ v)
to_orchestrator_error_lem = (
  (λ d e same.
      sym (read_back-to_orchestrator_error d)
      ∙ ap read_back same
      ∙ read_back-to_orchestrator_error e),
  onto,
)
