-- ===== src/Core/Error/Display.antt =====
-- The `Display` of the errors of crates/core/src/error.rs.
use acme_wasm.Prelude.{
  sym, ◌∙◌, true, false, Bool-cases, ◌≡◌, ap, inl, inr, Option, some, ◌++◌, Text, text, decimal,
}
use acme_wasm.Core.Error.{
  bad_csr, bad_nonce, bad_public_key, bad_revocation_reason, bad_signature_algorithm, caa, compound,
  connection, dns, external_account_required, incorrect_response, invalid_contact, malformed,
  order_not_ready, rate_limited, rejected_identifier, server_internal, tls, unauthorized,
  unsupported_contact, unsupported_identifier, user_action_required, account_does_not_exist,
  already_revoked, bad_revoked, transport, serialization, jose, timeout, missing_field, other, http,
  AcmeError, prefix, parse_problem_type,
}
use acme_wasm.Core.Error.Documented.{
  is_documented, problem_code-is_documented, parse_problem_type-is_documented,
}
use acme_wasm.Core.Error.Laws.{problem_code, parse_problem_type_total}

unfoldable pub acme_error_text : AcmeError → Text
unfolding decimal
acme_error_text (bad_csr d) = text "badCSR: " ++ d
acme_error_text (bad_nonce d) = text "badNonce: " ++ d
acme_error_text (bad_public_key d) = text "badPublicKey: " ++ d
acme_error_text (bad_revocation_reason d) = text "badRevocationReason: " ++ d
acme_error_text (bad_signature_algorithm d) = text "badSignatureAlgorithm: " ++ d
acme_error_text (caa d) = text "caa: " ++ d
acme_error_text (compound d) = text "compound: " ++ d
acme_error_text (connection d) = text "connection: " ++ d
acme_error_text (dns d) = text "dns: " ++ d
acme_error_text (external_account_required d) = text "externalAccountRequired: " ++ d
acme_error_text (incorrect_response d) = text "incorrectResponse: " ++ d
acme_error_text (invalid_contact d) = text "invalidContact: " ++ d
acme_error_text (malformed d) = text "malformed: " ++ d
acme_error_text (order_not_ready d) = text "orderNotReady: " ++ d
acme_error_text (rate_limited d) = text "rateLimited: " ++ d
acme_error_text (rejected_identifier d) = text "rejectedIdentifier: " ++ d
acme_error_text (server_internal d) = text "serverInternal: " ++ d
acme_error_text (tls d) = text "tls: " ++ d
acme_error_text (unauthorized d) = text "unauthorized: " ++ d
acme_error_text (unsupported_contact d) = text "unsupportedContact: " ++ d
acme_error_text (unsupported_identifier d) = text "unsupportedIdentifier: " ++ d
acme_error_text (user_action_required d) = text "userActionRequired: " ++ d
acme_error_text (account_does_not_exist d) = text "accountDoesNotExist: " ++ d
acme_error_text (already_revoked d) = text "alreadyRevoked: " ++ d
acme_error_text (bad_revoked d) = text "badRevoked: " ++ d
acme_error_text (transport d) = text "transport: " ++ d
acme_error_text (serialization d) = text "serialization: " ++ d
acme_error_text (jose d) = text "jose: " ++ d
acme_error_text (timeout d) = text "timeout: " ++ d
acme_error_text (missing_field d) = text "missing field: " ++ d
acme_error_text (http status body) = text "http " ++ decimal status ++ text ": " ++ body
acme_error_text (other d) = d

shown_code :
    (k m c d : Text)
    → ◌≡◌ {A = Option (Text × Text)} (some (k, m)) (some (c, d))
    → k ++ text ": " ++ m ≡ c ++ text ": " ++ d
shown_code k m c d h =
    let same : (k, m) ≡ (c, d) = cc in ap (λ (x : Text × Text). x.0 ++ text ": " ++ x.1) same

-- An error of the table shows its code and its detail.
acme_error_text-problem_code :
    (e : AcmeError) (c d : Text)
    → problem_code e ≡ some (c, d)
    → acme_error_text e ≡ c ++ text ": " ++ d
unfolding acme_error_text text
acme_error_text-problem_code (bad_csr m) c d h = shown_code _ m c d h
acme_error_text-problem_code (bad_nonce m) c d h = shown_code _ m c d h
acme_error_text-problem_code (bad_public_key m) c d h = shown_code _ m c d h
acme_error_text-problem_code (bad_revocation_reason m) c d h = shown_code _ m c d h
acme_error_text-problem_code (bad_signature_algorithm m) c d h = shown_code _ m c d h
acme_error_text-problem_code (caa m) c d h = shown_code _ m c d h
acme_error_text-problem_code (compound m) c d h = shown_code _ m c d h
acme_error_text-problem_code (connection m) c d h = shown_code _ m c d h
acme_error_text-problem_code (dns m) c d h = shown_code _ m c d h
acme_error_text-problem_code (external_account_required m) c d h = shown_code _ m c d h
acme_error_text-problem_code (incorrect_response m) c d h = shown_code _ m c d h
acme_error_text-problem_code (invalid_contact m) c d h = shown_code _ m c d h
acme_error_text-problem_code (malformed m) c d h = shown_code _ m c d h
acme_error_text-problem_code (order_not_ready m) c d h = shown_code _ m c d h
acme_error_text-problem_code (rate_limited m) c d h = shown_code _ m c d h
acme_error_text-problem_code (rejected_identifier m) c d h = shown_code _ m c d h
acme_error_text-problem_code (server_internal m) c d h = shown_code _ m c d h
acme_error_text-problem_code (tls m) c d h = shown_code _ m c d h
acme_error_text-problem_code (unauthorized m) c d h = shown_code _ m c d h
acme_error_text-problem_code (unsupported_contact m) c d h = shown_code _ m c d h
acme_error_text-problem_code (unsupported_identifier m) c d h = shown_code _ m c d h
acme_error_text-problem_code (user_action_required m) c d h = shown_code _ m c d h
acme_error_text-problem_code (account_does_not_exist m) c d h = shown_code _ m c d h
acme_error_text-problem_code (already_revoked m) c d h = shown_code _ m c d h
acme_error_text-problem_code (bad_revoked m) c d h = shown_code _ m c d h
acme_error_text-problem_code (transport m) c d h = absurd cc
acme_error_text-problem_code (serialization m) c d h = absurd cc
acme_error_text-problem_code (jose m) c d h = absurd cc
acme_error_text-problem_code (timeout m) c d h = absurd cc
acme_error_text-problem_code (missing_field m) c d h = absurd cc
acme_error_text-problem_code (other m) c d h = absurd cc
acme_error_text-problem_code (http status body) c d h = absurd cc

-- The code of the URN of a documented code, and any other URI whole.
pub data ShownType (type_uri : Text) : Text → Type 0 where
  code : (c : Text) → type_uri ≡ prefix ++ c → is_documented c ≡ true → ShownType type_uri c
  whole :
      ((c : Text) → type_uri ≡ prefix ++ c → is_documented c ≡ false) → ShownType type_uri type_uri

-- An error that was read from a problem's type URI and its detail shows the detail after a colon, and
-- before it the type's code when the URI is the URN of a documented code, or else the whole URI.
pub acme_error_text-parse_problem_type :
    (type_uri detail : Text)
    → (shown : Text) × ShownType type_uri shown
      × (acme_error_text (parse_problem_type type_uri detail) ≡ shown ++ text ": " ++ detail)
unfolding acme_error_text
acme_error_text-parse_problem_type uri d = elim (parse_problem_type_total uri d) [
  | inl (c, urn, known) ↦
      let e = parse_problem_type uri d in
      (
        c,
        code c urn (problem_code-is_documented e c d known),
        acme_error_text-problem_code e c d known,
      )
  | inr unknown ↦ (
    uri,
    whole λ c urn. elim (Bool-cases (is_documented c)) [
      | inl known ↦ absurd (
          parse_problem_type-is_documented c d _ known
            (ap (λ u. parse_problem_type u d) (sym urn) ∙ unknown))
      | inr not_known ↦ not_known
    ],
    ap acme_error_text unknown,
  )
]

-- `From<serde_json::Error>` and `From<url::ParseError>`, of the `Display` texts
unfoldable pub from_serde : Text → AcmeError
from_serde e = serialization e

unfoldable pub from_url : Text → AcmeError
from_url e = serialization (text "url: " ++ e)
