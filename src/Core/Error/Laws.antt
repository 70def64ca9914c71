-- ===== src/Core/Error/Laws.antt =====
-- The dispatch on problem types against the URNs that the error variants document.
use acme_wasm.Prelude.{
  ℕ, ◌≤◌, ◌≡◌, refl, ◌⊎◌, inl, inr, true, false, Option, none, some, ◌∷◌, ◌++◌, arith, Bool-cases,
  Option-cases, Bytes, Text, text, ◌is◌, is_iff, strip_prefix, strip_prefix-append,
  strip_prefix-eq-some, before-append, trim, from_utf8, from_utf8_lossy, from_utf8_lossy-valid,
  count_chars, take_chars, FirstChars, take_chars-FirstChars, take_chars_all, Result, ok, err,
  Result-cases,
}
use acme_wasm.Core.Error.{
  AcmeError, bad_csr, bad_nonce, bad_public_key, bad_revocation_reason, bad_signature_algorithm,
  caa, compound, connection, dns, external_account_required, incorrect_response, invalid_contact,
  malformed, order_not_ready, rate_limited, rejected_identifier, server_internal, tls, unauthorized,
  unsupported_contact, unsupported_identifier, user_action_required, account_does_not_exist,
  already_revoked, bad_revoked, http, other, ProblemDocument, prefix, parse_code,
  parse_problem_type, into_acme_error, is_problem_type, is_problem, http_failure,
  problem_from_response,
}

-- The code that the documentation of a variant names, with its detail; `none` for a variant that
-- only the client raises.
abbrev pub problem_code : AcmeError → Option (Text × Text)
problem_code (bad_csr d) = some (text "badCSR", d)
problem_code (bad_nonce d) = some (text "badNonce", d)
problem_code (bad_public_key d) = some (text "badPublicKey", d)
problem_code (bad_revocation_reason d) = some (text "badRevocationReason", d)
problem_code (bad_signature_algorithm d) = some (text "badSignatureAlgorithm", d)
problem_code (caa d) = some (text "caa", d)
problem_code (compound d) = some (text "compound", d)
problem_code (connection d) = some (text "connection", d)
problem_code (dns d) = some (text "dns", d)
problem_code (external_account_required d) = some (text "externalAccountRequired", d)
problem_code (incorrect_response d) = some (text "incorrectResponse", d)
problem_code (invalid_contact d) = some (text "invalidContact", d)
problem_code (malformed d) = some (text "malformed", d)
problem_code (order_not_ready d) = some (text "orderNotReady", d)
problem_code (rate_limited d) = some (text "rateLimited", d)
problem_code (rejected_identifier d) = some (text "rejectedIdentifier", d)
problem_code (server_internal d) = some (text "serverInternal", d)
problem_code (tls d) = some (text "tls", d)
problem_code (unauthorized d) = some (text "unauthorized", d)
problem_code (unsupported_contact d) = some (text "unsupportedContact", d)
problem_code (unsupported_identifier d) = some (text "unsupportedIdentifier", d)
problem_code (user_action_required d) = some (text "userActionRequired", d)
problem_code (account_does_not_exist d) = some (text "accountDoesNotExist", d)
problem_code (already_revoked d) = some (text "alreadyRevoked", d)
problem_code (bad_revoked d) = some (text "badRevoked", d)
problem_code _ = none

-- Either the code is one of the table, and the variant documents it, or it is kept in `other`.
parse_code_cases :
    (code d : Text)
    → (problem_code (parse_code code d) ≡ some (code, d))
      ⊎ (parse_code code d ≡ other (prefix ++ code ++ text ": " ++ d))
unfolding parse_code
parse_code_cases code d = ground (
  arith,
  is_iff code (text "badCSR"),
  is_iff code (text "badNonce"),
  is_iff code (text "badPublicKey"),
  is_iff code (text "badRevocationReason"),
  is_iff code (text "badSignatureAlgorithm"),
  is_iff code (text "caa"),
  is_iff code (text "compound"),
  is_iff code (text "connection"),
  is_iff code (text "dns"),
  is_iff code (text "externalAccountRequired"),
  is_iff code (text "incorrectResponse"),
  is_iff code (text "invalidContact"),
  is_iff code (text "malformed"),
  is_iff code (text "orderNotReady"),
  is_iff code (text "rateLimited"),
  is_iff code (text "rejectedIdentifier"),
  is_iff code (text "serverInternal"),
  is_iff code (text "tls"),
  is_iff code (text "unauthorized"),
  is_iff code (text "unsupportedContact"),
  is_iff code (text "unsupportedIdentifier"),
  is_iff code (text "userActionRequired"),
  is_iff code (text "accountDoesNotExist"),
  is_iff code (text "alreadyRevoked"),
  is_iff code (text "badRevoked"),
)

-- Every documented code is read back as its variant.
pub parse_code-problem_code :
    (e : AcmeError) {c m : Text} → problem_code e ≡ some (c, m) → parse_code c m ≡ e
unfolding parse_code text ◌is◌
parse_code-problem_code (bad_csr d) h = ground arith
parse_code-problem_code (bad_nonce d) h = ground arith
parse_code-problem_code (bad_public_key d) h = ground arith
parse_code-problem_code (bad_revocation_reason d) h = ground arith
parse_code-problem_code (bad_signature_algorithm d) h = ground arith
parse_code-problem_code (caa d) h = ground arith
parse_code-problem_code (compound d) h = ground arith
parse_code-problem_code (connection d) h = ground arith
parse_code-problem_code (dns d) h = ground arith
parse_code-problem_code (external_account_required d) h = ground arith
parse_code-problem_code (incorrect_response d) h = ground arith
parse_code-problem_code (invalid_contact d) h = ground arith
parse_code-problem_code (malformed d) h = ground arith
parse_code-problem_code (order_not_ready d) h = ground arith
parse_code-problem_code (rate_limited d) h = ground arith
parse_code-problem_code (rejected_identifier d) h = ground arith
parse_code-problem_code (server_internal d) h = ground arith
parse_code-problem_code (tls d) h = ground arith
parse_code-problem_code (unauthorized d) h = ground arith
parse_code-problem_code (unsupported_contact d) h = ground arith
parse_code-problem_code (unsupported_identifier d) h = ground arith
parse_code-problem_code (user_action_required d) h = ground arith
parse_code-problem_code (account_does_not_exist d) h = ground arith
parse_code-problem_code (already_revoked d) h = ground arith
parse_code-problem_code (bad_revoked d) h = ground arith
parse_code-problem_code _ h = cc

pub parse_problem_type-prefix : (c d : Text) → parse_problem_type (prefix ++ c) d ≡ parse_code c d
unfolding parse_problem_type
parse_problem_type-prefix c d = ground (arith, strip_prefix-append prefix c)

parse_problem_type_cases :
    (type_uri detail : Text)
    → ((c : Text) × (type_uri ≡ prefix ++ c))
      ⊎ (parse_problem_type type_uri detail ≡ other (type_uri ++ text ": " ++ detail))
unfolding parse_problem_type
parse_problem_type_cases uri d = elim (Option-cases (strip_prefix prefix uri)) [
  | inl none_left ↦ inr (ground arith)
  | inr (code, found) ↦ inl (code, strip_prefix-eq-some prefix uri code found)
]

-- A type URI is either one of the table's, and the variant keeps code and detail, or the error is
-- `other`, whose message keeps the whole URI and the detail.
pub parse_problem_type_total :
    (type_uri detail : Text)
    → ((c : Text) × (type_uri ≡ prefix ++ c)
        × (problem_code (parse_problem_type type_uri detail) ≡ some (c, detail)))
      ⊎ (parse_problem_type type_uri detail ≡ other (type_uri ++ text ": " ++ detail))
parse_problem_type_total uri d = elim (parse_problem_type_cases uri d) [
  | inr unknown ↦ inr unknown
  | inl (c, u) ↦ elim (parse_code_cases c d) [
    | inl known ↦ inl (c, u, rw (u, parse_problem_type-prefix) known)
    | inr kept ↦ inr (rw (u, parse_problem_type-prefix) kept)
  ]
]

-- Parameters after the media type do not matter.
is_problem_type-parameters :
    (parameters : Text)
    → is_problem_type (text "application/problem+json" ++ b';' ∷ parameters) ≡ true
unfolding is_problem_type text ◌is◌ trim
is_problem_type-parameters p = rw (before-append b';' (text "application/problem+json") p refl) refl

-- The `http` error with the status and the first 512 characters of the body, or all of it.
abbrev pub KeepsBody : ℕ → Bytes → AcmeError → Type 0
KeepsBody status body e =
    (part : Text) × (e ≡ http status part) × FirstChars 512 (from_utf8_lossy body) part

http_failure-KeepsBody :
    (status : ℕ) (body : Bytes) → KeepsBody status body (http_failure status body)
unfolding http_failure
http_failure-KeepsBody status body =
    (take_chars 512 (from_utf8_lossy body), refl, take_chars-FirstChars 512 (from_utf8_lossy body))

-- What a response that is no success becomes: if its content type is that of a problem and its body
-- can be read as a problem document, the error of that document; if not, an `http` error with the
-- status and the first 512 characters of the body, or all of it if it has fewer.
pub problem_from_response_total :
    (from_slice : Bytes → Result ProblemDocument Text) (status : ℕ) (content_type : Option Text)
    (body : Bytes)
    → ((doc : ProblemDocument) × (is_problem content_type ≡ true)
        × (from_slice body ≡ ok doc)
        × (problem_from_response from_slice status content_type body ≡ into_acme_error doc))
      ⊎ (((is_problem content_type ≡ false) ⊎ ((e : Text) × (from_slice body ≡ err e)))
          × KeepsBody status body (problem_from_response from_slice status content_type body))
unfolding problem_from_response
problem_from_response_total f status ct body = elim (Bool-cases (is_problem ct)) [
  | inl yes_problem ↦ elim (Result-cases (f body)) [
    | inl (doc, parsed) ↦ inl (doc, yes_problem, parsed, ground arith)
    | inr (e, refused) ↦
        inr (inr (e, refused), rw (yes_problem, refused) (http_failure-KeepsBody status body))
  ]
  | inr no_problem ↦ inr (inl no_problem, rw no_problem (http_failure-KeepsBody status body))
]

-- A short body in UTF-8 that is no problem document is kept whole.
pub problem_from_response-whole :
    (from_slice : Bytes → Result ProblemDocument Text) (status : ℕ) (content_type : Option Text)
    (body : Bytes)
    → is_problem content_type ≡ false
    → from_utf8 body ≡ some body
    → count_chars body ≤ 512
    → problem_from_response from_slice status content_type body ≡ http status body
unfolding problem_from_response http_failure
problem_from_response-whole f status ct body plain valid short =
    rw (plain, from_utf8_lossy-valid body valid, take_chars_all 512 body short) refl
