-- ===== src/Core/Error.antt =====
-- crates/core/src/error.rs: the error taxonomy, problem documents, and how a response that is no
-- success becomes an error.
pub mod Laws
pub mod Display
pub mod Documented
mod Tests
use acme_wasm.Prelude.{
  ℕ, Bool, false, Option, none, some, List, ◌++◌, if◌then◌else◌, Bytes, Text, text, ◌is◌,
  strip_prefix, before, trim, from_utf8_lossy, take_chars, Result, ok, err,
}
use acme_wasm.Core.Json.{Value}

-- `Debug` and `Display` texts are built only where the code keeps them in a message.
pub data AcmeError : Type 0 where
  bad_csr : Text → AcmeError
  bad_nonce : Text → AcmeError
  bad_public_key : Text → AcmeError
  bad_revocation_reason : Text → AcmeError
  bad_signature_algorithm : Text → AcmeError
  caa : Text → AcmeError
  compound : Text → AcmeError
  connection : Text → AcmeError
  dns : Text → AcmeError
  external_account_required : Text → AcmeError
  incorrect_response : Text → AcmeError
  invalid_contact : Text → AcmeError
  malformed : Text → AcmeError
  order_not_ready : Text → AcmeError
  rate_limited : Text → AcmeError
  rejected_identifier : Text → AcmeError
  server_internal : Text → AcmeError
  tls : Text → AcmeError
  unauthorized : Text → AcmeError
  unsupported_contact : Text → AcmeError
  unsupported_identifier : Text → AcmeError
  user_action_required : Text → AcmeError
  account_does_not_exist : Text → AcmeError
  already_revoked : Text → AcmeError
  bad_revoked : Text → AcmeError
  transport serialization jose timeout missing_field : Text → AcmeError
  http : (status : ℕ) (body : Text) → AcmeError
  other : Text → AcmeError

pub record ProblemDocument : Type 0 where
  pub type : Text
  pub title : Option Text
  pub status : Option ℕ
  pub detail : Option Text
  pub instance_url : Option Text
  pub subproblems : List Value

-- `Option::unwrap_or`
abbrev unwrap_or : Option Text → Text → Text
unwrap_or none d = d
unwrap_or (some a) d = a

-- `urn:ietf:params:acme:error:`
unfoldable pub prefix : Text
prefix = text "urn:ietf:params:acme:error:"

unfoldable pub parse_code : Text → Text → AcmeError
parse_code code detail =
    if code is text "badCSR"
    then bad_csr detail
    else if code is text "badNonce"
    then bad_nonce detail
    else if code is text "badPublicKey"
    then bad_public_key detail
    else if code is text "badRevocationReason"
    then bad_revocation_reason detail
    else if code is text "badSignatureAlgorithm"
    then bad_signature_algorithm detail
    else if code is text "caa"
    then caa detail
    else if code is text "compound"
    then compound detail
    else if code is text "connection"
    then connection detail
    else if code is text "dns"
    then dns detail
    else if code is text "externalAccountRequired"
    then external_account_required detail
    else if code is text "incorrectResponse"
    then incorrect_response detail
    else if code is text "invalidContact"
    then invalid_contact detail
    else if code is text "malformed"
    then malformed detail
    else if code is text "orderNotReady"
    then order_not_ready detail
    else if code is text "rateLimited"
    then rate_limited detail
    else if code is text "rejectedIdentifier"
    then rejected_identifier detail
    else if code is text "serverInternal"
    then server_internal detail
    else if code is text "tls"
    then tls detail
    else if code is text "unauthorized"
    then unauthorized detail
    else if code is text "unsupportedContact"
    then unsupported_contact detail
    else if code is text "unsupportedIdentifier"
    then unsupported_identifier detail
    else if code is text "userActionRequired"
    then user_action_required detail
    else if code is text "accountDoesNotExist"
    then account_does_not_exist detail
    else if code is text "alreadyRevoked"
    then already_revoked detail
    else if code is text "badRevoked"
    then bad_revoked detail
    else other (prefix ++ code ++ text ": " ++ detail)

unfoldable pub parse_problem_type : Text → Text → AcmeError
parse_problem_type type_uri detail = elim (strip_prefix prefix type_uri) [
  | none ↦ other (type_uri ++ text ": " ++ detail)
  | some code ↦ parse_code code detail
]

unfoldable pub into_acme_error : ProblemDocument → AcmeError
into_acme_error doc =
    parse_problem_type doc.type (unwrap_or doc.detail (unwrap_or doc.title doc.type))

-- `ct.split(';').next().unwrap_or("").trim() == "application/problem+json"`
unfoldable pub is_problem_type : Text → Bool
is_problem_type ct = trim (before b';' ct) is text "application/problem+json"

-- `content_type.map(…).unwrap_or(false)`
unfoldable pub is_problem : Option Text → Bool
is_problem none = false
is_problem (some ct) = is_problem_type ct

unfoldable pub http_failure : ℕ → Bytes → AcmeError
http_failure status body = http status (take_chars 512 (from_utf8_lossy body))

-- `from_slice` is `serde_json::from_slice::<ProblemDocument>`.
unfoldable pub problem_from_response :
    (Bytes → Result ProblemDocument Text) → ℕ → Option Text → Bytes → AcmeError
problem_from_response from_slice status content_type body =
    if is_problem content_type
    then elim (from_slice body) [ ok doc ↦ into_acme_error doc | err _ ↦ http_failure status body ]
    else http_failure status body
