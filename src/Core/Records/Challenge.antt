-- ===== src/Core/Records/Challenge.antt =====
-- The data of crates/core/src/challenge.rs: challenges, their kind and their status.
use acme_wasm.Prelude.{
  ◌≡◌, ◌↔◌, Bool, true, false, Option, arith, if◌then◌else◌, Text, text, ◌is◌, is_iff,
}
use acme_wasm.Core.Json.{Value}

pub data ChallengeStatus : Type 0 where
  pending processing valid invalid unknown : ChallengeStatus

unfoldable pub from_wire : Text → ChallengeStatus
from_wire s =
    if s is text "pending"
    then pending
    else if s is text "processing"
    then processing
    else if s is text "valid"
    then valid
    else if s is text "invalid"
    then invalid
    else unknown

pub data ChallengeKind : Type 0 where
  http01 dns01 tls_alpn01 : ChallengeKind
  other : Text → ChallengeKind

unfoldable pub from_type : Text → ChallengeKind
from_type s =
    if s is text "http-01"
    then http01
    else if s is text "dns-01"
    then dns01
    else if s is text "tls-alpn-01"
    then tls_alpn01
    else other s

unfoldable pub as_str : ChallengeKind → Text
as_str http01 = text "http-01"
as_str dns01 = text "dns-01"
as_str tls_alpn01 = text "tls-alpn-01"
as_str (other s) = s

-- the derived `==`
unfoldable pub same_kind : ChallengeKind → ChallengeKind → Bool
same_kind http01 http01 = true
same_kind dns01 dns01 = true
same_kind tls_alpn01 tls_alpn01 = true
same_kind (other s) (other t) = s is t
same_kind _ _ = false

pub record Challenge : Type 0 where
  pub type : Text
  pub url : Text
  pub status : Text
  pub validated : Option Text
  pub token : Option Text
  pub error : Option Value

unfoldable pub status_enum : Challenge → ChallengeStatus
unfolding from_wire
status_enum challenge = from_wire challenge.status

unfoldable pub kind : Challenge → ChallengeKind
unfolding from_type
kind challenge = from_type challenge.type

-- Classifying a type loses nothing: the text is read back, also of an unknown type.
pub as_str-from_type : (s : Text) → as_str (from_type s) ≡ s
unfolding as_str from_type
as_str-from_type s =
    ground
      (arith, is_iff s (text "http-01"), is_iff s (text "dns-01"), is_iff s (text "tls-alpn-01"))

pub same_kind_iff : (a b : ChallengeKind) → (same_kind a b ≡ true) ↔ (a ≡ b)
unfolding same_kind
same_kind_iff http01 b = ground arith
same_kind_iff dns01 b = ground arith
same_kind_iff tls_alpn01 b = ground arith
same_kind_iff (other s) (other t) = ground (arith, is_iff s t)
same_kind_iff (other s) _ = ground arith
