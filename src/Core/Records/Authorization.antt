-- ===== src/Core/Records/Authorization.antt =====
-- The data of crates/core/src/authorization.rs.
use acme_wasm.Prelude.{Bool, Option, List, if◌then◌else◌, Text, text, ◌is◌}
use acme_wasm.Core.Records.Order.{Identifier}
use acme_wasm.Core.Records.Challenge.{Challenge}

pub data AuthorizationStatus : Type 0 where
  pending valid invalid deactivated expired revoked unknown : AuthorizationStatus

unfoldable pub from_wire : Text → AuthorizationStatus
from_wire s =
    if s is text "pending"
    then pending
    else if s is text "valid"
    then valid
    else if s is text "invalid"
    then invalid
    else if s is text "deactivated"
    then deactivated
    else if s is text "expired"
    then expired
    else if s is text "revoked"
    then revoked
    else unknown

pub record Authorization : Type 0 where
  pub identifier : Identifier
  pub status : Text
  pub expires : Option Text
  pub challenges : List Challenge
  pub wildcard : Bool

unfoldable pub status_enum : Authorization → AuthorizationStatus
unfolding from_wire
status_enum authz = from_wire authz.status
