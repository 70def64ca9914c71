-- ===== src/Core/Records/Order.antt =====
-- The data of crates/core/src/order.rs: identifiers, orders and their status.
use acme_wasm.Prelude.{Option, List, if◌then◌else◌, Text, text, ◌is◌}
use acme_wasm.Core.Json.{Value}

pub record Identifier : Type 0 where
  pub kind : Text
  pub value : Text

-- `Identifier::dns`
unfoldable pub dns : Text → Identifier
dns name = record { kind = text "dns"; value = name }

pub data OrderStatus : Type 0 where
  pending ready processing valid invalid unknown : OrderStatus

unfoldable pub from_wire : Text → OrderStatus
from_wire s =
    if s is text "pending"
    then pending
    else if s is text "ready"
    then ready
    else if s is text "processing"
    then processing
    else if s is text "valid"
    then valid
    else if s is text "invalid"
    then invalid
    else unknown

-- `url` is no part of the body: it is filled in from a header or by the caller.
pub record Order : Type 0 where
  pub status : Text
  pub expires : Option Text
  pub identifiers : List Identifier
  pub not_before : Option Text
  pub not_after : Option Text
  pub error : Option Value
  pub authorizations : List Text
  pub finalize : Text
  pub certificate : Option Text
  pub url : Text

unfoldable pub status_enum : Order → OrderStatus
unfolding from_wire
status_enum order = from_wire order.status
