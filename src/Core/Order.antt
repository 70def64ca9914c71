-- ===== src/Core/Order.antt =====
-- crates/core/src/order.rs: creating an order and reading it again.
pub mod Laws
pub mod Failures
mod Tests
use acme_wasm.Prelude.{List, [], ◌∷◌, Text, text, ok_or}
use acme_wasm.Core.Json.{Value, string, array, object, Values, nil, cons, end, member}
use acme_wasm.Core.Error.{missing_field}
use acme_wasm.Core.Transport.{header, HttpClient, check}
use acme_wasm.Core.Records.Order.{Identifier, Order}
use acme_wasm.Core.Crates.{Crates, from_json}
use acme_wasm.Core.Program.{Program, pure, attempt, ◌>>=◌}
use acme_wasm.Core.Account.{Account, post_kid}

-- identifiers under `json!`
unfoldable pub identifier_values : List Identifier → Values
identifier_values [] = nil
identifier_values (id ∷ ids) =
    cons
      (object (member (text "type") (string id.kind) (member (text "value") (string id.value) end)))
      (identifier_values ids)

unfoldable pub order_payload : List Identifier → Value
unfolding identifier_values
order_payload identifiers =
    object (member (text "identifiers") (array (identifier_values identifiers)) end)

module _ (c : Crates) {W : Type 0} where
  unfoldable pub create : Account c W → List Identifier → HttpClient W → Program W Order
  create account identifiers client = do
    payload_bytes ← attempt (from_json (c.to_vec (order_payload identifiers)))
    response ← post_kid c account account.directory.new_order payload_bytes client
    url ← attempt (
        ok_or (missing_field (text "Location on newOrder response"))
          (header response (text "Location")))
    response ← attempt (check c.problem_from_slice response)
    order ← attempt (from_json (c.order_from_slice response.body))
    pure (record order { url = url })

  unfoldable pub refresh : Account c W → Text → HttpClient W → Program W Order
  refresh account order_url client = do
    response ← post_kid c account order_url [] client
    response ← attempt (check c.problem_from_slice response)
    order ← attempt (from_json (c.order_from_slice response.body))
    pure (record order { url = order_url })
