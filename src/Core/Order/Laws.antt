-- ===== src/Core/Order/Laws.antt =====
-- The ways out of `create` in crates/core/src/order.rs.
use acme_wasm.Prelude.{◌≤◌, ◌<◌, ◌≡◌, sym, ap, ◌∙◌, some, List, text, ok, ok_or}
use acme_wasm.Core.Transport.{HttpResponse, HttpClient, check, header}
use acme_wasm.Core.Transport.Laws.{check_iff}
use acme_wasm.Core.Crates.{Crates, from_json}
use acme_wasm.Core.Records.Order.{Identifier, Order}
use acme_wasm.Core.Program.{State, done, attempt}
use acme_wasm.Core.Program.Laws.{
  continue-eq-done, attempt-eq-done, ok_or-eq-done, done_inj, from_json-eq-ok,
}
use acme_wasm.Core.Account.{Account, post_kid}
use acme_wasm.Core.Order.{create, order_payload}
use acme_wasm.Core.Order.Failures.{no_location}

-- The new order as the server's answer gives it.
pub record Created (c : Crates) {W : Type 0} (account : Account c W) (client : HttpClient W)
    (ids : List Identifier) (s : State W) (order : Order) (t : State W) : Type 0 where
  pub response : HttpResponse
  pub answered :
      post_kid c account account.directory.new_order (c.value_bytes (order_payload ids)) client s
      ≡ done response t
  pub success : (200 ≤ response.status) × (response.status < 300)
  pub located : header response (text "Location") ≡ some order.url
  pub body : Order
  pub reads : c.order_from_slice response.body ≡ ok body
  pub same : order ≡ record body { url = order.url }

module _ (c : Crates) {W : Type 0} (account : Account c W) (client : HttpClient W) where
  -- When `create` returns an order, the server answered the POST to `newOrder` with a success, the
  -- order is the one in the body, and its URL is that of the `Location` header.
  pub create-eq-done :
      (ids : List Identifier) (order : Order) (s t : State W)
      → create c account ids client s ≡ done order t
      → Created c account client ids s order t
  unfolding create
  create-eq-done ids order s t e =
      let (payload, s1, made, e1) =
        continue-eq-done (attempt (from_json (c.to_vec (order_payload ids))) s) _ e in
      let (response, s2, posted, e2) =
        continue-eq-done (post_kid c account account.directory.new_order payload client s1) _ e1 in
      let (url, s3, found, e3) =
        continue-eq-done (attempt (ok_or no_location (header response (text "Location"))) s2) _
          e2 in
      let (good, s4, checked, e4) =
        continue-eq-done (attempt (check c.problem_from_slice response) s3) _ e3 in
      let (body, s5, parsed, e5) =
        continue-eq-done (attempt (from_json (c.order_from_slice good.body)) s4) _ e4 in
      let made' = attempt-eq-done (from_json (c.to_vec (order_payload ids))) made in
      let encoded = from_json-eq-ok (c.to_vec (order_payload ids)) made'.0 in
      let certain = c.to_vec_ok (order_payload ids) in
      let same_payload : c.value_bytes (order_payload ids) ≡ payload = cc in
      let found' = ok_or-eq-done no_location (header response (text "Location")) found in
      let check' = attempt-eq-done (check c.problem_from_slice response) checked in
      let parse' = attempt-eq-done (from_json (c.order_from_slice good.body)) parsed in
      let (low, high, same_response) = (check_iff c.problem_from_slice response good).0 check'.0 in
      let whole = done_inj (record body { url = url }) s5 e5 in
      record {
        response = response;
        answered =
            ap (λ b. post_kid c account account.directory.new_order b client s) same_payload
            ∙ ap (post_kid c account account.directory.new_order payload client) (sym made'.1)
            ∙ posted
            ∙ ap (done response) (sym found'.1 ∙ sym check'.1 ∙ sym parse'.1 ∙ whole.1);
        success = (low, high);
        located = found'.0 ∙ ap (λ o. some o.url) whole.0;
        body = body;
        reads =
            ap (λ r. c.order_from_slice r.body) same_response
            ∙ from_json-eq-ok (c.order_from_slice good.body) parse'.0;
        same = sym whole.0 ∙ ap (λ u. record body { url = u }) (ap (λ o. o.url) whole.0);
      }
