-- ===== src/Core/Order/Failures.antt =====
-- Why `create` in crates/core/src/order.rs fails.
use mathlib.Core.Path
use acme_wasm.Prelude.{
  ◌≤◌, ◌<◌, ◌≡◌, refl, sym, ap, ◌∙◌, ◌↔◌, ◌⊎◌, inl, inr, none, some, Option, List, Text, Bytes,
  text, arith, Result, ok, err, ok_or,
}
use acme_wasm.Core.Error.{
  AcmeError, ProblemDocument, missing_field, serialization, problem_from_response,
}
use acme_wasm.Core.Transport.{HttpResponse, HttpClient, check, header, into_error}
use acme_wasm.Core.Crates.{Crates, from_json}
use acme_wasm.Core.Records.Order.{Identifier, Order}
use acme_wasm.Core.Program.{Program, State, done, fails, attempt, pure, ◌>>=◌}
use acme_wasm.Core.Program.Laws.{
  continue-eq-fails, attempt-eq-fails, ok_or-eq-done, attempt-eq-done,
}
use acme_wasm.Core.Account.{Account, post_kid}
use acme_wasm.Core.Order.{create, order_payload}

abbrev pub no_location : AcmeError
no_location = missing_field (text "Location on newOrder response")

-- What is wrong with the server's answer to the POST, in the order of the checks: no `Location`, then
-- a status outside 2xx, then a body that is no order.
pub data Rejected (c : Crates) (response : HttpResponse) : AcmeError → Type 0 where
  unlocated : header response (text "Location") ≡ none → Rejected c response no_location
  refused :
      (url : Text)
      → header response (text "Location") ≡ some url
      → (response.status < 200) ⊎ (300 ≤ response.status)
      → Rejected c response (
          problem_from_response c.problem_from_slice response.status
            (header response (text "Content-Type"))
            response.body)
  unreadable :
      (url message : Text)
      → header response (text "Location") ≡ some url
      → (200 ≤ response.status) × (response.status < 300)
      → c.order_from_slice response.body ≡ err message
      → Rejected c response (serialization message)

check-eq-err :
    (from_slice : Bytes → Result ProblemDocument Text) (r : HttpResponse) (e : AcmeError)
    → check from_slice r ≡ err e
    → ((r.status < 200) ⊎ (300 ≤ r.status))
      × (problem_from_response from_slice r.status (header r (text "Content-Type")) r.body ≡ e)
unfolding check into_error
check-eq-err f r e h = ground arith

check-eq-ok :
    (from_slice : Bytes → Result ProblemDocument Text) (r good : HttpResponse)
    → check from_slice r ≡ ok good
    → ((200 ≤ r.status) × (r.status < 300)) × (good ≡ r)
unfolding check
check-eq-ok f r good h = ground arith

check-outside :
    (from_slice : Bytes → Result ProblemDocument Text) (r : HttpResponse)
    → (r.status < 200) ⊎ (300 ≤ r.status)
    → check from_slice r
      ≡ err (problem_from_response from_slice r.status (header r (text "Content-Type")) r.body)
unfolding check into_error
check-outside f r outside = ground arith

check-inside :
    (from_slice : Bytes → Result ProblemDocument Text) (r : HttpResponse)
    → (200 ≤ r.status) × (r.status < 300)
    → check from_slice r ≡ ok r
unfolding check
check-inside f r inside = ground arith

from_json-eq-err :
    {A : Type 0} (r : Result A Text) (e : AcmeError)
    → from_json r ≡ err e
    → (message : Text) × (r ≡ err message) × (serialization message ≡ e)
from_json-eq-err (ok a) e h = absurd cc
from_json-eq-err (err message) e h = (message, refl, cc)

ok_or-eq-fails :
    {A : Type 0} (x : AcmeError) (o : Option A) (e : AcmeError)
    → ok_or x o ≡ err e
    → (o ≡ none) × (x ≡ e)
ok_or-eq-fails x none e h = (refl, cc)
ok_or-eq-fails x (some a) e h = absurd cc

module _ (c : Crates) {W : Type 0} where
  -- What `create` does with the answer.
  abbrev with_url : Text → HttpResponse → Program W Order
  with_url url response = attempt (from_json (c.order_from_slice response.body)) >>= λ order.
      pure (record order { url = url })

  abbrev with_response : HttpResponse → Program W Order
  with_response response =
      attempt (ok_or no_location (header response (text "Location"))) >>= λ url.
      attempt (check c.problem_from_slice response) >>= with_url url

  with_url-eq-fails :
      (url : Text) (response : HttpResponse) (s t : State W) (e : AcmeError)
      → with_url url response s ≡ fails e t
      → (message : Text) × (c.order_from_slice response.body ≡ err message)
        × (serialization message ≡ e)
        × (t ≡ s)
  with_url-eq-fails url response s t e h =
      elim (continue-eq-fails (attempt (from_json (c.order_from_slice response.body)) s)
        (λ order. pure (record order { url = url })) h) [
          | inl failed ↦
              let (unread, same) =
                attempt-eq-fails (from_json (c.order_from_slice response.body)) failed in
              let (message, read, e') =
                from_json-eq-err (c.order_from_slice response.body) e unread in
              (message, read, e', same)
          | inr (order, u, _, pure_fails) ↦ absurd cc
        ]

  checked-Rejected :
      (response : HttpResponse) (url : Text) (s t : State W) (e : AcmeError)
      → header response (text "Location") ≡ some url
      → (attempt (check c.problem_from_slice response) >>= with_url url) s ≡ fails e t
      → Rejected c response e × (t ≡ s)
  checked-Rejected response url s t e located h =
      elim (continue-eq-fails (attempt (check c.problem_from_slice response) s) (with_url url) h) [
        | inl failed ↦
            let (bad, same) = attempt-eq-fails (check c.problem_from_slice response) failed in
            let (outside, e') = check-eq-err c.problem_from_slice response e bad in
            (Path.subst (Rejected c response) e' (refused url located outside), same)
        | inr (good, u, passed, rest) ↦
            let (checked, same_state) =
              attempt-eq-done (check c.problem_from_slice response) passed in
            let (inside, same) = check-eq-ok c.problem_from_slice response good checked in
            let (message, read, e', last) = with_url-eq-fails url good u t e rest in
            (
              Path.subst (Rejected c response) e' (
                  unreadable url message located inside
                    (ap (λ r. c.order_from_slice r.body) (sym same) ∙ read)),
              last ∙ same_state,
            )
      ]

  with_response-Rejected :
      (response : HttpResponse) (s t : State W) (e : AcmeError)
      → with_response response s ≡ fails e t
      → Rejected c response e × (t ≡ s)
  with_response-Rejected response s t e h =
      let at : Option Text = header response (text "Location") in
      elim (continue-eq-fails (attempt (ok_or no_location (header response (text "Location"))) s)
        (λ url. attempt (check c.problem_from_slice response) >>= with_url url) h) [
          | inl failed ↦
              let (missing, same) =
                attempt-eq-fails (ok_or no_location (header response (text "Location"))) failed in
              let (none_there, e') =
                ok_or-eq-fails no_location (header response (text "Location")) e missing in
              (Path.subst (Rejected c response) e' (unlocated none_there), same)
          | inr (url, u, found, rest) ↦
              let (located, same) =
                ok_or-eq-done no_location (header response (text "Location")) found in
              let (why, last) = checked-Rejected response url u t e located rest in
              (why, last ∙ same)
        ]

  Rejected-with_response :
      (response : HttpResponse) (s : State W) (e : AcmeError)
      → Rejected c response e
      → with_response response s ≡ fails e s
  Rejected-with_response response s _ (unlocated e) = rw e refl
  Rejected-with_response response s _ (refused url e outside) =
      rw (e, check-outside c.problem_from_slice response outside) refl
  Rejected-with_response response s _ (unreadable url message e inside r) =
      rw (e, check-inside c.problem_from_slice response inside, r) refl

  module _ (account : Account c W) (client : HttpClient W) where
    -- `create` fails exactly in one of four ways: the signed POST to `newOrder` fails, and the error is
    -- its error; or the server answered it, and then the first of these decides: no `Location` header,
    -- whatever the status, which is reported as missing; a status outside 2xx, with the error that the
    -- response becomes; a body that is no order, which is a serialization error.
    pub create-eq-fails_iff :
        (ids : List Identifier) (s t : State W) (e : AcmeError)
        → (create c account ids client s ≡ fails e t) ↔ (
            (post_kid c account account.directory.new_order
                (c.value_bytes (order_payload ids))
                client
                s
              ≡ fails e t)
            ⊎ ((response : HttpResponse) × (post_kid c account account.directory.new_order
                    (c.value_bytes (order_payload ids))
                    client
                    s
                  ≡ done response t)
                × Rejected c response e))
    unfolding create
    create-eq-fails_iff ids s t e = (
      λ h.
          elim (continue-eq-fails
            (post_kid c account account.directory.new_order (c.value_bytes (order_payload ids))
              client s)
            with_response
            (sym (
                ap
                  (λ r.
                    (attempt (from_json r) >>= λ b.
                    post_kid c account account.directory.new_order b client >>= with_response)
                      s)
                  (c.to_vec_ok (order_payload ids)))
              ∙ h)) [
                | inl failed ↦ inl failed
                | inr (response, u, posted, rest) ↦
                    let (why, same) = with_response-Rejected response u t e rest in
                    inr (response, posted ∙ ap (done response) (sym same), why)
              ],
      λ why. elim why [
        | inl failed ↦ rw (c.to_vec_ok (order_payload ids), failed) refl
        | inr (response, posted, why) ↦
            rw (c.to_vec_ok (order_payload ids), posted) (Rejected-with_response response t e why)
      ],
    )
