-- ===== src/Core/Polling/Order.antt =====
-- The end of the loop of crates/core/src/certificate.rs.
use acme_wasm.Prelude.{ℕ, zero, suc, ◌+◌, ◌≤◌, ◌<◌, Option, none, some, arith, is_empty, Text, text}
use acme_wasm.Core.Error.{malformed, missing_field}
use acme_wasm.Core.Transport.{HttpClient, check}
use acme_wasm.Core.Clock.{Clock}
use acme_wasm.Core.Crates.{Crates, from_json}
use acme_wasm.Core.Records.Order.{Order, OrderStatus, status_enum, valid, invalid}
use acme_wasm.Core.Order.{refresh}
use acme_wasm.Core.Challenge.{detail_or}
use acme_wasm.Core.Csr.{CertificateKey, build_csr}
use acme_wasm.Core.Certificate.{
  poll_loop, order_timeout, judge, certified, csr_payload, finalize_with_intervals,
}
use acme_wasm.Core.Program.{State, Program, attempt}
use acme_wasm.Core.Program.Keeps.{
  Post, Keeps, Keeps-pure, Keeps-throw, Keeps-attempt, Keeps-bind, Keeps-if,
}
use acme_wasm.Core.Nonce.Keeps.{OfWorld}
use acme_wasm.Core.Account.{Account, post_kid}
use acme_wasm.Core.Requests.{refresh-Keeps}
use acme_wasm.Core.Polling.{Ticks, OnwardClient, Since, Post-earlier, post_kid-Keeps, round_end}

module _ (c : Crates) {W : Type 0} (time : W → ℕ) (clock : Clock W) (ticks : Ticks time clock)
    (client : HttpClient W) (onward : OnwardClient time client) (account : Account c W)
    (store_onward : OnwardClient time account.nonce.transport) where
  certified-Keeps :
      (P : State W → Type 0) (order : Order) (url : Option Text)
      → Keeps ⊥ P (certified c clock order url)
  unfolding certified
  certified-Keeps P order none =
      Keeps-throw (missing_field (text "order.certificate on valid order"))
  certified-Keeps P order (some url) = Keeps-pure order

  judge-Keeps :
      (P : State W → Type 0) (order : Order) (status : OrderStatus) (later : Program W Order)
      → Keeps ⊥ P later
      → Keeps ⊥ P (judge c clock order status later)
  unfolding judge
  judge-Keeps P order valid later k = certified-Keeps P order order.certificate
  judge-Keeps P order invalid later k =
      Keeps-throw (malformed (detail_or c.to_vec (text "order invalid") order.error))
  judge-Keeps P order _ later k = k

  round-Keeps :
      (fuel t : ℕ) (url : Text) (timeout_ms poll_interval deadline : ℕ)
      → 1 ≤ poll_interval
      → (t < deadline
          → Keeps ⊥
              (OfWorld (Since time (t + 1)))
              (poll_loop c clock fuel url account client timeout_ms poll_interval deadline))
      → Keeps ⊥
          (OfWorld (Since time t))
          (poll_loop c clock (suc fuel) url account client timeout_ms poll_interval deadline)
  unfolding poll_loop
  round-Keeps fuel t url timeout_ms poll_interval deadline pos next =
      Keeps-bind (refresh c account url client) _
        (refresh-Keeps c client account (post_kid-Keeps c time client onward account store_onward t)
          url)
        λ order. judge-Keeps (OfWorld (Since time t)) order (status_enum order) _ (
          round_end time clock ticks t deadline poll_interval
            (order_timeout c clock url order.status timeout_ms)
            (poll_loop c clock fuel url account client timeout_ms poll_interval deadline) pos next)

  pub poll_loop-Keeps :
      (fuel t : ℕ) (url : Text) (timeout_ms poll_interval deadline : ℕ)
      → 1 ≤ poll_interval
      → deadline ≤ t + fuel
      → Keeps ⊥
          (OfWorld (Since time t))
          (poll_loop c clock (suc fuel) url account client timeout_ms poll_interval deadline)
  unfolding poll_loop
  poll_loop-Keeps zero t url timeout_ms poll_interval deadline pos enough =
      round-Keeps zero t url timeout_ms poll_interval deadline pos λ early. omega arith
  poll_loop-Keeps (suc f) t url timeout_ms poll_interval deadline pos enough =
      round-Keeps (suc f) t url timeout_ms poll_interval deadline pos
        λ _. poll_loop-Keeps f (t + 1) url timeout_ms poll_interval deadline pos (omega arith)

  start_loop :
      (fuel t start : ℕ) (url : Text) (timeout_ms poll_interval : ℕ) (s : State W)
      → 1 ≤ poll_interval
      → timeout_ms < fuel
      → start ≤ time s.world
      → t ≤ start
      → Post ⊥ (OfWorld (Since time t)) (
          poll_loop c clock fuel url account client timeout_ms poll_interval (start + timeout_ms) s)
  unfolding poll_loop
  start_loop zero t start url timeout_ms poll_interval s pos enough h g = omega arith
  start_loop (suc f) t start url timeout_ms poll_interval s pos enough h g =
      Post-earlier time t start
        (poll_loop c clock (suc f) url account client timeout_ms poll_interval (start + timeout_ms)
          s)
        g
        ((poll_loop-Keeps f start url timeout_ms poll_interval (start + timeout_ms) pos
            (omega arith)).at
          s h)

  pub finalize-Keeps :
      (fuel t : ℕ) (order : Order) (key : CertificateKey c) (timeout_ms poll_interval : ℕ)
      → 1 ≤ poll_interval
      → timeout_ms < fuel
      → Keeps ⊥
          (OfWorld (Since time t))
          (finalize_with_intervals c clock fuel order key account client timeout_ms poll_interval)
  unfolding finalize_with_intervals
  finalize-Keeps fuel t order key timeout_ms poll_interval pos enough =
      Keeps-if (is_empty order.url) _ _
        (Keeps-throw (missing_field (text "order.url populated by order::create / refresh")))
        (Keeps-bind (attempt (build_csr c key order.identifiers)) _
          (Keeps-attempt (build_csr c key order.identifiers))
          λ csr.
            Keeps-bind (attempt (from_json (c.to_vec (csr_payload (c.b64url csr))))) _
              (Keeps-attempt (from_json (c.to_vec (csr_payload (c.b64url csr)))))
              λ payload.
                Keeps-bind (post_kid c account order.finalize payload client) _
                  (post_kid-Keeps c time client onward account store_onward t order.finalize
                    payload)
                  λ response.
                    Keeps-bind (attempt (check c.problem_from_slice response)) _
                      (Keeps-attempt (check c.problem_from_slice response))
                      λ _. record {
                        at = λ s h.
                            start_loop fuel t (clock.now s.world).0 order.url timeout_ms
                              poll_interval (record s { world = (clock.now s.world).1 }) pos enough
                              (ticks.goes_on s.world) (omega (arith, ticks.reads s.world));
                      })
