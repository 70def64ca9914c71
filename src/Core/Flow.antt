-- ===== src/Core/Flow.antt =====
-- Invariants of the whole flow of crates/core/src/lib.rs, up to the fuel: what the signed requests,
-- the clock and the solvers keep, the flow keeps.
pub mod Posts
pub mod Nonces
pub mod Issue
mod Tests
use acme_wasm.Prelude.{
  ℕ, zero, suc, ◌+◌, ◌/◌, ◌≡◌, Option, none, some, [], leb, if◌then◌else◌, drop, is_empty, Bytes,
  Text, text, ok,
}
use acme_wasm.Core.Error.{AcmeError, malformed, missing_field}
use acme_wasm.Core.Transport.{HttpClient, check}
use acme_wasm.Core.Clock.{Clock}
use acme_wasm.Core.Crates.{Crates, from_json}
use acme_wasm.Core.Records.Order.{Order, Identifier}
use acme_wasm.Core.Records.Order as Orders
use acme_wasm.Core.Records.Challenge.{Challenge, ChallengeStatus, valid, invalid, status_enum}
use acme_wasm.Core.Records.Authorization as Authz
use acme_wasm.Core.Program.{
  State, Outcome, done, fails, out_of_fuel, Program, throw, attempt, io, ◌>>=◌, ◌>>◌,
}
use acme_wasm.Core.Program.Keeps.{
  Post, Keeps, Calm, Keeps-pure, Keeps-throw, Keeps-attempt, Keeps-io, Keeps-bind, Keeps-if,
}
use acme_wasm.Core.Account.{Account, post_kid}
use acme_wasm.Core.Order
use acme_wasm.Core.Authorization
use acme_wasm.Core.Challenge.{
  ChallengeReady, ChallengeSolver, detail_or, now, sleep, dropped, owning, judge, challenge_timeout,
  poll_loop, poll_challenge_with_interval, poll_challenge,
}
use acme_wasm.Core.Csr.{CertificateKey, build_csr}
use acme_wasm.Core.Certificate
use acme_wasm.Core.Certificate.{
  certified, order_timeout, csr_payload, finalize_with_intervals, finalize_with_deadline, download,
}
use acme_wasm.Core.Requests.{create-Keeps, refresh-Keeps, fetch-Keeps, download-Keeps}

-- Reading the clock, and sleeping, keep `P`.
pub record CalmClock {W : Type 0} (P : State W → Type 0) (clock : Clock W) : Type 0 where
  pub reads : (s : State W) → P s → P (record s { world = (clock.now s.world).1 })
  pub sleeps : (d : ℕ) (s : State W) → P s → P (record s { world = clock.sleep d s.world })

-- So do the self-check of an armed challenge, and its drop.
pub record CalmReady {W : Type 0} (P : State W → Type 0) (ready : ChallengeReady W) : Type 0 where
  pub checks : Calm P ready.self_check
  pub drops : (s : State W) → P s → P (record s { world = ready.drop s.world })

module _ {W : Type 0} {P : State W → Type 0} where
  -- The end of a round of a poll loop.
  tail-Keeps :
      {A : Type 0} (clock : Clock W) (deadline interval : ℕ) (late : AcmeError) (next : Program W A)
      → CalmClock P clock
      → Keeps Unit P next
      → Keeps Unit P (
          now clock >>= λ reading.
          if leb deadline reading then throw late else (sleep clock interval >> next))
  tail-Keeps clock deadline interval late next calm k =
      Keeps-bind (now clock) _ (record { at = calm.reads })
        λ reading.
          Keeps-if (leb deadline reading) _ _ (Keeps-throw late)
            (Keeps-bind (sleep clock interval) _ (record { at = calm.sleeps interval }) λ _. k)

  owning-Keeps :
      (ready : ChallengeReady W) (body : Program W Unit)
      → CalmReady P ready
      → Keeps Unit P body
      → Keeps Unit P (owning ready body)
  unfolding owning dropped
  owning-Keeps ready body calm k = record { at = λ s h. on_run (body s) (k.at s h) }
    where
      on_run : (run : Outcome (State W) Unit) → Post Unit P run → Post Unit P (dropped ready run)
      on_run (done a s) h = calm.drops s h
      on_run (fails e s) h = calm.drops s h
      on_run out_of_fuel h = h

module _ (c : Crates) {W : Type 0} {P : State W → Type 0} (clock : Clock W)
    (calm : CalmClock P clock) (client : HttpClient W) (account : Account c W)
    (posts : (url : Text) (payload : Bytes)
      → Keeps Unit P (post_kid c account url payload client)) where
  judge-Keeps :
      (challenge : Challenge) (status : ChallengeStatus) (later : Program W Unit)
      → Keeps Unit P later
      → Keeps Unit P (judge c clock challenge status later)
  unfolding judge
  judge-Keeps challenge valid later k = Keeps-pure tt
  judge-Keeps challenge invalid later k =
      Keeps-throw (malformed (detail_or c.to_vec (text "challenge invalid") challenge.error))
  judge-Keeps challenge _ later k = k

  poll_loop-Keeps :
      (fuel : ℕ) (url : Text) (timeout_ms poll_interval deadline : ℕ)
      → Keeps Unit P (poll_loop c clock fuel url account client timeout_ms poll_interval deadline)
  unfolding poll_loop
  poll_loop-Keeps zero url timeout_ms poll_interval deadline = record { at = λ s h. tt }
  poll_loop-Keeps (suc fuel) url timeout_ms poll_interval deadline =
      Keeps-bind (post_kid c account url [] client) _ (posts url []) λ response.
        Keeps-bind (attempt (check c.problem_from_slice response)) _
          (Keeps-attempt (check c.problem_from_slice response))
          λ good.
            Keeps-bind (attempt (from_json (c.challenge_from_slice good.body))) _
              (Keeps-attempt (from_json (c.challenge_from_slice good.body)))
              λ challenge. judge-Keeps challenge (status_enum challenge) _ (
                tail-Keeps clock deadline poll_interval
                  (challenge_timeout c clock url challenge.status timeout_ms) _ calm
                  (poll_loop-Keeps fuel url timeout_ms poll_interval deadline))

  pub poll_challenge-Keeps :
      (fuel : ℕ) (url : Text) (ready : ChallengeReady W) (timeout_ms : ℕ)
      → CalmReady P ready
      → Keeps Unit P (poll_challenge c clock fuel url account client ready timeout_ms)
  unfolding poll_challenge poll_challenge_with_interval
  poll_challenge-Keeps fuel url ready timeout_ms calm_ready = owning-Keeps ready _ calm_ready (
      Keeps-bind (io ready.self_check) _ (Keeps-io ready.self_check calm_ready.checks) λ _.
        Keeps-bind (post_kid c account url (text "{}") client) _ (posts url (text "{}")) λ response.
          Keeps-bind (attempt (check c.problem_from_slice response)) _
            (Keeps-attempt (check c.problem_from_slice response))
            λ _.
              Keeps-bind (now clock) _ (record { at = calm.reads })
                λ start. poll_loop-Keeps fuel url timeout_ms 2000 (start + timeout_ms))

  certified-Keeps : (order : Order) (url : Option Text) → Keeps Unit P (certified c clock order url)
  unfolding certified
  certified-Keeps order none = Keeps-throw (missing_field (text "order.certificate on valid order"))
  certified-Keeps order (some url) = Keeps-pure order

  order_judge-Keeps :
      (order : Order) (status : Orders.OrderStatus) (later : Program W Order)
      → Keeps Unit P later
      → Keeps Unit P (Certificate.judge c clock order status later)
  unfolding Certificate.judge
  order_judge-Keeps order Orders.valid later k = certified-Keeps order order.certificate
  order_judge-Keeps order Orders.invalid later k =
      Keeps-throw (malformed (detail_or c.to_vec (text "order invalid") order.error))
  order_judge-Keeps order _ later k = k

  order_loop-Keeps :
      (fuel : ℕ) (url : Text) (timeout_ms poll_interval deadline : ℕ)
      → Keeps Unit P
          (Certificate.poll_loop c clock fuel url account client timeout_ms poll_interval deadline)
  unfolding Certificate.poll_loop
  order_loop-Keeps zero url timeout_ms poll_interval deadline = record { at = λ s h. tt }
  order_loop-Keeps (suc fuel) url timeout_ms poll_interval deadline =
      Keeps-bind (Order.refresh c account url client) _ (refresh-Keeps c client account posts url)
        λ order. order_judge-Keeps order (Orders.status_enum order) _ (
          tail-Keeps clock deadline poll_interval
            (order_timeout c clock url order.status timeout_ms) _ calm
            (order_loop-Keeps fuel url timeout_ms poll_interval deadline))

  pub finalize-Keeps :
      (fuel : ℕ) (order : Order) (key : CertificateKey c) (timeout_ms : ℕ)
      → Keeps Unit P (finalize_with_deadline c clock fuel order key account client timeout_ms)
  unfolding finalize_with_deadline finalize_with_intervals
  finalize-Keeps fuel order key timeout_ms =
      Keeps-if (is_empty order.url) _ _
        (Keeps-throw (missing_field (text "order.url populated by order::create / refresh")))
        (Keeps-bind (attempt (build_csr c key order.identifiers)) _
          (Keeps-attempt (build_csr c key order.identifiers))
          λ csr.
            Keeps-bind (attempt (from_json (c.to_vec (csr_payload (c.b64url csr))))) _
              (Keeps-attempt (from_json (c.to_vec (csr_payload (c.b64url csr)))))
              λ payload.
                Keeps-bind (post_kid c account order.finalize payload client) _
                  (posts order.finalize payload)
                  λ response.
                    Keeps-bind (attempt (check c.problem_from_slice response)) _
                      (Keeps-attempt (check c.problem_from_slice response))
                      λ _.
                        Keeps-bind (now clock) _ (record { at = calm.reads })
                          λ start.
                            order_loop-Keeps fuel order.url timeout_ms 2000 (start + timeout_ms))
