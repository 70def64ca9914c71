-- ===== src/Core/Polling/Challenge.antt =====
-- The end of the loop of crates/core/src/challenge.rs.
use acme_wasm.Prelude.{ℕ, zero, suc, ◌+◌, ◌≤◌, ◌<◌, [], arith, Text, text}
use acme_wasm.Core.Error.{malformed}
use acme_wasm.Core.Transport.{HttpClient, check}
use acme_wasm.Core.Clock.{Clock}
use acme_wasm.Core.Crates.{Crates, from_json}
use acme_wasm.Core.Records.Challenge.{Challenge, ChallengeStatus, status_enum, valid, invalid}
use acme_wasm.Core.Challenge.{
  ChallengeReady, detail_or, dropped, owning, judge, challenge_timeout, poll_loop,
  poll_challenge_with_interval,
}
use acme_wasm.Core.Program.{State, Outcome, done, fails, out_of_fuel, Program, attempt, io}
use acme_wasm.Core.Program.Keeps.{Post, Keeps, Keeps-pure, Keeps-throw, Keeps-attempt, Keeps-bind}
use acme_wasm.Core.Nonce.Keeps.{OfWorld, Keeps-Quiet}
use acme_wasm.Core.Account.{Account, post_kid}
use acme_wasm.Core.Polling.{
  Ticks, OnwardClient, OnwardReady, Since, Onward-Quiet, Post-earlier, post_kid-Keeps, round_end,
}

module _ (c : Crates) {W : Type 0} (time : W → ℕ) (clock : Clock W) (ticks : Ticks time clock)
    (client : HttpClient W) (onward : OnwardClient time client) (account : Account c W)
    (store_onward : OnwardClient time account.nonce.transport) where
  judge-Keeps :
      (P : State W → Type 0) (challenge : Challenge) (status : ChallengeStatus)
      (later : Program W Unit)
      → Keeps ⊥ P later
      → Keeps ⊥ P (judge c clock challenge status later)
  unfolding judge
  judge-Keeps P challenge valid later k = Keeps-pure tt
  judge-Keeps P challenge invalid later k =
      Keeps-throw (malformed (detail_or c.to_vec (text "challenge invalid") challenge.error))
  judge-Keeps P challenge _ later k = k

  round-Keeps :
      (fuel t : ℕ) (url : Text) (timeout_ms poll_interval deadline : ℕ)
      → 1 ≤ poll_interval
      → (t < deadline
          → Keeps ⊥
              (OfWorld (Since time (t + 1)))
              (poll_loop c clock fuel url account client timeout_ms poll_interval deadline))
      → Keeps ⊥
          (OfWorld (Since time t))
          (poll_loop c clock (suc fuel) url account client timeout_ms poll_interval deadline)
  unfolding poll_loop
  round-Keeps fuel t url timeout_ms poll_interval deadline pos next =
      Keeps-bind (post_kid c account url [] client) _
        (post_kid-Keeps c time client onward account store_onward t url [])
        λ response.
          Keeps-bind (attempt (check c.problem_from_slice response)) _
            (Keeps-attempt (check c.problem_from_slice response))
            λ good.
              Keeps-bind (attempt (from_json (c.challenge_from_slice good.body))) _
                (Keeps-attempt (from_json (c.challenge_from_slice good.body)))
                λ challenge.
                  judge-Keeps (OfWorld (Since time t)) challenge (status_enum challenge) _ (
                    round_end time clock ticks t deadline poll_interval
                      (challenge_timeout c clock url challenge.status timeout_ms)
                      (poll_loop c clock fuel url account client timeout_ms poll_interval deadline)
                      pos next)

  pub poll_loop-Keeps :
      (fuel t : ℕ) (url : Text) (timeout_ms poll_interval deadline : ℕ)
      → 1 ≤ poll_interval
      → deadline ≤ t + fuel
      → Keeps ⊥
          (OfWorld (Since time t))
          (poll_loop c clock (suc fuel) url account client timeout_ms poll_interval deadline)
  unfolding poll_loop
  poll_loop-Keeps zero t url timeout_ms poll_interval deadline pos enough =
      round-Keeps zero t url timeout_ms poll_interval deadline pos λ early. omega arith
  poll_loop-Keeps (suc f) t url timeout_ms poll_interval deadline pos enough =
      round-Keeps (suc f) t url timeout_ms poll_interval deadline pos
        λ _. poll_loop-Keeps f (t + 1) url timeout_ms poll_interval deadline pos (omega arith)

  start_loop :
      (fuel t start : ℕ) (url : Text) (timeout_ms poll_interval : ℕ) (s : State W)
      → 1 ≤ poll_interval
      → timeout_ms < fuel
      → start ≤ time s.world
      → t ≤ start
      → Post ⊥ (OfWorld (Since time t)) (
          poll_loop c clock fuel url account client timeout_ms poll_interval (start + timeout_ms) s)
  unfolding poll_loop
  start_loop zero t start url timeout_ms poll_interval s pos enough h g = omega arith
  start_loop (suc f) t start url timeout_ms poll_interval s pos enough h g =
      Post-earlier time t start
        (poll_loop c clock (suc f) url account client timeout_ms poll_interval (start + timeout_ms)
          s)
        g
        ((poll_loop-Keeps f start url timeout_ms poll_interval (start + timeout_ms) pos
            (omega arith)).at
          s h)

  owning-Keeps :
      (t : ℕ) (ready : ChallengeReady W) (body : Program W Unit)
      → OnwardReady time ready
      → Keeps ⊥ (OfWorld (Since time t)) body
      → Keeps ⊥ (OfWorld (Since time t)) (owning ready body)
  unfolding owning dropped
  owning-Keeps t ready body o k = record { at = λ s h. on_run (body s) (k.at s h) }
    where
      on_run :
          (run : Outcome (State W) Unit)
          → Post ⊥ (OfWorld (Since time t)) run
          → Post ⊥ (OfWorld (Since time t)) (dropped ready run)
      on_run (done a s) h = omega (arith, o.drops s.world)
      on_run (fails e s) h = omega (arith, o.drops s.world)
      on_run out_of_fuel h = h

  pub poll-Keeps :
      (fuel t : ℕ) (url : Text) (ready : ChallengeReady W) (timeout_ms poll_interval : ℕ)
      → OnwardReady time ready
      → 1 ≤ poll_interval
      → timeout_ms < fuel
      → Keeps ⊥ (OfWorld (Since time t)) (
          poll_challenge_with_interval c clock fuel url account client ready timeout_ms
            poll_interval)
  unfolding poll_challenge_with_interval
  poll-Keeps fuel t url ready timeout_ms poll_interval o pos enough = owning-Keeps t ready _ o (
      Keeps-bind (io ready.self_check) _
        (Keeps-Quiet ⊥ (Since time t) ready.self_check
          (Onward-Quiet time t ready.self_check o.checks))
        λ _.
          Keeps-bind (post_kid c account url (text "{}") client) _
            (post_kid-Keeps c time client onward account store_onward t url (text "{}"))
            λ response.
              Keeps-bind (attempt (check c.problem_from_slice response)) _
                (Keeps-attempt (check c.problem_from_slice response))
                λ _. record {
                  at = λ s h.
                      start_loop fuel t (clock.now s.world).0 url timeout_ms poll_interval
                        (record s { world = (clock.now s.world).1 }) pos enough
                        (ticks.goes_on s.world) (omega (arith, ticks.reads s.world));
                })
