-- ===== src/Core/Polling.antt =====
-- Time, as the poll loops of crates/core need it to end.
pub mod Challenge
pub mod Order
pub mod Creation
pub mod Issue
use acme_wasm.Prelude.{
  ℕ, ◌+◌, ◌≤◌, ◌<◌, ◌≡◌, refl, Bool, true, false, arith, leb, if◌then◌else◌, leb-eq-false, drop,
  Bytes, Text,
}
use acme_wasm.Core.Error.{AcmeError}
use acme_wasm.Core.Transport.{HttpClient}
use acme_wasm.Core.Clock.{Clock}
use acme_wasm.Core.Crates.{Crates}
use acme_wasm.Core.Challenge.{ChallengeReady, now, sleep}
use acme_wasm.Core.Program.{
  State, Outcome, done, fails, out_of_fuel, Program, throw, attempt, io, ◌>>=◌, ◌>>◌,
}
use acme_wasm.Core.Program.Keeps.{Post, Keeps, Keeps-pure, Keeps-attempt, Keeps-bind}
use acme_wasm.Core.Nonce
use acme_wasm.Core.Nonce.Keeps.{OfWorld, Quiet, Keeps-Quiet, absorb-Keeps, get-Keeps}
use acme_wasm.Core.Jws.{sign_jws_with_kid}
use acme_wasm.Core.Account.{Account, post_kid}

-- `time w` is when `w` is: a reading of the monotonic clock is not before it, and a sleep of `d`
-- takes at least `d`.
pub record Ticks {W : Type 0} (time : W → ℕ) (clock : Clock W) : Type 0 where
  pub reads : (w : W) → time w ≤ (clock.now w).0
  pub goes_on : (w : W) → (clock.now w).0 ≤ time (clock.now w).1
  pub sleeps : (d : ℕ) (w : W) → time w + d ≤ time (clock.sleep d w)

-- Nothing that the program calls turns the time back.
abbrev pub Onward : {W A : Type 0} → (W → ℕ) → (W → A × W) → Type 0
Onward {W} time act = (w : W) → time w ≤ time (act w).1

pub record OnwardClient {W : Type 0} (time : W → ℕ) (client : HttpClient W) : Type 0 where
  pub heads : (url : Text) → Onward time (client.head url)
  pub gets : (url : Text) → Onward time (client.get url)
  pub posts : (url : Text) (body : Bytes) → Onward time (client.post_jose url body)

pub record OnwardReady {W : Type 0} (time : W → ℕ) (ready : ChallengeReady W) : Type 0 where
  pub checks : Onward time ready.self_check
  pub drops : (w : W) → time w ≤ time (ready.drop w)

-- It is not before `t`.
abbrev pub Since : {W : Type 0} → (W → ℕ) → ℕ → W → Type 0
Since time t w = t ≤ time w

module _ {W : Type 0} (time : W → ℕ) where
  pub Onward-Quiet :
      {A : Type 0} (t : ℕ) (act : W → A × W) → Onward time act → Quiet (Since time t) act
  Onward-Quiet t act f w h = omega (arith, f w)

  pub Post-earlier :
      {A : Type 0} (t u : ℕ) (o : Outcome (State W) A)
      → t ≤ u
      → Post ⊥ (OfWorld (Since time u)) o
      → Post ⊥ (OfWorld (Since time t)) o
  Post-earlier t u (done a s) h p = omega arith
  Post-earlier t u (fails e s) h p = omega arith
  Post-earlier t u out_of_fuel h p = p

module _ (c : Crates) {W : Type 0} (time : W → ℕ) (client : HttpClient W)
    (onward : OnwardClient time client) (account : Account c W)
    (store_onward : OnwardClient time account.nonce.transport) where
  -- A signed POST ends, and time goes on.
  pub post_kid-Keeps :
      (t : ℕ) (url : Text) (payload : Bytes)
      → Keeps ⊥ (OfWorld (Since time t)) (post_kid c account url payload client)
  unfolding post_kid
  post_kid-Keeps t url payload =
      Keeps-bind (Nonce.get account.nonce) _
        (get-Keeps ⊥ (Since time t) account.nonce (
          Onward-Quiet time t (account.nonce.transport.head account.nonce.new_nonce_url)
            (store_onward.heads account.nonce.new_nonce_url)))
        λ nonce.
          Keeps-bind (attempt (sign_jws_with_kid c payload url nonce account.kid account.key)) _
            (Keeps-attempt (sign_jws_with_kid c payload url nonce account.kid account.key))
            λ jws.
              Keeps-bind (io (client.post_jose url jws)) _
                (Keeps-Quiet ⊥ (Since time t) (client.post_jose url jws)
                  (Onward-Quiet time t (client.post_jose url jws) (onward.posts url jws)))
                λ response.
                  Keeps-bind (Nonce.absorb response) _ (absorb-Keeps ⊥ (Since time t) response)
                    λ _. Keeps-pure response

module _ {W : Type 0} (time : W → ℕ) (clock : Clock W) (ticks : Ticks time clock) where
  -- The end of a round of a poll loop: before the deadline, the next round begins later.
  pub round_end :
      {A : Type 0} (t deadline interval : ℕ) (late : AcmeError) (next : Program W A)
      → 1 ≤ interval
      → (t < deadline → Keeps ⊥ (OfWorld (Since time (t + 1))) next)
      → Keeps ⊥ (OfWorld (Since time t)) (
          now clock >>= λ reading.
          if leb deadline reading then throw late else (sleep clock interval >> next))
  round_end {A} t deadline interval late next pos rec = record { at = on_now }
    where
      tail : ℕ → Program W A
      tail reading = if leb deadline reading then throw late else (sleep clock interval >> next)

      on_sleep :
          (s : State W)
          → t < deadline
          → t ≤ time s.world
          → Post ⊥ (OfWorld (Since time t)) ((sleep clock interval >> next) s)
      on_sleep s early h =
          Post-earlier time t (t + 1) (next (record s { world = clock.sleep interval s.world }))
            (omega arith)
            ((rec early).at (record s { world = clock.sleep interval s.world })
              (omega (arith, ticks.sleeps interval s.world)))

      on_reading :
          (reading : ℕ) (b : Bool) (s : State W)
          → leb deadline reading ≡ b
          → t ≤ reading
          → reading ≤ time s.world
          → Post ⊥
              (OfWorld (Since time t))
              ((if b then throw late else (sleep clock interval >> next)) s)
      on_reading reading true s e h g = omega arith
      on_reading reading false s e h g =
          on_sleep s (ground (arith, leb-eq-false deadline reading e)) (omega arith)

      on_now :
          (s : State W)
          → t ≤ time s.world
          → Post ⊥ (OfWorld (Since time t)) ((now clock >>= tail) s)
      on_now s h =
          on_reading (clock.now s.world).0 (leb deadline (clock.now s.world).0)
            (record s { world = (clock.now s.world).1 }) refl (omega (arith, ticks.reads s.world))
            (ticks.goes_on s.world)
