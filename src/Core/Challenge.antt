-- ===== src/Core/Challenge.antt =====
-- crates/core/src/challenge.rs: key authorizations, the solver traits, and the loop that drives a
-- challenge to its end.
pub mod Laws
pub mod Liveness
mod Tests
use acme_wasm.Prelude.{
  ℕ, zero, suc, ◌+◌, Option, none, some, [], ◌++◌, leb, if◌then◌else◌, Bytes, Text, text, Result,
  ok, err,
}
use acme_wasm.Core.Json.{Value}
use acme_wasm.Core.Error.{AcmeError, malformed, timeout}
use acme_wasm.Core.Transport.{HttpClient, check}
use acme_wasm.Core.Records.Order.{Identifier}
use acme_wasm.Core.Records.Challenge.{
  ChallengeStatus, valid, invalid, ChallengeKind, Challenge, status_enum,
}
use acme_wasm.Core.Crates.{Crates, from_json}
use acme_wasm.Core.Clock.{Clock}
use acme_wasm.Core.Program.{
  State, Outcome, done, fails, out_of_fuel, Program, pure, throw, attempt, io, ◌>>=◌, ◌>>◌,
}
use acme_wasm.Core.Jws.{AccountKey, key_thumbprint}
use acme_wasm.Core.Account.{Account, post_kid}

-- The handle of an armed challenge. `drop` is its `Drop`, which tears the environment down.
pub record ChallengeReady (W : Type 0) : Type 0 where
  pub self_check : W → Result (Unit {0}) AcmeError × W
  pub drop : W → W

pub record ChallengeSolver (W : Type 0) : Type 0 where
  pub kind : ChallengeKind
  pub arm : Identifier → Text → W → Result (ChallengeReady W) AcmeError × W

-- the detail of a failure: its JSON text, or a fixed text if there is none
abbrev pub detail_or : (Value → Result Bytes Text) → Text → Option Value → Text
detail_or to_string otherwise none = otherwise
detail_or to_string otherwise (some e) = elim (to_string e) [ ok t ↦ t | err _ ↦ otherwise ]

module _ (c : Crates) where
  unfoldable pub compute_key_authorization : Text → AccountKey c → Text
  compute_key_authorization token account_key = token ++ text "." ++ key_thumbprint c account_key

  unfoldable pub sha256_key_authorization : Text → AccountKey c → Text
  unfolding compute_key_authorization
  sha256_key_authorization token account_key =
      c.b64url (c.sha256 (compute_key_authorization token account_key))

module _ {W : Type 0} where
  -- `Instant::now()` and `thread::sleep`
  abbrev pub now : Clock W → Program W ℕ
  now clock = io (λ w. let (t, w') = clock.now w in (ok t, w'))

  abbrev pub sleep : Clock W → ℕ → Program W Unit
  sleep clock d = io (λ w. (ok tt, clock.sleep d w))

  unfoldable pub dropped :
      {A : Type 0} → ChallengeReady W → Outcome (State W) A → Outcome (State W) A
  dropped ready (done a s) = done a (record s { world = ready.drop s.world })
  dropped ready (fails e s) = fails e (record s { world = ready.drop s.world })
  dropped ready out_of_fuel = out_of_fuel

  -- A function that owns `ready` drops it on each way out: explicitly, or by `?`.
  unfoldable pub owning : {A : Type 0} → ChallengeReady W → Program W A → Program W A
  unfolding dropped
  owning ready body s = dropped ready (body s)

module _ (c : Crates) {W : Type 0} (clock : Clock W) where
  -- one `match` of the loop; `later` is the rest of the iteration
  unfoldable pub judge : Challenge → ChallengeStatus → Program W Unit → Program W Unit
  judge challenge valid later = pure tt
  judge challenge invalid later =
      throw (malformed (detail_or c.to_vec (text "challenge invalid") challenge.error))
  judge challenge _ later = later

  abbrev pub challenge_timeout : Text → Text → ℕ → AcmeError
  challenge_timeout url status timeout_ms = timeout (
      text "challenge "
      ++ url
      ++ text " still "
      ++ status
      ++ text " after "
      ++ c.debug_duration timeout_ms)

  unfoldable pub poll_loop : ℕ → Text → Account c W → HttpClient W → ℕ → ℕ → ℕ → Program W Unit
  unfolding judge
  poll_loop zero url account client timeout_ms poll_interval deadline s = out_of_fuel
  poll_loop (suc fuel) url account client timeout_ms poll_interval deadline s =
      (do
        response ← post_kid c account url [] client
        response ← attempt (check c.problem_from_slice response)
        challenge ← attempt (from_json (c.challenge_from_slice response.body))
        judge challenge (status_enum challenge) (do
          time ← now clock
          if leb deadline time
              then throw (challenge_timeout url challenge.status timeout_ms)
              else do
                sleep clock poll_interval
                poll_loop fuel url account client timeout_ms poll_interval deadline))
        s

  unfoldable pub poll_challenge_with_interval :
      ℕ → Text → Account c W → HttpClient W → ChallengeReady W → ℕ → ℕ → Program W Unit
  unfolding poll_loop owning
  poll_challenge_with_interval fuel url account client ready timeout_ms poll_interval =
      owning ready (do
        io ready.self_check
        response ← post_kid c account url (text "{}") client
        attempt (check c.problem_from_slice response)
        start ← now clock
        poll_loop fuel url account client timeout_ms poll_interval (start + timeout_ms))

  unfoldable pub poll_challenge :
      ℕ → Text → Account c W → HttpClient W → ChallengeReady W → ℕ → Program W Unit
  unfolding poll_challenge_with_interval
  poll_challenge fuel url account client ready timeout_ms =
      poll_challenge_with_interval fuel url account client ready timeout_ms 2000
