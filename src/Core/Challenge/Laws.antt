-- ===== src/Core/Challenge/Laws.antt =====
-- How the challenge loop of crates/core/src/challenge.rs ends well.
use acme_wasm.Prelude.{
  ℕ, zero, suc, ◌+◌, ◌≤◌, ◌<◌, ◌≡◌, refl, sym, ap, ◌∙◌, ◌⊎◌, inl, inr, Bool, true, false, [], leb,
  if◌then◌else◌, Text, text, ok,
}
use acme_wasm.Core.Error.{AcmeError}
use acme_wasm.Core.Transport.{HttpResponse, HttpClient, check}
use acme_wasm.Core.Transport.Laws.{check_iff}
use acme_wasm.Core.Clock.{Clock}
use acme_wasm.Core.Crates.{Crates, from_json}
use acme_wasm.Core.Records.Challenge.{
  Challenge, ChallengeStatus, pending, processing, invalid, valid, unknown, status_enum,
}
use acme_wasm.Core.Challenge.{
  ChallengeReady, sleep, dropped, owning, judge, challenge_timeout, poll_loop,
  poll_challenge_with_interval,
}
use acme_wasm.Core.Program.{
  State, Outcome, done, fails, out_of_fuel, Program, throw, attempt, io, ◌>>◌,
}
use acme_wasm.Core.Program.Laws.{continue-eq-done, attempt-eq-done, from_json-eq-ok}
use acme_wasm.Core.Account.{Account, post_kid}

-- The run of a poll that ends in `t`: the answer is a success, its body is a challenge, and the
-- challenge is valid.
pub record Validated (c : Crates) {W : Type 0} (account : Account c W) (client : HttpClient W)
    (url : Text) (t : State W) : Type 0 where
  pub start : State W
  pub response : HttpResponse
  pub answered : post_kid c account url [] client start ≡ done response t
  pub success : (200 ≤ response.status) × (response.status < 300)
  pub challenge : Challenge
  pub reads : c.challenge_from_slice response.body ≡ ok challenge
  pub is_valid : status_enum challenge ≡ valid

module _ {W : Type 0} where
  dropped-eq-done :
      {A : Type 0} (ready : ChallengeReady W) (o : Outcome (State W) A) {a : A} {u : State W}
      → dropped ready o ≡ done a u
      → (t : State W) × (o ≡ done a t) × (u ≡ record t { world = ready.drop t.world })
  unfolding dropped
  dropped-eq-done ready (done a s) e = (s, cc, cc)
  dropped-eq-done ready (fails x s) e = absurd cc
  dropped-eq-done ready out_of_fuel e = absurd cc

module _ (c : Crates) {W : Type 0} (clock : Clock W) (account : Account c W)
    (client : HttpClient W) where
  round_tail :
      (deadline reading : ℕ) (late : AcmeError) (interval : ℕ) (next : Program W Unit) (b : Bool)
      (s t : State W)
      → (if b then throw late else (sleep clock interval >> next)) s ≡ done tt t
      → (u : State W) × (next u ≡ done tt t)
  round_tail deadline reading late interval next true s t e = absurd cc
  round_tail deadline reading late interval next false s t e =
      (record s { world = clock.sleep interval s.world }, e)

  judge-eq-done :
      (url : Text) (challenge : Challenge) (status : ChallengeStatus) (later : Program W Unit)
      (s t : State W)
      → judge c clock challenge status later s ≡ done tt t
      → ((status ≡ valid) × (t ≡ s)) ⊎ (later s ≡ done tt t)
  unfolding judge
  judge-eq-done url challenge valid later s t e = inl (refl, cc)
  judge-eq-done url challenge invalid later s t e = absurd cc
  judge-eq-done url challenge pending later s t e = inr e
  judge-eq-done url challenge processing later s t e = inr e
  judge-eq-done url challenge unknown later s t e = inr e

  poll_loop-Validated :
      (fuel : ℕ) (url : Text) (timeout_ms poll_interval deadline : ℕ) (s t : State W)
      → poll_loop c clock fuel url account client timeout_ms poll_interval deadline s ≡ done tt t
      → Validated c account client url t
  unfolding poll_loop
  poll_loop-Validated zero url timeout_ms poll_interval deadline s t e = absurd cc
  poll_loop-Validated (suc fuel) url timeout_ms poll_interval deadline s t e =
      let (response, s1, posted, e1) = continue-eq-done (post_kid c account url [] client s) _ e in
      let (good, s2, checked, e2) =
        continue-eq-done (attempt (check c.problem_from_slice response) s1) _ e1 in
      let (challenge, s3, parsed, e3) =
        continue-eq-done (attempt (from_json (c.challenge_from_slice good.body)) s2) _ e2 in
      let check' = attempt-eq-done (check c.problem_from_slice response) checked in
      let parse' = attempt-eq-done (from_json (c.challenge_from_slice good.body)) parsed in
      let (low, high, same) = (check_iff c.problem_from_slice response good).0 check'.0 in
      elim (judge-eq-done url challenge (status_enum challenge) _ s3 t e3) [
        | inl (is_valid, at) ↦ record {
          start = s;
          response = response;
          answered = posted ∙ ap (done response) (sym check'.1 ∙ sym parse'.1 ∙ sym at);
          success = (low, high);
          challenge = challenge;
          reads =
              ap (λ r. c.challenge_from_slice r.body) same
              ∙ from_json-eq-ok (c.challenge_from_slice good.body) parse'.0;
          is_valid = is_valid;
        }
        | inr later ↦
            let reading = (clock.now s3.world).0 in
            let s4 = record s3 { world = (clock.now s3.world).1 } in
            let (u, e5) =
              round_tail deadline reading
                (challenge_timeout c clock url challenge.status timeout_ms) poll_interval
                (poll_loop c clock fuel url account client timeout_ms poll_interval deadline)
                (leb deadline reading) s4 t later in
            poll_loop-Validated fuel url timeout_ms poll_interval deadline u t e5
      ]

  -- If driving a challenge returns success, then the last answer of the server was a success whose
  -- body is a challenge that is valid; after that answer the armed challenge was torn down, and
  -- nothing else was done.
  pub poll_challenge_with_interval-eq-done :
      (fuel : ℕ) (url : Text) (ready : ChallengeReady W) (timeout_ms poll_interval : ℕ)
      (s u : State W)
      → poll_challenge_with_interval c clock fuel url account client ready timeout_ms poll_interval
          s
        ≡ done tt u
      → (t : State W) × Validated c account client url t
        × (u ≡ record t { world = ready.drop t.world })
  unfolding poll_challenge_with_interval owning
  poll_challenge_with_interval-eq-done fuel url ready timeout_ms poll_interval s u e =
      let (t, e0, torn) = dropped-eq-done ready _ e in
      let (_, s1, _, e1) = continue-eq-done (io ready.self_check s) _ e0 in
      let (response, s2, _, e2) =
        continue-eq-done (post_kid c account url (text "{}") client s1) _ e1 in
      let (_, s3, _, e3) =
        continue-eq-done (attempt (check c.problem_from_slice response) s2) _ e2 in
      let start = (clock.now s3.world).0 in
      let s4 = record s3 { world = (clock.now s3.world).1 } in
      (t, poll_loop-Validated fuel url timeout_ms poll_interval (start + timeout_ms) s4 t e3, torn)
