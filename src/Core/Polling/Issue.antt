-- ===== src/Core/Polling/Issue.antt =====
-- The end of the whole flow of crates/core/src/lib.rs.
use mathlib.Core.Path
use acme_wasm.Prelude.{ℕ, ◌<◌, ◌≡◌, ◌≢◌, true, List, arith, All, All-map, Text, ok}
use acme_wasm.Core.Transport.{HttpClient}
use acme_wasm.Core.Clock.{Clock}
use acme_wasm.Core.Crates.{Crates}
use acme_wasm.Core.Records.Order.{Identifier}
use acme_wasm.Core.Jws.{AccountKey}
use acme_wasm.Core.Polling.Creation.{account_create-Keeps}
use acme_wasm.Core.Polling.Order.{finalize-Keeps}
use acme_wasm.Core.Csr.{CertificateKey}
use acme_wasm.Core.Certificate
use acme_wasm.Core.Challenge.{ChallengeReady, ChallengeSolver, poll_challenge}
use acme_wasm.Core.Program.{State, Outcome, done, fails, out_of_fuel}
use acme_wasm.Core.Program.Keeps.{Post, Keeps}
use acme_wasm.Core.Nonce.Keeps.{OfWorld}
use acme_wasm.Core.Account.{Account}
use acme_wasm.Core.Flow.Issue.{Serves, Works, issue-Keeps}
use acme_wasm.Core.Issue.{issue_certificate_with_timeouts}
use acme_wasm.Core.Polling.{Ticks, Onward, OnwardClient, OnwardReady, Since, post_kid-Keeps}
use acme_wasm.Core.Polling.Challenge.{poll-Keeps}

-- Arming takes time forward, and so do the handles that it returns.
pub record OnwardSolver {W : Type 0} (time : W → ℕ) (solver : ChallengeSolver W) : Type 0 where
  pub arms : (id : Identifier) (proof : Text) → Onward time (solver.arm id proof)
  pub handles :
      (id : Identifier) (proof : Text) (w : W) (ready : ChallengeReady W)
      → (solver.arm id proof w).0 ≡ ok ready
      → OnwardReady time ready

module _ (c : Crates) {W : Type 0} (time : W → ℕ) (clock : Clock W) (ticks : Ticks time clock)
    (client : HttpClient W) (onward : OnwardClient time client) where
  module _ (account : Account c W) (store_onward : OnwardClient time account.nonce.transport)
      (fuel : ℕ) where
    OnwardSolver-Serves :
        (timeout_ms : ℕ) (solver : ChallengeSolver W)
        → timeout_ms < fuel
        → OnwardSolver time solver
        → Serves c ⊥ (OfWorld (Since time 0)) clock client account fuel timeout_ms solver
    unfolding poll_challenge
    OnwardSolver-Serves timeout_ms solver enough o = record {
      arms = λ id proof. record { at = λ s h. omega (arith, o.arms id proof s.world) };
      polls = λ id proof w ready url armed.
          poll-Keeps c time clock ticks client onward account store_onward fuel 0 url ready
            timeout_ms 2000 (o.handles id proof w ready armed) (omega arith) enough;
    }

    account-Works :
        (challenge_ms finalize_ms : ℕ) (solvers : List (ChallengeSolver W))
        (cert_key : CertificateKey c)
        → All (OnwardSolver time) solvers
        → challenge_ms < fuel
        → finalize_ms < fuel
        → Works c ⊥
            (OfWorld (Since time 0))
            clock
            client
            fuel
            challenge_ms
            finalize_ms
            solvers
            cert_key
            account
    unfolding Certificate.finalize_with_deadline
    account-Works challenge_ms finalize_ms solvers cert_key all enough enough' = record {
      posts = post_kid-Keeps c time client onward account store_onward 0;
      serves = All-map _ _ solvers (λ solver. OnwardSolver-Serves challenge_ms solver enough) all;
      finalizes = λ order.
          finalize-Keeps c time clock ticks client onward account store_onward fuel 0 order cert_key
            finalize_ms 2000 (omega arith) enough';
    }

  issue-Post :
      (fuel : ℕ) (directory_url : Text) (contact : List Text) (identifiers : List Identifier)
      (solvers : List (ChallengeSolver W)) (cert_key : CertificateKey c)
      (account_key : AccountKey c) (challenge_ms finalize_ms : ℕ)
      → All (OnwardSolver time) solvers
      → challenge_ms < fuel
      → finalize_ms < fuel
      → Keeps ⊥ (OfWorld (Since time 0)) (
          issue_certificate_with_timeouts c clock fuel directory_url contact identifiers solvers
            cert_key account_key client challenge_ms finalize_ms)
  issue-Post fuel directory_url contact identifiers solvers cert_key account_key challenge_ms
        finalize_ms all enough enough' =
      issue-Keeps c ⊥ (OfWorld (Since time 0)) clock client fuel challenge_ms finalize_ms solvers
        cert_key directory_url contact identifiers account_key (record { at = λ s h. omega arith })
        (λ directory. account_create-Keeps c time client directory contact true account_key)
        λ account shared.
          account-Works account (Path.subst⁻¹ (OnwardClient time) shared onward) fuel challenge_ms
            finalize_ms solvers cert_key all enough enough'

  run_end :
      {A : Type 0} (o : Outcome (State W) A) → Post ⊥ (OfWorld (Since time 0)) o → o ≢ out_of_fuel
  run_end (done a s) h = λ e. cc
  run_end (fails x s) h = λ e. cc
  run_end out_of_fuel h = absurd h

  -- If the monotonic clock does not go back, a sleep takes its time, and neither the client nor the
  -- solvers turn the time back, then issuing a certificate ends: with as much fuel as the longer
  -- timeout has milliseconds, the poll loops always reach a result or an error, whatever the server
  -- answers.
  pub issue_certificate_with_timeouts-ends :
      (fuel : ℕ) (directory_url : Text) (contact : List Text) (identifiers : List Identifier)
      (solvers : List (ChallengeSolver W)) (cert_key : CertificateKey c)
      (account_key : AccountKey c) (challenge_ms finalize_ms : ℕ) (s : State W)
      → All (OnwardSolver time) solvers
      → challenge_ms < fuel
      → finalize_ms < fuel
      → issue_certificate_with_timeouts c clock fuel directory_url contact identifiers solvers
          cert_key account_key client challenge_ms finalize_ms s
        ≢ out_of_fuel
  issue_certificate_with_timeouts-ends fuel directory_url contact identifiers solvers cert_key
        account_key challenge_ms finalize_ms s all enough enough' =
      run_end
        (issue_certificate_with_timeouts c clock fuel directory_url contact identifiers solvers
          cert_key account_key client challenge_ms finalize_ms s)
        ((issue-Post fuel directory_url contact identifiers solvers cert_key account_key
            challenge_ms finalize_ms all enough enough').at
          s (omega arith))
