-- ===== src/Core/Flow/Nonces.antt =====
-- Where the nonces of the requests of a whole issuance come from, in crates/core/src/lib.rs.
use mathlib.Core.Path
use acme_wasm.Prelude.{ℕ, ◌≡◌, sym, ◌∙◌, true, List, [], append-nil, All, All-map, Bytes, Text, ok}
use acme_wasm.Core.Transport.{HttpClient}
use acme_wasm.Core.Clock.{Clock}
use acme_wasm.Core.Crates.{Crates}
use acme_wasm.Core.Records.Order.{Identifier}
use acme_wasm.Core.Jws.{AccountKey}
use acme_wasm.Core.Nonce.Ledger.{Ledger, Observes, Spent, nothing, Holds, Accounts, receive}
use acme_wasm.Core.Csr.{CertificateKey}
use acme_wasm.Core.Challenge.{ChallengeReady, ChallengeSolver}
use acme_wasm.Core.Program.{State}
use acme_wasm.Core.Program.Keeps.{Post, Keeps, Calm}
use acme_wasm.Core.Account.{Account, post_kid}
use acme_wasm.Core.Issue.{issue_certificate_with_timeouts}
use acme_wasm.Core.Flow.{CalmClock, poll_challenge-Keeps, finalize-Keeps}
use acme_wasm.Core.Flow.Issue.{Serves, Works, issue-Keeps}
use acme_wasm.Core.Flow.Posts.{post_kid-Accounts, create-Accounts}

-- An action that the ledger does not record.
pub record Apart {W A : Type 0} (ledger : Ledger W) (act : W → A × W) : Type 0 where
  pub at :
      (w : W)
      → (ledger.received (act w).1 ≡ ledger.received w)
        × (ledger.posted (act w).1 ≡ ledger.posted w)

-- Neither reading the clock nor sleeping is recorded.
pub record ApartClock {W : Type 0} (ledger : Ledger W) (clock : Clock W) : Type 0 where
  pub reads : Apart ledger clock.now
  pub sleeps : (d : ℕ) → Apart ledger (λ w. (tt, clock.sleep d w))

-- What the solver and its handles do is not recorded.
pub record ApartSolver {W : Type 0} (ledger : Ledger W) (solver : ChallengeSolver W) : Type 0 where
  pub arms : (id : Identifier) (proof : Text) → Apart ledger (solver.arm id proof)
  pub checks :
      (id : Identifier) (proof : Text) (w : W) (ready : ChallengeReady W)
      → (solver.arm id proof w).0 ≡ ok ready
      → Apart ledger ready.self_check
  pub drops :
      (id : Identifier) (proof : Text) (w : W) (ready : ChallengeReady W)
      → (solver.arm id proof w).0 ≡ ok ready
      → Apart ledger (λ w. (tt, ready.drop w))

module _ (c : Crates) {W : Type 0} (ledger : Ledger W) where
  Apart-Calm : {A : Type 0} (act : W → A × W) → Apart ledger act → Calm (Accounts c ledger) act
  Apart-Calm act apart = record {
    at = λ s h.
        Path.subst (λ l. Holds c ledger l (act s.world).1) (append-nil s.pool)
          (receive c ledger s.pool [] s.world (act s.world).1
            ((apart.at s.world).0 ∙ sym (append-nil (ledger.received s.world))) (apart.at s.world).1
            h);
  }

  ApartClock-Calm :
      (clock : Clock W) → ApartClock ledger clock → CalmClock (Accounts c ledger) clock
  ApartClock-Calm clock apart = record {
    reads = (Apart-Calm clock.now apart.reads).at;
    sleeps = λ d. (Apart-Calm (λ w. (tt, clock.sleep d w)) (apart.sleeps d)).at;
  }

  module _ (clock : Clock W) (calm : ApartClock ledger clock) (client : HttpClient W)
      (observes : Observes ledger client) (account : Account c W)
      (shared : account.nonce.transport ≡ client) (fuel : ℕ) where
    posts :
        (url : Text) (payload : Bytes)
        → Keeps Unit (Accounts c ledger) (post_kid c account url payload client)
    posts url payload = post_kid-Accounts c ledger client observes account url payload shared

    ApartSolver-Serves :
        (timeout_ms : ℕ) (solver : ChallengeSolver W)
        → ApartSolver ledger solver
        → Serves c Unit (Accounts c ledger) clock client account fuel timeout_ms solver
    ApartSolver-Serves timeout_ms solver apart = record {
      arms = λ id proof. Apart-Calm (solver.arm id proof) (apart.arms id proof);
      polls = λ id proof w ready url armed.
          poll_challenge-Keeps c clock (ApartClock-Calm clock calm) client account posts fuel url
            ready timeout_ms
            (record {
              checks = Apart-Calm ready.self_check (apart.checks id proof w ready armed);
              drops =
                  (Apart-Calm (λ w. (tt, ready.drop w)) (apart.drops id proof w ready armed)).at;
            });
    }

    account-Works :
        (challenge_ms finalize_ms : ℕ) (solvers : List (ChallengeSolver W))
        (cert_key : CertificateKey c)
        → All (ApartSolver ledger) solvers
        → Works c Unit
            (Accounts c ledger)
            clock
            client
            fuel
            challenge_ms
            finalize_ms
            solvers
            cert_key
            account
    account-Works challenge_ms finalize_ms solvers cert_key all = record {
      posts = posts;
      serves = All-map _ _ solvers (ApartSolver-Serves challenge_ms) all;
      finalizes = λ order.
          finalize-Keeps c clock (ApartClock-Calm clock calm) client account posts fuel order
            cert_key finalize_ms;
    }

  -- If the ledger records the client's requests, and neither the clock nor the solvers act on it,
  -- then however an issuance that began with an empty ledger and pool ends, up to the fuel: the
  -- nonces received are, in order, those used up and then those still in the pool; and each POST
  -- request that was sent, in order, was signed with a nonce of its own among those used up.
  pub issue_certificate_with_timeouts-Accounts :
      (clock : Clock W) (client : HttpClient W) (fuel : ℕ) (directory_url : Text)
      (contact : List Text) (identifiers : List Identifier) (solvers : List (ChallengeSolver W))
      (cert_key : CertificateKey c) (account_key : AccountKey c) (challenge_ms finalize_ms : ℕ)
      (s : State W)
      → ApartClock ledger clock
      → Observes ledger client
      → All (ApartSolver ledger) solvers
      → ledger.received s.world ≡ []
      → ledger.posted s.world ≡ []
      → s.pool ≡ []
      → Post Unit (Accounts c ledger) (
          issue_certificate_with_timeouts c clock fuel directory_url contact identifiers solvers
            cert_key account_key client challenge_ms finalize_ms s)
  issue_certificate_with_timeouts-Accounts clock client fuel directory_url contact identifiers
        solvers cert_key account_key challenge_ms finalize_ms s calm observes all none_yet unsent
        empty =
      (issue-Keeps c Unit (Accounts c ledger) clock client fuel challenge_ms finalize_ms solvers
          cert_key directory_url contact identifiers account_key
          (Apart-Calm (client.get directory_url) (record { at = observes.gets directory_url }))
          (λ directory. create-Accounts c ledger client observes directory contact true account_key)
          λ account shared.
            account-Works clock calm client observes account shared fuel challenge_ms finalize_ms
              solvers cert_key all).at
        s
        (record {
          used = [];
          split = none_yet ∙ sym empty;
          spending = Path.subst⁻¹ (λ posts. Spent c posts []) unsent nothing;
        })
