-- ===== src/Core/Issue/Tests.antt =====
-- The choice of a solver on the sample authorization.
use acme_wasm.Prelude.{ℕ, ◌≡◌, refl, ◌↔◌, none, [], ◌∷◌, All, text, ◌is◌, ok, err}
use acme_wasm.Core.Challenge.{ChallengeSolver}
use acme_wasm.Core.Records.Challenge.{dns01, kind, from_type, same_kind}
use acme_wasm.Core.Issue.{offered, no_solver, pick_solver_and_challenge}
use acme_wasm.Core.Issue.Solvers.{
  Picked, pick_solver_and_challenge-Picked, pick_solver_and_challenge-eq-err_iff,
}
use acme_wasm.Core.Sample.{challenge, authorization, crates, solver}

-- a solver whose kind is not on offer
abbrev other_solver : ChallengeSolver ℕ
other_solver = record { kind = dns01; arm = solver.arm }

pick_run :
    pick_solver_and_challenge crates authorization (other_solver ∷ solver ∷ [])
    ≡ ok (solver, challenge)
unfolding pick_solver_and_challenge kind from_type same_kind text ◌is◌
pick_run = refl

pick_solver_and_challenge-Picked_example :
    Picked authorization (other_solver ∷ solver ∷ []) solver challenge
pick_solver_and_challenge-Picked_example =
    pick_solver_and_challenge-Picked crates authorization (other_solver ∷ solver ∷ []) solver
      challenge pick_run

pick_solver_and_challenge-eq-err_iff_example :
    (pick_solver_and_challenge crates authorization (other_solver ∷ [])
      ≡ err (no_solver crates authorization))
    ↔ All (λ s. offered s.kind authorization ≡ none) (other_solver ∷ [])
pick_solver_and_challenge-eq-err_iff_example =
    pick_solver_and_challenge-eq-err_iff crates authorization (other_solver ∷ [])
