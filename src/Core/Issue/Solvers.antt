-- ===== src/Core/Issue/Solvers.antt =====
-- The choice of a solver and a challenge in crates/core/src/lib.rs.
use acme_wasm.Prelude.{
  ◌≡◌, refl, sym, ap, ◌∙◌, ◌↔◌, Option, none, some, List, [], ◌∷◌, ◌++◌, All, ok, err,
}
use acme_wasm.Core.Crates.{Crates}
use acme_wasm.Core.Challenge.{ChallengeSolver}
use acme_wasm.Core.Records.Challenge.{Challenge}
use acme_wasm.Core.Records.Authorization.{Authorization}
use acme_wasm.Core.Issue.{offered, no_solver, pick_solver_and_challenge}

-- The solver `solver` stands in the list, none before it has a challenge of its kind on offer, and
-- `ch` is the first challenge of its kind.
pub record Picked {W : Type 0} (authz : Authorization) (solvers : List (ChallengeSolver W))
    (solver : ChallengeSolver W) (ch : Challenge) : Type 0 where
  pub earlier : List (ChallengeSolver W)
  pub later : List (ChallengeSolver W)
  pub place : solvers ≡ earlier ++ solver ∷ later
  pub refused : All (λ s. offered s.kind authz ≡ none) earlier
  pub first : offered solver.kind authz ≡ some ch

module _ (c : Crates) {W : Type 0} where
  pick_cons :
      (authz : Authorization) (solver : ChallengeSolver W) (solvers : List (ChallengeSolver W))
      (found : Option Challenge)
      → offered solver.kind authz ≡ found
      → pick_solver_and_challenge c authz (solver ∷ solvers) ≡ elim found [
        | some ch ↦ ok (solver, ch)
        | none ↦ pick_solver_and_challenge c authz solvers
      ]
  unfolding pick_solver_and_challenge
  pick_cons authz solver solvers found e =
      ap
        (λ o. elim o [
          | some ch ↦ ok (solver, ch)
          | none ↦ pick_solver_and_challenge c authz solvers
        ])
        e

  pick_on :
      (authz : Authorization) (solver : ChallengeSolver W) (solvers : List (ChallengeSolver W))
      (found : Option Challenge)
      → offered solver.kind authz ≡ found
      → ((t : ChallengeSolver W) (ch : Challenge)
          → pick_solver_and_challenge c authz solvers ≡ ok (t, ch)
          → Picked authz solvers t ch)
      → (t : ChallengeSolver W) (ch : Challenge)
      → elim found [
        | some ch' ↦ ok (solver, ch')
        | none ↦ pick_solver_and_challenge c authz solvers
      ]
        ≡ ok (t, ch)
      → Picked authz (solver ∷ solvers) t ch
  pick_on authz solver solvers (some ch') e rec t ch h = record {
    earlier = [];
    later = solvers;
    place = cc;
    refused = tt;
    first = cc;
  }
  pick_on authz solver solvers none e rec t ch h =
      let p = rec t ch h in
      record {
        earlier = solver ∷ p.earlier;
        later = p.later;
        place = ap (λ ss. solver ∷ ss) p.place;
        refused = (e, p.refused);
        first = p.first;
      }

  -- What is picked is the first solver in the list that has a challenge of its kind on offer, with
  -- the first such challenge.
  pub pick_solver_and_challenge-Picked :
      (authz : Authorization) (solvers : List (ChallengeSolver W)) (solver : ChallengeSolver W)
      (ch : Challenge)
      → pick_solver_and_challenge c authz solvers ≡ ok (solver, ch)
      → Picked authz solvers solver ch
  unfolding pick_solver_and_challenge
  pick_solver_and_challenge-Picked authz [] solver ch h = cc
  pick_solver_and_challenge-Picked authz (s ∷ solvers) solver ch h =
      pick_on authz s solvers (offered s.kind authz) refl
        (pick_solver_and_challenge-Picked authz solvers) solver ch
        (sym (pick_cons authz s solvers (offered s.kind authz) refl) ∙ h)

  refused_on :
      (authz : Authorization) (solver : ChallengeSolver W) (solvers : List (ChallengeSolver W))
      (found : Option Challenge)
      → offered solver.kind authz ≡ found
      → pick_solver_and_challenge c authz (solver ∷ solvers) ≡ err (no_solver c authz)
      → (pick_solver_and_challenge c authz solvers ≡ err (no_solver c authz)
          → All (λ s. offered s.kind authz ≡ none) solvers)
      → All (λ s. offered s.kind authz ≡ none) (solver ∷ solvers)
  refused_on authz solver solvers (some ch) e h rec =
      let eq = pick_cons authz solver solvers (some ch) e in absurd cc
  refused_on authz solver solvers none e h rec =
      (e, rec (sym (pick_cons authz solver solvers none e) ∙ h))

  -- The error for a missing solver is returned exactly when no solver of the list has a challenge of
  -- its kind on offer.
  pub pick_solver_and_challenge-eq-err_iff :
      (authz : Authorization) (solvers : List (ChallengeSolver W))
      → (pick_solver_and_challenge c authz solvers ≡ err (no_solver c authz))
        ↔ All (λ s. offered s.kind authz ≡ none) solvers
  unfolding pick_solver_and_challenge
  pick_solver_and_challenge-eq-err_iff authz [] = (λ h. tt, λ h. refl)
  pick_solver_and_challenge-eq-err_iff authz (s ∷ solvers) =
      let rest = pick_solver_and_challenge-eq-err_iff authz solvers in
      (
        λ h. refused_on authz s solvers (offered s.kind authz) refl h rest.0,
        λ p. pick_cons authz s solvers none p.0 ∙ rest.1 p.1,
      )
