-- ===== src/Core/Program/Laws.antt =====
-- Inversion of runs.
use acme_wasm.Prelude.{◌≡◌, refl, ◌⊎◌, inl, inr, Option, none, some, Text, Result, ok, err, ok_or}
use acme_wasm.Core.Error.{AcmeError}
use acme_wasm.Core.Crates.{from_json}
use acme_wasm.Core.Program.{Outcome, done, fails, out_of_fuel, Step, attempt, continue}

module _ {S A B : Type 0} where
  -- A run of two steps that ends well is a run of each.
  pub continue-eq-done :
      (o : Outcome S A) (f : A → Step S B) {b : B} {t : S}
      → continue o f ≡ done b t
      → (a : A) × (s : S) × (o ≡ done a s) × (f a s ≡ done b t)
  continue-eq-done (done a s) f h = (a, s, refl, h)
  continue-eq-done (fails e s) f h = cc
  continue-eq-done out_of_fuel f h = cc

  -- A run of two steps that fails, fails in the first or in the second.
  pub continue-eq-fails :
      (o : Outcome S A) (f : A → Step S B) {e : AcmeError} {t : S}
      → continue o f ≡ fails e t
      → (o ≡ fails e t) ⊎ ((a : A) × (s : S) × (o ≡ done a s) × (f a s ≡ fails e t))
  continue-eq-fails (done a s) f h = inr (a, s, refl, h)
  continue-eq-fails (fails e s) f h = inl cc
  continue-eq-fails out_of_fuel f h = absurd cc

module _ {S : Type 0} where
  pub attempt-eq-fails :
      {A : Type 0} (r : Result A AcmeError) {s t : S} {e : AcmeError}
      → attempt r s ≡ fails e t
      → (r ≡ err e) × (t ≡ s)
  attempt-eq-fails (ok a) h = absurd cc
  attempt-eq-fails (err x) h = (cc, cc)

  pub attempt-eq-done :
      {A : Type 0} (r : Result A AcmeError) {s t : S} {a : A}
      → attempt r s ≡ done a t
      → (r ≡ ok a) × (t ≡ s)
  attempt-eq-done (ok a) e = (cc, cc)
  attempt-eq-done (err x) e = absurd cc

  pub ok_or-eq-done :
      {A : Type 0} (x : AcmeError) (o : Option A) {s t : S} {a : A}
      → attempt (ok_or x o) s ≡ done a t
      → (o ≡ some a) × (t ≡ s)
  ok_or-eq-done x (some a) e = (cc, cc)
  ok_or-eq-done x none e = absurd cc

  pub done_inj :
      {A : Type 0} (a : A) (s : S) {b : A} {t : S}
      → ◌≡◌ {A = Outcome S A} (done a s) (done b t)
      → (a ≡ b) × (s ≡ t)
  done_inj a s e = (cc, cc)

pub from_json-eq-ok : {A : Type 0} (r : Result A Text) {a : A} → from_json r ≡ ok a → r ≡ ok a
from_json-eq-ok (ok a) e = cc
from_json-eq-ok (err x) e = absurd cc
