-- ===== src/Core/Program/Yields.antt =====
-- What the value that a program returns satisfies: one rule for each way to build a program.
use mathlib.Core.Path
use acme_wasm.Prelude.{◌≡◌, refl, Bool, true, false, if◌then◌else◌, Result, ok, err}
use acme_wasm.Core.Error.{AcmeError}
use acme_wasm.Core.Program.{
  State, Outcome, done, fails, out_of_fuel, Program, pure, throw, attempt, continue, ◌>>=◌,
}

-- If the run returns, `Q` holds of the value.
abbrev pub Value : {W A : Type 0} → (A → Type 0) → Outcome (State W) A → Type 0
Value Q (done a s) = Q a
Value Q (fails e s) = Unit
Value Q out_of_fuel = Unit

pub record Yields {W A : Type 0} (Q : A → Type 0) (m : Program W A) : Type 0 where
  pub at : (s : State W) → Value Q (m s)

module _ {W : Type 0} where
  pub Yields-any : {A : Type 0} (m : Program W A) → Yields (λ _. Unit) m
  Yields-any {A} m = record { at = λ s. on_run (m s) }
    where
      on_run : (o : Outcome (State W) A) → Value (λ _. Unit) o
      on_run (done a s) = tt
      on_run (fails e s) = tt
      on_run out_of_fuel = tt

module _ {W : Type 0} {A : Type 0} {Q : A → Type 0} where
  pub Yields-pure : (a : A) → Q a → Yields Q (pure {S = State W} a)
  Yields-pure a q = record { at = λ s. q }

  pub Yields-throw : (e : AcmeError) → Yields Q (throw {S = State W} e)
  Yields-throw e = record { at = λ s. tt }

  pub Yields-attempt :
      (r : Result A AcmeError) → ((a : A) → r ≡ ok a → Q a) → Yields Q (attempt {S = State W} r)
  Yields-attempt (ok a) q = record { at = λ s. q a refl }
  Yields-attempt (err e) q = record { at = λ s. tt }

  continue_lem :
      {B : Type 0} {R : B → Type 0} (o : Outcome (State W) B) (f : B → Program W A)
      → Value R o
      → ((b : B) → R b → Yields Q (f b))
      → Value Q (continue o f)
  continue_lem (done b s) f r k = (k b r).at s
  continue_lem (fails e s) f r k = tt
  continue_lem out_of_fuel f r k = tt

  -- The rest of the program may use what the value of the first part satisfies.
  pub Yields-bind :
      {B : Type 0} {R : B → Type 0} (m : Program W B) (f : B → Program W A)
      → Yields R m
      → ((b : B) → R b → Yields Q (f b))
      → Yields Q (m >>= f)
  Yields-bind m f y k = record { at = λ s. continue_lem (m s) f (y.at s) k }

  pub Yields-after :
      {B : Type 0} (m : Program W B) (f : B → Program W A)
      → ((b : B) → Yields Q (f b))
      → Yields Q (m >>= f)
  Yields-after m f k = Yields-bind m f (Yields-any m) λ b _. k b

  pub Yields-if :
      (b : Bool) (m n : Program W A) → Yields Q m → Yields Q n → Yields Q (if b then m else n)
  Yields-if true m n y z = y
  Yields-if false m n y z = z

  -- A run that returns `a` shows `Q a`.
  pub Yields-at : (m : Program W A) (s t : State W) (a : A) → Yields Q m → m s ≡ done a t → Q a
  Yields-at m s t a y e = Path.subst (Value Q) e (y.at s)
