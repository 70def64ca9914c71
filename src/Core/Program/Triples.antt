-- ===== src/Core/Program/Triples.antt =====
-- Programs between two conditions: what holds before, what holds of the value and the state after a
-- return, and what holds after an error.
use acme_wasm.Prelude.{Bool, true, false, if◌then◌else◌, ◌≡◌, refl, Result, ok, err}
use acme_wasm.Core.Error.{AcmeError}
use acme_wasm.Core.Program.{
  State, Outcome, done, fails, out_of_fuel, Program, Step, attempt, continue, ◌>>=◌,
}
use acme_wasm.Core.Program.Keeps.{Post, Keeps}

abbrev pub Ends : {S A : Type 0} → Type 0 → (A → S → Type 0) → (S → Type 0) → Outcome S A → Type 0
Ends Cut Q E (done a s) = Q a s
Ends Cut Q E (fails e s) = E s
Ends Cut Q E out_of_fuel = Cut

pub record Triple {S A : Type 0} (Cut : Type 0) (P : S → Type 0) (Q : A → S → Type 0)
    (E : S → Type 0) (m : Step S A) : Type 0 where
  pub at : (s : S) → P s → Ends Cut Q E (m s)

module _ {S : Type 0} {Cut : Type 0} {E : S → Type 0} {A B : Type 0} {R : A → S → Type 0}
    {Q : B → S → Type 0} where
  pub Ends-continue :
      (o : Outcome S A) (f : A → Step S B)
      → Ends Cut R E o
      → ((a : A) → Triple Cut (R a) Q E (f a))
      → Ends Cut Q E (continue o f)
  Ends-continue (done a s) f r k = (k a).at s r
  Ends-continue (fails e s) f r k = r
  Ends-continue out_of_fuel f r k = r

module _ {S : Type 0} {Cut : Type 0} {P E : S → Type 0} where
  pub Triple-bind :
      {A B : Type 0} {R : A → S → Type 0} {Q : B → S → Type 0} (m : Step S A) (f : A → Step S B)
      → Triple Cut P R E m
      → ((a : A) → Triple Cut (R a) Q E (f a))
      → Triple Cut P Q E (m >>= f)
  Triple-bind m f t k = record { at = λ s p. Ends-continue (m s) f (t.at s p) k }

  pub Triple-attempt :
      {A : Type 0} {Q : A → S → Type 0} (r : Result A AcmeError)
      → ((a : A) (s : S) → r ≡ ok a → P s → Q a s)
      → ((s : S) → P s → E s)
      → Triple Cut P Q E (attempt r)
  Triple-attempt (ok a) q e = record { at = λ s p. q a s refl p }
  Triple-attempt (err x) q e = record { at = λ s p. e s p }

module _ {S A : Type 0} {Cut : Type 0} {P E : S → Type 0} {Q : A → S → Type 0} where
  pub Triple-if :
      (b : Bool) (m n : Step S A)
      → (b ≡ true → Triple Cut P Q E m)
      → (b ≡ false → Triple Cut P Q E n)
      → Triple Cut P Q E (if b then m else n)
  Triple-if true m n t u = t refl
  Triple-if false m n t u = u refl

module _ {W A : Type 0} (Cut : Type 0) (P : State W → Type 0) where
  Ends-Post : (o : Outcome (State W) A) → Post Cut P o → Ends Cut (λ _. P) P o
  Ends-Post (done a s) h = h
  Ends-Post (fails e s) h = h
  Ends-Post out_of_fuel h = h

  Post-Ends : (o : Outcome (State W) A) → Ends Cut (λ _. P) P o → Post Cut P o
  Post-Ends (done a s) h = h
  Post-Ends (fails e s) h = h
  Post-Ends out_of_fuel h = h

module _ {W : Type 0} {Cut : Type 0} {P : State W → Type 0} where
  -- An invariant is a condition that stands on all sides.
  pub Triple-Keeps : {A : Type 0} (m : Program W A) → Keeps Cut P m → Triple Cut P (λ _. P) P m
  Triple-Keeps m k = record { at = λ s p. Ends-Post Cut P (m s) (k.at s p) }

  pub Keeps-Triple : {A : Type 0} (m : Program W A) → Triple Cut P (λ _. P) P m → Keeps Cut P m
  Keeps-Triple m t = record { at = λ s p. Post-Ends Cut P (m s) (t.at s p) }
