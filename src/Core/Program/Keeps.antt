-- ===== src/Core/Program/Keeps.antt =====
-- Invariants of programs: one rule for each way to build a program.
use acme_wasm.Prelude.{ap, ◌≡◌, refl, Bool, true, false, List, if◌then◌else◌, Text, Result, ok, err}
use acme_wasm.Core.Error.{AcmeError}
use acme_wasm.Core.Program.{
  State, Outcome, done, fails, out_of_fuel, Program, pure, throw, attempt, settle, io, continue,
  ◌>>=◌,
}

-- The state in which a run ends, also by an error, satisfies `P`. `Cut` is what is known of a run
-- that is cut off: `⊥` for total correctness, `Unit` for partial correctness.
abbrev pub Post : {W A : Type 0} → Type 0 → (State W → Type 0) → Outcome (State W) A → Type 0
Post Cut P (done a s) = P s
Post Cut P (fails e s) = P s
Post Cut P out_of_fuel = Cut

pub record Keeps {W A : Type 0} (Cut : Type 0) (P : State W → Type 0) (m : Program W A)
    : Type 0 where
  pub at : (s : State W) → P s → Post Cut P (m s)

-- An action on the world keeps `P`, with any pool.
pub record Calm {W A : Type 0} (P : State W → Type 0) (act : W → A × W) : Type 0 where
  pub at : (s : State W) → P s → P (record s { world = (act s.world).1 })

module _ {W : Type 0} (Cut : Type 0) (P : State W → Type 0) where
  settle_lem :
      {A : Type 0} (pool : List Text) (f : Result A AcmeError × W)
      → P (record { pool = pool; world = f.1 })
      → Post Cut P (settle pool f)
  settle_lem pool (ok a, w) h = h
  settle_lem pool (err e, w) h = h

module _ {W : Type 0} {Cut : Type 0} {P : State W → Type 0} where
  pub Keeps-pure : {A : Type 0} (a : A) → Keeps Cut P (pure {S = State W} a)
  Keeps-pure a = record { at = λ s h. h }

  pub Keeps-throw : {A : Type 0} (e : AcmeError) → Keeps Cut P (throw {S = State W} {A = A} e)
  Keeps-throw e = record { at = λ s h. h }

  pub Keeps-attempt : {A : Type 0} (r : Result A AcmeError) → Keeps Cut P (attempt {S = State W} r)
  Keeps-attempt (ok a) = record { at = λ s h. h }
  Keeps-attempt (err e) = record { at = λ s h. h }

  pub Keeps-io : {A : Type 0} (act : W → Result A AcmeError × W) → Calm P act → Keeps Cut P (io act)
  Keeps-io act calm = record { at = λ s h. settle_lem Cut P s.pool (act s.world) (calm.at s h) }

  continue_lem :
      {A B : Type 0} (o : Outcome (State W) A) (f : A → Program W B)
      → Post Cut P o
      → ((a : A) → Keeps Cut P (f a))
      → Post Cut P (continue o f)
  continue_lem (done a s) f h k = (k a).at s h
  continue_lem (fails e s) f h k = h
  continue_lem out_of_fuel f h k = h

  pub Keeps-bind :
      {A B : Type 0} (m : Program W A) (f : A → Program W B)
      → Keeps Cut P m
      → ((a : A) → Keeps Cut P (f a))
      → Keeps Cut P (m >>= f)
  Keeps-bind m f km kf = record { at = λ s h. continue_lem (m s) f (km.at s h) kf }

  pub Keeps-if :
      {A : Type 0} (b : Bool) (m n : Program W A)
      → Keeps Cut P m
      → Keeps Cut P n
      → Keeps Cut P (if b then m else n)
  Keeps-if true m n km kn = km
  Keeps-if false m n km kn = kn

  -- The rest of the program may use what a run of the first part returned.
  pub Keeps-bind_run :
      {A B : Type 0} (m : Program W A) (f : A → Program W B)
      → Keeps Cut P m
      → ((a : A) (s t : State W) → m s ≡ done a t → Keeps Cut P (f a))
      → Keeps Cut P (m >>= f)
  Keeps-bind_run {A} {B} m f km kf = record { at = λ s h. on_run (m s) s refl (km.at s h) }
    where
      on_run :
          (o : Outcome (State W) A) (s : State W)
          → m s ≡ o
          → Post Cut P o
          → Post Cut P (continue o f)
      on_run (done a t) s e h = (kf a s t e).at t h
      on_run (fails x t) s e h = h
      on_run out_of_fuel s e h = h

pub ruleset keeps_rules = (Keeps-pure, Keeps-throw, Keeps-attempt, Keeps-io, Keeps-bind, Keeps-if)

module _ {W : Type 0} {Cut : Type 0} {P : State W → Type 0} {A B : Type 0} where
  pub Keeps-attempt_ok :
      (r : Result A AcmeError) (f : A → Program W B)
      → ((a : A) → r ≡ ok a → Keeps Cut P (f a))
      → Keeps Cut P (attempt r >>= f)
  Keeps-attempt_ok (ok a) f k = k a refl
  Keeps-attempt_ok (err e) f k = Keeps-throw e

  pub Keeps-io_ok :
      (act : W → Result A AcmeError × W) (f : A → Program W B)
      → Calm P act
      → ((a : A) (w : W) → (act w).0 ≡ ok a → Keeps Cut P (f a))
      → Keeps Cut P (io act >>= f)
  Keeps-io_ok act f calm k = record {
    at = λ s h. on_act s.pool s.world (act s.world) refl (calm.at s h);
  }
    where
      on_act :
          (pool : List Text) (w : W) (out : Result A AcmeError × W)
          → act w ≡ out
          → P (record { pool = pool; world = out.1 })
          → Post Cut P (continue (settle pool out) f)
      on_act pool w (ok a, w') e h =
          (k a w (ap (λ out. out.0) e)).at (record { pool = pool; world = w' }) h
      on_act pool w (err x, w') e h = h
