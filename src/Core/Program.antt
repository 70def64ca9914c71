-- ===== src/Core/Program.antt =====
-- The client as a program: it acts on the nonce pool, which the account and its requests share,
-- and on the world outside (network, solvers, clock), and it may return an error with `?`.
pub mod Laws
pub mod Keeps
pub mod Yields
pub mod Triples
use acme_wasm.Prelude.{List, Text, Result, ok, err}
use acme_wasm.Core.Error.{AcmeError}

-- `pool` is the `Mutex<VecDeque<String>>` of the account's nonce store.
pub record State (W : Type 0) : Type 0 where
  pub pool : List Text
  pub world : W

-- How a run ends. `out_of_fuel` belongs to the model: a poll loop was cut off.
pub data Outcome (S A : Type 0) : Type 0 where
  done : A → S → Outcome S A
  fails : AcmeError → S → Outcome S A
  out_of_fuel : Outcome S A

-- A step from a state to the end of a run.
abbrev pub Step : Type 0 → Type 0 → Type 0
Step S A = S → Outcome S A

abbrev pub Program : Type 0 → Type 0 → Type 0
Program W A = Step (State W) A

module _ {S A : Type 0} where
  abbrev pub pure : A → Step S A
  pure a s = done a s

  abbrev pub throw : AcmeError → Step S A
  throw e s = fails e s

  -- `?` on the result of an action
  abbrev pub settled : Result A AcmeError → Step S A
  settled (ok a) s = done a s
  settled (err e) s = fails e s

  -- `?` on a computed result
  abbrev pub attempt : Result A AcmeError → Step S A
  attempt r s = settled r s

module _ {W A : Type 0} where
  abbrev pub settle : List Text → Result A AcmeError × W → Outcome (State W) A
  settle pool (r, w) = settled r (record { pool = pool; world = w })

  -- an action on the world, and `?`
  abbrev pub io : (W → Result A AcmeError × W) → Program W A
  io act s = settle s.pool (act s.world)

module _ {S A B : Type 0} where
  abbrev pub continue : Outcome S A → (A → Step S B) → Outcome S B
  continue (done a s) f = f a s
  continue (fails e s) f = fails e s
  continue out_of_fuel f = out_of_fuel

  infixl 5 ◌>>=◌ ◌>>◌
  abbrev pub ◌>>=◌ : Step S A → (A → Step S B) → Step S B
  ◌>>=◌ m f s = continue (m s) f

  abbrev pub ◌>>◌ : Step S A → Step S B → Step S B
  m >> n = m >>= λ _. n
