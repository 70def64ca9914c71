-- ===== src/Harness/Pebble/Spawn/Gives.antt =====
-- Runs of the harness in crates/testing/src/lib.rs that return a value from every state.
use mathlib.Core.Path
use acme_wasm.Prelude.{◌≡◌, refl, sym, ap, ◌∙◌, drop, ok}
use acme_wasm.Harness.Pebble.Host.{
  Ending, returns, Call, Run, settled, act, on_errs, or_drop, continue, ◌>>=◌,
}

-- From every state, the run returns the value.
pub record Gives {W A : Type 0} (run : Run W A) (a : A) : Type 0 where
  pub at : (w : W) → (next : W) × (run w ≡ returns a next)

pub Gives-bind :
    {W A B : Type 0} {b : B} (m : Run W A) (f : A → Run W B) (a : A)
    → Gives m a
    → ((x : A) → x ≡ a → Gives (f x) b)
    → Gives (m >>= f) b
Gives-bind m f a g h = record {
  at = λ w.
      let (next, e) = g.at w in
      let (last, end) = (h a refl).at next in (last, ap (λ r. continue r f) e ∙ end);
}

-- What holds of the end of what follows holds of the end of the whole.
pub Gives-then :
    {W A B : Type 0} (P : Ending W B → Type 0) (m : Run W A) (f : A → Run W B) (a : A)
    → Gives m a
    → ((next : W) → P (f a next))
    → (w : W) → P ((m >>= f) w)
Gives-then P m f a g h w =
    let (next, e) = g.at w in Path.subst P (sym (ap (λ r. continue r f) e)) (h next)

pub Gives-or_drop :
    {W A : Type 0} (drop : W → W) (m : Run W A) (a : A) → Gives m a → Gives (or_drop drop m) a
Gives-or_drop drop m a g = record {
  at = λ w. let (next, e) = g.at w in (next, ap (λ r. on_errs r drop) e);
}

pub Gives-act :
    {W A : Type 0} (call : Call W A) (a : A) → ((w : W) → (call w).0 ≡ ok a) → Gives (act call) a
Gives-act call a e = record { at = λ w. ((call w).1, ap (λ r. settled (r, (call w).1)) (e w)) }
