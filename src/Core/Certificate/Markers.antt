-- ===== src/Core/Certificate/Markers.antt =====
-- Where `find` of crates/core/src/certificate.rs finds a marker.
use mathlib.Core.Path
use acme_wasm.Prelude.{
  ℕ, zero, suc, ◌+◌, ◌-◌, ◌≤◌, ◌<◌, ◌≡◌, refl, sym, ap, ◌∙◌, Bool, true, false, ◌||◌, Option, none,
  some, [], ◌∷◌, arith, ltb, leb, if◌then◌else◌, leb-eq-false, length, take, drop, is_empty,
  length-take, length-drop, Bytes, ◌is◌, is_iff,
}
use acme_wasm.Core.Certificate.Pem.{position, find}

-- The marker stands at offset `i`.
pub record Stands (marker b : Bytes) (i : ℕ) : Type 0 where
  pub reads : take (length marker) (drop i b) ≡ marker
  pub inside : i + length marker ≤ length b

take-eq-length : (needle h : Bytes) → take (length needle) h ≡ needle → length needle ≤ length h
take-eq-length needle h e = omega (arith, length-take (length needle) h, ap length e)

abbrev shifted : Option ℕ → Option ℕ
shifted none = none
shifted (some i) = some (suc i)

position_on :
    (needle h : Bytes) (x i : ℕ) (here : Bool) (rest : Option ℕ)
    → (take (length needle) (x ∷ h) is needle) ≡ here
    → ((j : ℕ) → rest ≡ some j → Stands needle h j)
    → (if here then some 0 else elim rest [ none ↦ none | some j ↦ some (suc j) ]) ≡ some i
    → Stands needle (x ∷ h) i
position_on needle h x i true rest e rec found =
    let here = (is_iff (take (length needle) (x ∷ h)) needle).0 e in
    let at : 0 ≡ i = cc in
    Path.subst (Stands needle (x ∷ h)) at
      (record { reads = here; inside = omega (arith, take-eq-length needle (x ∷ h) here) })
position_on needle h x i false none e rec found = absurd cc
position_on needle h x i false (some j) e rec found =
    let at : suc j ≡ i = cc in
    let later = rec j refl in
    Path.subst (Stands needle (x ∷ h)) at
      (record { reads = later.reads; inside = omega (arith, later.inside) })

pub position-Stands : (needle h : Bytes) (i : ℕ) → position needle h ≡ some i → Stands needle h i
unfolding position
position-Stands needle [] i e = absurd cc
position-Stands needle (x ∷ h) i e =
    position_on needle h x i (take (length needle) (x ∷ h) is needle) (position needle h) refl
      (position-Stands needle h) e

succ_add : (n m : ℕ) → suc (n + m) ≡ n + suc m
succ_add n m = omega arith

drop-nil : (n : ℕ) → [] ≡ drop {A = ℕ} n []
drop-nil zero = refl
drop-nil (suc n) = refl

drop-drop : (m n : ℕ) (h : Bytes) → drop n (drop m h) ≡ drop (n + m) h
drop-drop zero n h = ap (λ k. drop k h) (omega arith)
drop-drop (suc m) n [] = sym (drop-nil n) ∙ drop-nil (n + suc m)
drop-drop (suc m) n (x ∷ h) = drop-drop m n h ∙ ap (λ k. drop k (x ∷ h)) (succ_add n m)

or-eq-false : (a b : Bool) → (a || b) ≡ false → a ≡ false
or-eq-false true b e = absurd cc
or-eq-false false b e = refl

find_on :
    (h needle : Bytes) (from i : ℕ) (off : Option ℕ) (refused : Bool)
    → (leb (length h) from || is_empty needle || ltb (length h - from) (length needle)) ≡ refused
    → position needle (drop from h) ≡ off
    → (if refused then none else elim off [ none ↦ none | some k ↦ some (k + from) ]) ≡ some i
    → (from ≤ i) × Stands needle h i
find_on h needle from i off true e p found = absurd cc
find_on h needle from i none false e p found = absurd cc
find_on h needle from i (some k) false e p found =
    let at : k + from ≡ i = cc in
    let stands = position-Stands needle (drop from h) k p in
    let in_range = leb-eq-false (length h) from (
      or-eq-false (leb (length h) from) (is_empty needle) (
        or-eq-false (leb (length h) from || is_empty needle) (ltb (length h - from) (length needle))
          e)) in
    let reads : take (length needle) (drop (k + from) h) ≡ needle =
      ap (λ t. take (length needle) t) (sym (drop-drop from k h)) ∙ stands.reads in
    (
      omega arith,
      Path.subst (Stands needle h) at (record {
        reads = reads;
        inside = omega (arith, stands.inside, length-drop from h, in_range);
      }),
    )

pub find-Stands :
    (h needle : Bytes) (from i : ℕ) → find h needle from ≡ some i → (from ≤ i) × Stands needle h i
unfolding find
find-Stands h needle from i e =
    find_on h needle from i (position needle (drop from h))
      (leb (length h) from || is_empty needle || ltb (length h - from) (length needle)) refl refl e

-- `j` is before the offset that was found, or nothing was found.
abbrev pub IsEarlier : Option ℕ → ℕ → Type 0
IsEarlier none j = Unit
IsEarlier (some i) j = j < i

-- The marker does not stand between `from` and the offset that was found, or nowhere from there on.
abbrev pub Before : Bytes → Bytes → ℕ → Option ℕ → Type 0
Before needle h from o = (j : ℕ) → from ≤ j → IsEarlier o j → ¬ Stands needle h j

position_none_earlier :
    (needle h : Bytes) (x : ℕ) (here : Bool) (rest : Option ℕ)
    → (take (length needle) (x ∷ h) is needle) ≡ here
    → Before needle h 0 rest
    → Before needle
        (x ∷ h)
        0
        (if here then some 0 else elim rest [ none ↦ none | some j ↦ some (suc j) ])
position_none_earlier needle h x true rest e rec j low high stands = omega (arith, high)
position_none_earlier needle h x false rest e rec zero low high stands =
    let here = (is_iff (take (length needle) (x ∷ h)) needle).1 stands.reads in absurd cc
position_none_earlier needle h x false none e rec (suc j) low high stands =
    rec j (omega arith) tt (record { reads = stands.reads; inside = omega (arith, stands.inside) })
position_none_earlier needle h x false (some i) e rec (suc j) low high stands =
    rec j (omega arith) (omega (arith, high))
      (record { reads = stands.reads; inside = omega (arith, stands.inside) })

position-Before :
    (needle : Bytes) → 0 < length needle → (h : Bytes) → Before needle h 0 (position needle h)
unfolding position
position-Before needle some_needle [] = λ j low high stands. omega (arith, stands.inside)
position-Before needle some_needle (x ∷ h) =
    position_none_earlier needle h x (take (length needle) (x ∷ h) is needle) (position needle h)
      refl (position-Before needle some_needle h)

-- What stands in the whole stands in what is left from an earlier offset on.
Stands-drop :
    (needle h : Bytes) (from j : ℕ)
    → from ≤ j
    → Stands needle h j
    → Stands needle (drop from h) (j - from)
Stands-drop needle h from j low stands = record {
  reads =
      ap (take (length needle)) (drop-drop from (j - from) h ∙ ap (λ k. drop k h) (omega arith))
      ∙ stands.reads;
  inside = omega (arith, stands.inside, length-drop from h);
}

-- With a needle that fits, `find` does not refuse to look.
not_refused :
    (needle h : Bytes) (from j : ℕ)
    → 0 < length needle
    → from ≤ j
    → Stands needle h j
    → (leb (length h) from || is_empty needle || ltb (length h - from) (length needle)) ≡ false
not_refused [] h from j some_needle low stands = absurd (omega arith)
not_refused (c ∷ needle) h from j some_needle low stands = ground (arith, stands.inside)

find_none_earlier :
    (needle h : Bytes) (from : ℕ) (off : Option ℕ) (refused : Bool)
    → 0 < length needle
    → (leb (length h) from || is_empty needle || ltb (length h - from) (length needle)) ≡ refused
    → Before needle (drop from h) 0 off
    → Before needle h from
        (if refused then none else elim off [ none ↦ none | some k ↦ some (k + from) ])
find_none_earlier needle h from off true some_needle e rec j low high stands =
    let not_so = not_refused needle h from j some_needle low stands in absurd cc
find_none_earlier needle h from none false some_needle e rec j low high stands =
    rec (j - from) (omega arith) tt (Stands-drop needle h from j low stands)
find_none_earlier needle h from (some k) false some_needle e rec j low high stands =
    rec (j - from) (omega arith) (omega (arith, high)) (Stands-drop needle h from j low stands)

pub find-Before :
    (needle : Bytes)
    → 0 < length needle
    → (h : Bytes) (from : ℕ) → Before needle h from (find h needle from)
unfolding find
find-Before needle some_needle h from =
    find_none_earlier needle h from (position needle (drop from h))
      (leb (length h) from || is_empty needle || ltb (length h - from) (length needle)) some_needle
      refl (position-Before needle some_needle (drop from h))
