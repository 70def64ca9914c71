-- ===== src/Harness/Pebble/Trust/Laws.antt =====
-- The two readers of a PEM bundle: the one of crates/testing/src/lib.rs against the one of
-- crates/core/src/certificate.rs.
use mathlib.Core.Option
use acme_wasm.Prelude.{
  ℕ, zero, suc, ◌+◌, ◌-◌, ◌<◌, ◌≡◌, refl, sym, ap, ◌∙◌, Bool, true, false, ◌||◌, Option, none, some,
  List, [], ◌∷◌, ◌++◌, arith, ltb, leb, if◌then◌else◌, ltb→lt, leb→le, length, take, drop, is_empty,
  length-drop, Bytes, text, from_utf8,
}
use acme_wasm.Core.Certificate.Pem.{
  begin_marker, end_marker, position, find, blocks_from, split_pem_chain,
}
use acme_wasm.Core.Certificate.Markers.{position-Stands}
use acme_wasm.Core.Certificate.Blocks.{blocks_from-Chain}
use acme_wasm.Harness.Pebble.Trust.{certs_from, or_whole, split_pem_certs}

abbrev shifted_by : ℕ → Option ℕ → Option ℕ
shifted_by from none = none
shifted_by from (some off) = some (off + from)

-- A needle does not stand in less than its length.
position-short :
    (needle h : Bytes) (o : Option ℕ) → length h < length needle → position needle h ≡ o → o ≡ none
position-short needle h none short e = refl
position-short needle h (some i) short e =
    absurd (omega (arith, (position-Stands needle h i e).inside, short))

refused :
    (b : Bool) (o : Option ℕ) (from : ℕ)
    → (b ≡ true → o ≡ none)
    → (if b then none else elim o [ none ↦ none | some off ↦ some (off + from) ])
      ≡ shifted_by from o
refused true o from none_if = ap (shifted_by from) (sym (none_if refl))
refused false none from none_if = refl
refused false (some off) from none_if = refl

or_true :
    (a b c : Bool) {A : Type 0}
    → (a || b || c) ≡ true
    → (a ≡ true → A)
    → (b ≡ true → A)
    → (c ≡ true → A)
    → A
or_true true b c e f g h = f refl
or_true false true c e f g h = g refl
or_true false false true e f g h = h refl
or_true false false false e f g h = absurd cc

nonempty_pos : (needle : Bytes) → is_empty needle ≡ false → 0 < length needle
nonempty_pos [] e = absurd cc
nonempty_pos (c ∷ needle) e = omega arith

too_short :
    (h needle : Bytes) (from : ℕ)
    → is_empty needle ≡ false
    → (leb (length h) from || is_empty needle || ltb (length h - from) (length needle)) ≡ true
    → length (drop from h) < length needle
too_short h needle from nonempty e =
    or_true (leb (length h) from) (is_empty needle) (ltb (length h - from) (length needle)) e
      (λ past.
        omega
          (arith, leb→le (length h) from past, length-drop from h, nonempty_pos needle nonempty))
      (λ empty. absurd cc)
      (λ short. omega (arith, ltb→lt (length h - from) (length needle) short, length-drop from h))

-- `find` is the search in the rest of the text.
find-position :
    (h needle : Bytes) (from : ℕ)
    → is_empty needle ≡ false
    → find h needle from ≡ shifted_by from (position needle (drop from h))
unfolding find
find-position h needle from nonempty =
    refused (leb (length h) from || is_empty needle || ltb (length h - from) (length needle))
      (position needle (drop from h)) from
      λ e.
        position-short needle (drop from h) (position needle (drop from h))
          (too_short h needle from nonempty e) refl

abbrev cut : Bytes → ℕ → ℕ → Bytes
cut b from to = take (to - from) (drop from b) ++ 10 ∷ []

ends_alike :
    (fuel : ℕ) (b : Bytes) (from : ℕ) (o : Option ℕ)
    → ((next : ℕ) → certs_from fuel b next ≡ blocks_from fuel b next)
    → (elim o [
      | none ↦ some []
      | some off ↦
          Option.map
            (λ out. cut b from (from + off + length end_marker) ∷ out)
            (certs_from fuel b (from + off + length end_marker))
    ])
      ≡ (elim (shifted_by from o) [
        | none ↦ some []
        | some at ↦
            Option.map
              (λ out. cut b from (at + length end_marker) ∷ out)
              (blocks_from fuel b (at + length end_marker))
      ])
ends_alike fuel b from none rec = refl
ends_alike fuel b from (some off) rec =
    let same : from + off + length end_marker ≡ off + from + length end_marker = omega arith in
    ap (λ to. Option.map (λ out. cut b from to ∷ out) (certs_from fuel b to)) same
    ∙ ap (Option.map (λ out. cut b from (off + from + length end_marker) ∷ out))
        (rec (off + from + length end_marker))

begin_marker-nonempty : is_empty begin_marker ≡ false
unfolding text
begin_marker-nonempty = refl

end_marker-nonempty : is_empty end_marker ≡ false
unfolding text
end_marker-nonempty = refl

certs_from-blocks_from :
    (fuel : ℕ) (b : Bytes) (cursor : ℕ) → certs_from fuel b cursor ≡ blocks_from fuel b cursor
unfolding certs_from blocks_from
certs_from-blocks_from zero b cursor = refl
certs_from-blocks_from (suc fuel) b cursor =
    begins_alike (certs_from-blocks_from fuel b) (position begin_marker (drop cursor b))
    ∙ ap
        (λ o. elim o [
          | none ↦ some []
          | some from ↦ elim (find b end_marker from) [
            | none ↦ some []
            | some at ↦
                Option.map (λ out. cut b from (at + length end_marker) ∷ out)
                  (blocks_from fuel b (at + length end_marker))
          ]
        ])
        (sym (find-position b begin_marker cursor begin_marker-nonempty))
  where
    begins_alike :
        ((next : ℕ) → certs_from fuel b next ≡ blocks_from fuel b next)
        → (o : Option ℕ)
        → (elim o [
          | none ↦ some []
          | some at ↦ elim (position end_marker (drop (at + cursor) b)) [
            | none ↦ some []
            | some off ↦
                Option.map
                  (λ out. cut b (at + cursor) (at + cursor + off + length end_marker) ∷ out)
                  (certs_from fuel b (at + cursor + off + length end_marker))
          ]
        ])
          ≡ (elim (shifted_by cursor o) [
            | none ↦ some []
            | some from ↦ elim (find b end_marker from) [
              | none ↦ some []
              | some at ↦
                  Option.map
                    (λ out. cut b from (at + length end_marker) ∷ out)
                    (blocks_from fuel b (at + length end_marker))
            ]
          ])
    begins_alike rec none = refl
    begins_alike rec (some at) =
        ends_alike fuel b (at + cursor) (position end_marker (drop (at + cursor) b)) rec
        ∙ ap
            (λ o. elim o [
              | none ↦ some []
              | some to ↦
                  Option.map (λ out. cut b (at + cursor) (to + length end_marker) ∷ out)
                    (blocks_from fuel b (to + length end_marker))
            ])
            (sym (find-position b end_marker (at + cursor) end_marker-nonempty))

-- The split ends on every input.
pub split_pem_certs_total :
    (pem : Bytes) → (certs : List Bytes) × (split_pem_certs pem ≡ some certs)
unfolding split_pem_certs
split_pem_certs_total pem =
    let good = blocks_from-Chain (length pem + 1) pem 0 (omega arith) (omega arith) in
    (
      or_whole pem good.0,
      ap (Option.map (or_whole pem)) (certs_from-blocks_from (length pem + 1) pem 0 ∙ good.1),
    )

-- On a text, the two splits of a PEM bundle return the same blocks, and both end; where there is no
-- block, the harness takes the whole text for a certificate.
pub split_pem_certs-split_pem_chain :
    (pem b : Bytes)
    → from_utf8 pem ≡ some b
    → (blocks : List Bytes) × (split_pem_chain pem ≡ some blocks)
      × (split_pem_certs b ≡ some (or_whole b blocks))
unfolding split_pem_chain split_pem_certs
split_pem_certs-split_pem_chain pem b e =
    let good = blocks_from-Chain (length b + 1) b 0 (omega arith) (omega arith) in
    (
      good.0,
      ap (λ o. elim o [ none ↦ some [] | some t ↦ blocks_from (length t + 1) t 0 ]) e ∙ good.1,
      ap (Option.map (or_whole b)) (certs_from-blocks_from (length b + 1) b 0 ∙ good.1),
    )
