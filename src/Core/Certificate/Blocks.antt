-- ===== src/Core/Certificate/Blocks.antt =====
-- What the split of a PEM chain in crates/core/src/certificate.rs returns.
use mathlib.Core.Option
use mathlib.Core.Path
use acme_wasm.Prelude.{
  ℕ, zero, suc, ◌+◌, ◌-◌, ◌≤◌, ◌<◌, ◌≡◌, refl, ap, ◌∙◌, ◌⊎◌, inl, inr, Option, none, some, List, [],
  ◌∷◌, ◌++◌, arith, length, take, drop, Bytes, text, from_utf8,
}
use acme_wasm.Core.Certificate.Pem.{begin_marker, end_marker, find, blocks_from, split_pem_chain}
use acme_wasm.Core.Certificate.Markers.{Stands, Before, find-Stands, find-Before}

-- The marker stands at `i`, which is at or after `from`, and nowhere between the two.
pub record First (marker b : Bytes) (from i : ℕ) : Type 0 where
  pub at_or_after : from ≤ i
  pub stands : Stands marker b i
  pub none_earlier : (j : ℕ) → from ≤ j → j < i → ¬ Stands marker b j

-- The block is cut out of `b`, from the first begin marker at or after `cursor` up to and with the
-- first end marker at or after that, and a newline follows.
pub record Block (b : Bytes) (cursor : ℕ) (block : Bytes) : Type 0 where
  pub from : ℕ
  pub to : ℕ
  pub begins : First begin_marker b cursor from
  pub ends : First end_marker b from to
  pub cut : block ≡ take (to + length end_marker - from) (drop from b) ++ 10 ∷ []

-- The marker stands nowhere at or after `from`.
abbrev pub Absent : Bytes → Bytes → ℕ → Type 0
Absent marker b from = (j : ℕ) → from ≤ j → ¬ Stands marker b j

-- No begin marker is left, or no end marker after the first one that is.
abbrev pub Over : Bytes → ℕ → Type 0
Over b cursor =
    Absent begin_marker b cursor
    ⊎ ((from : ℕ) × First begin_marker b cursor from × Absent end_marker b from)

begin_marker-pos : 0 < length begin_marker
unfolding text
begin_marker-pos = omega arith

end_marker-pos : 0 < length end_marker
unfolding text
end_marker-pos = omega arith

find-First :
    (marker b : Bytes) (from i : ℕ)
    → 0 < length marker
    → find b marker from ≡ some i
    → First marker b from i
find-First marker b from i some_marker e =
    let (low, stands) = find-Stands b marker from i e in
    record {
      at_or_after = low;
      stands = stands;
      none_earlier = Path.subst (Before marker b from) e (find-Before marker some_marker b from);
    }

find-Absent :
    (marker b : Bytes) (from : ℕ)
    → 0 < length marker
    → find b marker from ≡ none
    → Absent marker b from
find-Absent marker b from some_marker e j low =
    Path.subst (Before marker b from) e (find-Before marker some_marker b from) j low tt

-- The blocks that follow one another from a cursor on, to the last.
pub data Chain (b : Bytes) : ℕ → List Bytes → Type 0 where
  finish : (cursor : ℕ) → Over b cursor → Chain b cursor []
  block :
      (cursor next : ℕ) (one : Bytes) (rest : List Bytes)
      → (cut : Block b cursor one) → next ≡ cut.to + length end_marker
      → Chain b next rest
      → Chain b cursor (one ∷ rest)

-- the rest of a round, from what `find` returned
abbrev on_end : ℕ → Bytes → ℕ → Option ℕ → Option (List Bytes)
on_end fuel b from none = some []
on_end fuel b from (some to) =
    Option.map (λ out. (take (to + length end_marker - from) (drop from b) ++ 10 ∷ []) ∷ out)
      (blocks_from fuel b (to + length end_marker))

abbrev on_begin : ℕ → Bytes → Option ℕ → Option (List Bytes)
on_begin fuel b none = some []
on_begin fuel b (some from) = on_end fuel b from (find b end_marker from)

end_cases :
    (fuel : ℕ) (b : Bytes) (from : ℕ) (o : Option ℕ)
    → elim o [
      | none ↦ some []
      | some to ↦
          Option.map
            (λ out. (take (to + length end_marker - from) (drop from b) ++ 10 ∷ []) ∷ out)
            (blocks_from fuel b (to + length end_marker))
    ]
      ≡ on_end fuel b from o
end_cases fuel b from none = refl
end_cases fuel b from (some to) = refl

begin_cases :
    (fuel : ℕ) (b : Bytes) (o : Option ℕ)
    → elim o [
      | none ↦ some []
      | some from ↦ elim (find b end_marker from) [
        | none ↦ some []
        | some to ↦
            Option.map
              (λ out. (take (to + length end_marker - from) (drop from b) ++ 10 ∷ []) ∷ out)
              (blocks_from fuel b (to + length end_marker))
      ]
    ]
      ≡ on_begin fuel b o
begin_cases fuel b none = refl
begin_cases fuel b (some from) = end_cases fuel b from (find b end_marker from)

blocks_from-suc :
    (fuel : ℕ) (b : Bytes) (cursor : ℕ)
    → blocks_from (suc fuel) b cursor ≡ on_begin fuel b (find b begin_marker cursor)
unfolding blocks_from
blocks_from-suc fuel b cursor = begin_cases fuel b (find b begin_marker cursor)

abbrev pub Good : Bytes → ℕ → Option (List Bytes) → Type 0
Good b cursor o = (out : List Bytes) × (o ≡ some out) × Chain b cursor out

end_on :
    (fuel : ℕ) (b : Bytes) (cursor from : ℕ) (to : Option ℕ)
    → find b begin_marker cursor ≡ some from
    → find b end_marker from ≡ to
    → ((next : ℕ) → cursor < next → next ≤ length b → Good b next (blocks_from fuel b next))
    → Good b cursor (on_end fuel b from to)
end_on fuel b cursor from none f g rec = (
  [],
  refl,
  finish cursor (
      inr (
        from,
        find-First begin_marker b cursor from begin_marker-pos f,
        find-Absent end_marker b from end_marker-pos g,
      )),
)
end_on fuel b cursor from (some to) f g rec =
    let begins = find-First begin_marker b cursor from begin_marker-pos f in
    let ends = find-First end_marker b from to end_marker-pos g in
    let (out, run, chain) =
      rec (to + length end_marker)
        (omega (arith, begins.at_or_after, ends.at_or_after, end_marker-pos)) ends.stands.inside in
    let one = take (to + length end_marker - from) (drop from b) ++ 10 ∷ [] in
    (
      one ∷ out,
      ap (Option.map (λ rest. one ∷ rest)) run,
      block cursor (to + length end_marker) one out
          (record { from = from; to = to; begins = begins; ends = ends; cut = refl }) refl chain,
    )

begin_on :
    (fuel : ℕ) (b : Bytes) (cursor : ℕ) (from : Option ℕ)
    → find b begin_marker cursor ≡ from
    → ((next : ℕ) → cursor < next → next ≤ length b → Good b next (blocks_from fuel b next))
    → Good b cursor (on_begin fuel b from)
begin_on fuel b cursor none f rec =
    ([], refl, finish cursor (inl (find-Absent begin_marker b cursor begin_marker-pos f)))
begin_on fuel b cursor (some from) f rec =
    end_on fuel b cursor from (find b end_marker from) f refl rec

pub blocks_from-Chain :
    (fuel : ℕ) (b : Bytes) (cursor : ℕ)
    → cursor ≤ length b
    → length b < cursor + fuel
    → Good b cursor (blocks_from fuel b cursor)
blocks_from-Chain zero b cursor h enough = absurd (omega arith)
blocks_from-Chain (suc fuel) b cursor h enough =
    let good =
      begin_on fuel b cursor (find b begin_marker cursor) refl
        (λ next later inside. blocks_from-Chain fuel b next inside (omega arith)) in
    (good.0, blocks_from-suc fuel b cursor ∙ good.1, good.2)

-- The split of a text ends, whatever the text: it returns the blocks of the text one after the other,
-- each from the first begin marker after the block before it up to and with the first end marker after
-- that, with a newline added, until no begin marker is left, or no end marker after the first one.
pub split_pem_chain-Chain :
    (pem b : Bytes)
    → from_utf8 pem ≡ some b
    → (out : List Bytes) × (split_pem_chain pem ≡ some out) × Chain b 0 out
unfolding split_pem_chain
split_pem_chain-Chain pem b e =
    let good = blocks_from-Chain (length b + 1) b 0 (omega arith) (omega arith) in
    (
      good.0,
      ap (λ o. elim o [ none ↦ some [] | some t ↦ blocks_from (length t + 1) t 0 ]) e ∙ good.1,
      good.2,
    )
