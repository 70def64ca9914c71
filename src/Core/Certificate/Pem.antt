-- ===== src/Core/Certificate/Pem.antt =====
-- `split_pem_chain` and `find` of crates/core/src/certificate.rs.
use mathlib.Core.Option
use acme_wasm.Prelude.{
  ℕ, zero, suc, ◌+◌, ◌-◌, ◌||◌, Option, none, some, List, [], ◌∷◌, ◌++◌, ltb, leb, if◌then◌else◌,
  length, take, drop, is_empty, Bytes, text, ◌is◌, from_utf8,
}

abbrev pub begin_marker : Bytes
begin_marker = text "-----BEGIN CERTIFICATE-----"

abbrev pub end_marker : Bytes
end_marker = text "-----END CERTIFICATE-----"

-- `windows(needle.len()).position(|w| w == needle)`, for a needle that is not empty: the offset of
-- the first window that equals the needle
unfoldable pub position : Bytes → Bytes → Option ℕ
position needle [] = none
position needle (c ∷ rest) =
    if take (length needle) (c ∷ rest) is needle
    then some 0
    else elim (position needle rest) [ none ↦ none | some i ↦ some (suc i) ]

unfoldable pub find : Bytes → Bytes → ℕ → Option ℕ
unfolding position
find haystack needle from =
    if leb (length haystack) from || is_empty needle || ltb (length haystack - from) (length needle)
    then none
    else elim (position needle (drop from haystack)) [ none ↦ none | some off ↦ some (off + from) ]

-- `bytes[i..j].to_vec()`
abbrev slice : ℕ → ℕ → Bytes → Bytes
slice i j b = take (j - i) (drop i b)

-- the `while let` loop, on fuel: each round but the last moves the cursor on
unfoldable pub blocks_from : ℕ → Bytes → ℕ → Option (List Bytes)
unfolding find
blocks_from zero b cursor = none
blocks_from (suc fuel) b cursor = elim (find b begin_marker cursor) [
  | none ↦ some []
  | some begin_off ↦ elim (find b end_marker begin_off) [
    | none ↦ some []
    | some o ↦
        let end_off = o + length end_marker in
        let block = slice begin_off end_off b ++ 10 ∷ [] in
        Option.map (λ out. block ∷ out) (blocks_from fuel b end_off)
  ]
]

-- `none` would mean that the fuel ran out.
unfoldable pub split_pem_chain : Bytes → Option (List Bytes)
unfolding blocks_from
split_pem_chain pem = elim (from_utf8 pem) [
  | none ↦ some []
  | some b ↦ blocks_from (length b + 1) b 0
]
