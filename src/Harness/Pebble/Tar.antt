-- ===== src/Harness/Pebble/Tar.antt =====
-- `extract_first_tar_file` of crates/testing/src/lib.rs: the reader of the archive that `docker cp`
-- writes. `usize` has 64 bits.
pub mod Digits
pub mod Laws
use acme_wasm.Prelude.{
  ℕ, zero, suc, ◌+◌, ◌-◌, ◌*◌, ◌^◌, Bool, true, not, ◌&&◌, ◌||◌, Option, none, some, [], ◌∷◌, ltb,
  leb, ◌==◌, if◌then◌else◌, length, take, drop, Bytes, Text, space_width, trim, from_utf8,
}

-- `usize::MAX + 1`
abbrev pub usize_end : ℕ
usize_end = 2 ^ 64

-- `char::to_digit(8)`
unfoldable pub octal_digit : ℕ → Option ℕ
octal_digit c = if leb b'0' c && leb c b'7' then some (c - b'0') else none

-- The digits of `usize::from_str_radix(_, 8)`, each after the value so far; the product and the sum
-- are checked.
unfoldable pub octal_from : ℕ → Text → Option ℕ
unfolding octal_digit
octal_from n [] = some n
octal_from n (c ∷ s) = elim (octal_digit c) [
  | none ↦ none
  | some d ↦ let rest = octal_from (8 * n + d) s in if ltb (8 * n + d) usize_end then rest else none
]

-- `usize::from_str_radix(_, 8).ok()`: there is a digit, and a plus sign may stand before it.
unfoldable pub from_octal : Text → Option ℕ
unfolding octal_from
from_octal [] = none
from_octal (c ∷ []) = octal_from 0 (c ∷ [])
from_octal (c ∷ d ∷ s) = if c == b'+' then octal_from 0 (d ∷ s) else octal_from 0 (c ∷ d ∷ s)

-- Whether only NULs and white space are left. The first argument counts the bytes of a character
-- that are still to be passed.
unfoldable pub padding_from : ℕ → Text → Bool
padding_from n [] = true
padding_from (suc n) (c ∷ s) = padding_from n s
padding_from zero (c ∷ s) =
    (c == 0 && padding_from 0 s)
    || (not (space_width (c ∷ s) == 0) && padding_from (space_width (c ∷ s) - 1) s)

-- `trim_end_matches(|c| c == '\0' || c.is_whitespace())`
unfoldable pub trim_padding : Text → Text
unfolding padding_from
trim_padding [] = []
trim_padding (c ∷ s) = let rest = trim_padding s in if padding_from 0 (c ∷ s) then [] else c ∷ rest

-- The contents, once the size is known.
unfoldable pub contents : Bytes → ℕ → Option Bytes
contents tar size = if ltb (length tar) (512 + size) then none else some (take size (drop 512 tar))

unfoldable pub size_of : Bytes → Option ℕ
unfolding from_octal trim_padding
size_of tar = elim (from_utf8 (take 12 (drop 124 tar))) [
  | none ↦ none
  | some size_str ↦ from_octal (trim (trim_padding size_str))
]

unfoldable pub extract_first_tar_file : Bytes → Option Bytes
unfolding size_of contents
extract_first_tar_file tar =
    if ltb (length tar) 512
    then none
    else elim (size_of tar) [ none ↦ none | some size ↦ contents tar size ]
