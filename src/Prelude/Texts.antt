-- ===== src/Prelude/Texts.antt =====
-- `str`, `String` and `[u8]`: a text is the list of its UTF-8 bytes, as in the source's memory
-- model. Literals are ASCII and stay shut, so that they do not spread out in goals.
use Prim.Native.Nat.{ℕ, zero, suc, ◌+◌, ◌-◌, ◌/◌, ◌%◌}
use Prim.Native.Char.{code}
use Prim.Native.String.{String}
use mathlib.Core.Path.{◌≡◌, refl}
use mathlib.Core.Logic.{◌↔◌}
use mathlib.Core.Bool.{Bool, true, false, ◌&&◌, ◌||◌}
use mathlib.Core.List.{List, [], ◌∷◌, ◌++◌, map}
use mathlib.Core.Option.{Option, none, some}
use native.Mathlib.Omega.{arith}
use acme_wasm.Prelude.Lists.{length, take, is_empty, any}
use acme_wasm.Prelude.Tests.{ltb, leb, ◌==◌, if◌then◌else◌}

abbrev pub Bytes : Type 0
Bytes = List ℕ

abbrev pub Text : Type 0
Text = List ℕ

abbrev codes : String → Text
codes String.[] = []
codes (String.◌∷◌ c s) = code c ∷ codes s

unfoldable pub text : String → Text
text s = codes s

-- `==` on texts and on byte slices
infix 50 ◌is◌
unfoldable pub ◌is◌ : Text → Text → Bool
[] is [] = true
(a ∷ s) is (b ∷ t) = a == b && s is t
_ is _ = false

pub is_iff : (s t : Text) → ((s is t) ≡ true) ↔ (s ≡ t)
unfolding ◌is◌
is_iff [] [] = ground arith
is_iff [] (b ∷ t) = ground arith
is_iff (a ∷ s) [] = ground arith
is_iff (a ∷ s) (b ∷ t) = ground (arith, is_iff s t)

pub is_refl : (s : Text) → (s is s) ≡ true
is_refl s = (is_iff s s).1 refl

-- `strip_prefix`
unfoldable pub strip_prefix : Text → Text → Option Text
strip_prefix [] s = some s
strip_prefix (p ∷ ps) [] = none
strip_prefix (p ∷ ps) (c ∷ s) = if p == c then strip_prefix ps s else none

pub strip_prefix-append : (p s : Text) → strip_prefix p (p ++ s) ≡ some s
unfolding strip_prefix
strip_prefix-append [] s = refl
strip_prefix-append (c ∷ p) s = ground (arith, strip_prefix-append p s)

pub strip_prefix-eq-some : (p s r : Text) → strip_prefix p s ≡ some r → s ≡ p ++ r
unfolding strip_prefix
strip_prefix-eq-some [] s r h = ground arith
strip_prefix-eq-some (c ∷ p) [] r h = cc
strip_prefix-eq-some (c ∷ p) (d ∷ s) r h = ground (arith, strip_prefix-eq-some p s r)

-- `contains`
unfoldable pub contains : Text → Text → Bool
unfolding ◌is◌
contains needle [] = is_empty needle
contains needle (c ∷ s) = (take (length needle) (c ∷ s) is needle) || contains needle s

-- `to_ascii_lowercase` of a byte
unfoldable pub to_lower : ℕ → ℕ
to_lower c = if leb b'A' c && leb c b'Z' then c + 32 else c

-- `eq_ignore_ascii_case`
unfoldable pub eq_ignore_ascii_case : Text → Text → Bool
unfolding to_lower ◌is◌
eq_ignore_ascii_case s t = map to_lower s is map to_lower t

-- the bytes before and after the first `sep`
unfoldable pub split_once : ℕ → Text → Option (Text × Text)
split_once sep [] = none
split_once sep (c ∷ s) =
    if c == sep
    then some ([], s)
    else elim (split_once sep s) [ none ↦ none | some (a, b) ↦ some (c ∷ a, b) ]

-- `split(sep).next()`: there is always a first piece
unfoldable pub before : ℕ → Text → Text
before sep [] = []
before sep (c ∷ s) = if c == sep then [] else c ∷ before sep s

pub before-append :
    (sep : ℕ) (s r : Text) → any (λ c. c == sep) s ≡ false → before sep (s ++ sep ∷ r) ≡ s
unfolding before
before-append sep [] r h = ground arith
before-append sep (c ∷ s) r h = ground (arith, before-append sep s r)

-- The bytes of the white-space character at the head of a text, 0 if there is none: the characters
-- that Rust's `char::is_whitespace` accepts, in UTF-8.
unfoldable pub space_width : Text → ℕ
space_width (c ∷ d ∷ e ∷ s) =
    if (leb 9 c && leb c 13) || c == 32
    then 1
    else if c == 0xC2 && (d == 0x85 || d == 0xA0)
    then 2
    else if c == 0xE1 && d == 0x9A && e == 0x80
    then 3
    else if c == 0xE2 && d == 0x80 && (leb e 0x8A || e == 0xA8 || e == 0xA9 || e == 0xAF)
    then 3
    else if (c == 0xE2 && d == 0x81 && e == 0x9F) || (c == 0xE3 && d == 0x80 && e == 0x80)
    then 3
    else 0
space_width (c ∷ d ∷ []) =
    if (leb 9 c && leb c 13) || c == 32
    then 1
    else if c == 0xC2 && (d == 0x85 || d == 0xA0)
    then 2
    else 0
space_width (c ∷ []) = if (leb 9 c && leb c 13) || c == 32 then 1 else 0
space_width [] = 0

-- The first argument counts the bytes of a white-space character that are still to be dropped.
trim_from : ℕ → Text → Text
trim_from n [] = []
trim_from (suc n) (c ∷ s) = trim_from n s
trim_from zero (c ∷ s) =
    let rest = trim_from (space_width (c ∷ s) - 1) s in
    if space_width (c ∷ s) == 0 then c ∷ s else rest

unfoldable pub trim_start : Text → Text
unfolding trim_from space_width
trim_start s = trim_from 0 s

-- What follows is dropped from where only white space is left.
unfoldable pub trim_end : Text → Text
unfolding trim_start
trim_end [] = []
trim_end (c ∷ s) = let rest = trim_end s in if is_empty (trim_start (c ∷ s)) then [] else c ∷ rest

-- `trim`
unfoldable pub trim : Text → Text
unfolding trim_start trim_end
trim s = trim_end (trim_start s)

decimal_digits : ℕ → ℕ → Text → Text
decimal_digits zero n acc = acc
decimal_digits (suc f) n acc =
    let rest = decimal_digits f (n / 10) ((b'0' + n % 10) ∷ acc) in
    if ltb n 10 then (b'0' + n % 10) ∷ acc else rest

-- an unsigned number under `{}`
unfoldable pub decimal : ℕ → Text
unfolding decimal_digits
decimal n = decimal_digits (suc n) n []

-- `join(sep)`
unfoldable pub join : Text → List Text → Text
join sep [] = []
join sep (s ∷ []) = s
join sep (s ∷ t ∷ r) = s ++ sep ++ join sep (t ∷ r)

pub split_once-append :
    (sep : ℕ) (s r : Text)
    → any (λ c. c == sep) s ≡ false
    → split_once sep (s ++ sep ∷ r) ≡ some (s, r)
unfolding split_once
split_once-append sep [] r h = ground arith
split_once-append sep (c ∷ s) r h = ground (arith, split_once-append sep s r)
