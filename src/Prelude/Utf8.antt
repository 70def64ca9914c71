-- ===== src/Prelude/Utf8.antt =====
-- UTF-8 as Rust's standard library reads it: `str::from_utf8`, `String::from_utf8_lossy` and
-- `chars().take(n)`, over lists of bytes.
use Prim.Native.Nat.{ℕ, zero, suc, ◌+◌, ◌-◌, ◌≤◌}
use mathlib.Core.Path.{◌≡◌, refl, ap}
use mathlib.Core.Bool.{Bool, true, false, not, ◌&&◌}
use acme_wasm.Prelude.Lists.{any, any_cons, not-eq-false}
use mathlib.Core.List.{[], ◌∷◌, ◌++◌}
use mathlib.Core.Option.{Option, none, some}
use native.Mathlib.Omega.{arith}
use acme_wasm.Prelude.Tests.{◌==◌, leb, if◌then◌else◌, Bool-cases}
use mathlib.Core.Logic.{◌⊎◌, inl, inr}
use acme_wasm.Prelude.Texts.{Text, Bytes}

unfoldable pub is_continuation : ℕ → Bool
is_continuation c = leb 0x80 c && leb c 0xBF

-- the second byte that may follow the first byte of a character of three or four bytes
second_ok : ℕ → ℕ → Bool
unfolding is_continuation
second_ok c d =
    if c == 0xE0
    then leb 0xA0 d && leb d 0xBF
    else if c == 0xED
    then leb 0x80 d && leb d 0x9F
    else if c == 0xF0
    then leb 0x90 d && leb d 0xBF
    else if c == 0xF4
    then leb 0x80 d && leb d 0x8F
    else is_continuation d

abbrev byte_at : Text → ℕ → ℕ
byte_at [] i = 0
byte_at (c ∷ s) zero = c
byte_at (c ∷ s) (suc i) = byte_at s i

-- The head of a text: whether it is a well-formed character, and how many bytes it takes; of an
-- ill-formed head, how many bytes one replacement character stands for.
next_char : Text → Bool × ℕ
unfolding is_continuation second_ok
next_char s =
    let c = byte_at s 0 in
    let d = byte_at s 1 in
    let e = byte_at s 2 in
    let f = byte_at s 3 in
    if leb c 0x7F
    then (true, 1)
    else if leb 0xC2 c && leb c 0xDF
    then (is_continuation d, if is_continuation d then 2 else 1)
    else if leb 0xE0 c && leb c 0xEF
    then if second_ok c d
      then (is_continuation e, if is_continuation e then 3 else 2)
      else (false, 1)
    else if leb 0xF0 c && leb c 0xF4
    then if second_ok c d
      then if is_continuation e
        then (is_continuation f, if is_continuation f then 4 else 3)
        else (false, 2)
      else (false, 1)
    else (false, 1)

-- The first argument counts the bytes of the character at hand that are still to be passed.
valid_from : ℕ → Text → Bool
valid_from n [] = true
valid_from (suc n) (c ∷ s) = valid_from n s
valid_from zero (c ∷ s) = (next_char (c ∷ s)).0 && valid_from ((next_char (c ∷ s)).1 - 1) s

-- `str::from_utf8`
unfoldable pub from_utf8 : Bytes → Option Text
unfolding valid_from next_char
from_utf8 b = if valid_from 0 b then some b else none

ascii_char : (c : ℕ) (s : Text) → leb c 0x7F ≡ true → next_char (c ∷ s) ≡ (true, 1)
unfolding next_char
ascii_char c s h = rw h refl

ascii_valid : (s : Text) → any (λ c. not (leb c 0x7F)) s ≡ false → valid_from 0 s ≡ true
unfolding valid_from
ascii_valid [] h = refl
ascii_valid (c ∷ s) h =
    let (a, rest) = any_cons (λ c. not (leb c 0x7F)) c s h in
    rw (ascii_char c s (not-eq-false (leb c 0x7F) a)) (ascii_valid s rest)

-- ASCII is UTF-8.
pub from_utf8-ascii : (s : Text) → any (λ c. not (leb c 0x7F)) s ≡ false → from_utf8 s ≡ some s
unfolding from_utf8
from_utf8-ascii s h = rw (ascii_valid s h) refl

-- U+FFFD
abbrev replacement : Text
replacement = 0xEF ∷ 0xBF ∷ 0xBD ∷ []

lossy_from : Bool → ℕ → Bytes → Text
lossy_from keep n [] = []
lossy_from keep (suc n) (c ∷ s) = (if keep then c ∷ [] else []) ++ lossy_from keep n s
lossy_from keep zero (c ∷ s) =
    let (good, n) = next_char (c ∷ s) in
    (if good then c ∷ [] else replacement) ++ lossy_from good (n - 1) s

-- `String::from_utf8_lossy`
unfoldable pub from_utf8_lossy : Bytes → Text
unfolding lossy_from next_char
from_utf8_lossy b = lossy_from true 0 b

lossy_from-valid : (n : ℕ) (b : Bytes) → valid_from n b ≡ true → lossy_from true n b ≡ b
unfolding valid_from lossy_from
lossy_from-valid n [] h = refl
lossy_from-valid (suc n) (c ∷ s) h = ap (λ t. c ∷ t) (lossy_from-valid n s h)
lossy_from-valid zero (c ∷ s) h = ground (arith, lossy_from-valid ((next_char (c ∷ s)).1 - 1) s)

-- Well-formed bytes are not changed.
pub from_utf8_lossy-valid : (b : Bytes) {t : Text} → from_utf8 b ≡ some t → from_utf8_lossy b ≡ t
unfolding from_utf8 from_utf8_lossy
from_utf8_lossy-valid b h = ground (arith, lossy_from-valid 0 b)

-- `chars().count()`: every character has one byte that is no continuation.
unfoldable pub count_chars : Text → ℕ
unfolding is_continuation
count_chars [] = 0
count_chars (c ∷ s) = if is_continuation c then count_chars s else count_chars s + 1

-- `chars().take(n).collect()`
unfoldable pub take_chars : ℕ → Text → Text
unfolding is_continuation
take_chars n [] = []
take_chars zero (c ∷ s) = if is_continuation c then c ∷ take_chars zero s else []
take_chars (suc n) (c ∷ s) =
    if is_continuation c then c ∷ take_chars (suc n) s else c ∷ take_chars n s

pub take_chars_all : (n : ℕ) (s : Text) → count_chars s ≤ n → take_chars n s ≡ s
unfolding count_chars take_chars
take_chars_all n [] h = refl
take_chars_all zero (c ∷ s) h = ground (arith, take_chars_all zero s)
take_chars_all (suc n) (c ∷ s) h = ground (arith, take_chars_all (suc n) s, take_chars_all n s)

-- "é", then a byte that begins no character, then "a"
from_utf8_lossy_test :
    from_utf8_lossy (0xC3 ∷ 0xA9 ∷ 0xFF ∷ 0x61 ∷ []) ≡ 0xC3 ∷ 0xA9 ∷ 0xEF ∷ 0xBF ∷ 0xBD ∷ 0x61 ∷ []
unfolding from_utf8_lossy
from_utf8_lossy_test = refl

-- A character starts here, if anything is left.
abbrev pub StartsChar : Text → Type 0
StartsChar [] = Unit
StartsChar (c ∷ s) = is_continuation c ≡ false

-- The first `n` characters of `whole`, or all of them if they are fewer.
pub record FirstChars (n : ℕ) (whole part : Text) : Type 0 where
  pub rest : Text
  pub splits : whole ≡ part ++ rest
  pub short : count_chars part ≤ n
  pub full : (rest ≡ []) ⊎ (count_chars part ≡ n)
  pub whole_chars : StartsChar rest

FirstChars-cons :
    (n m : ℕ) (c : ℕ) (s part : Text)
    → (count_chars part ≤ n → count_chars (c ∷ part) ≤ m)
    → (count_chars part ≡ n → count_chars (c ∷ part) ≡ m)
    → FirstChars n s part
    → FirstChars m (c ∷ s) (c ∷ part)
FirstChars-cons n m c s part grows fills first = record {
  rest = first.rest;
  splits = ap (λ t. c ∷ t) first.splits;
  short = grows first.short;
  full = elim first.full [ inl e ↦ inl e | inr e ↦ inr (fills e) ];
  whole_chars = first.whole_chars;
}

-- A continuation belongs to the character before it.
FirstChars-continuation :
    (n c : ℕ) (s part : Text)
    → is_continuation c ≡ true
    → FirstChars n s part
    → FirstChars n (c ∷ s) (c ∷ part)
unfolding count_chars
FirstChars-continuation n c s part e = FirstChars-cons n n c s part (λ h. rw e h) (λ h. rw e h)

FirstChars-start :
    (n c : ℕ) (s part : Text)
    → is_continuation c ≡ false
    → FirstChars n s part
    → FirstChars (suc n) (c ∷ s) (c ∷ part)
unfolding count_chars
FirstChars-start n c s part e =
    FirstChars-cons n (suc n) c s part (λ h. rw e (omega (arith, h))) (λ h. rw e (omega (arith, h)))

pub take_chars-FirstChars : (n : ℕ) (s : Text) → FirstChars n s (take_chars n s)
unfolding count_chars take_chars
take_chars-FirstChars n [] = record {
  rest = [];
  splits = refl;
  short = omega arith;
  full = inl refl;
  whole_chars = tt;
}
take_chars-FirstChars zero (c ∷ s) = elim (Bool-cases (is_continuation c)) [
  | inl e ↦
      rw e (FirstChars-continuation zero c s (take_chars zero s) e (take_chars-FirstChars zero s))
  | inr e ↦ rw e (record {
    rest = c ∷ s;
    splits = refl;
    short = omega arith;
    full = inr refl;
    whole_chars = e;
  })
]
take_chars-FirstChars (suc n) (c ∷ s) = elim (Bool-cases (is_continuation c)) [
  | inl e ↦ rw e (
      FirstChars-continuation (suc n) c s (take_chars (suc n) s) e
        (take_chars-FirstChars (suc n) s))
  | inr e ↦ rw e (FirstChars-start n c s (take_chars n s) e (take_chars-FirstChars n s))
]
