-- ===== src/Harness/Pebble/Tar/Digits.antt =====
-- The size field of the archives that crates/testing/src/lib.rs reads: octal digits and a NUL.
use acme_wasm.Prelude.{
  ℕ, zero, suc, ◌+◌, ◌*◌, ◌/◌, ◌%◌, ◌<◌, ◌≡◌, refl, sym, ap, ◌∙◌, Bool, true, false, not, ◌&&◌,
  some, [], ◌∷◌, ◌++◌, append-nil, append_assoc, arith, ltb, leb, ◌==◌, length, any, length-append,
  not-eq-false, any_cons, any-append, any-weaken, Text, trim_start, trim_end, trim, from_utf8,
  from_utf8-ascii,
}
use acme_wasm.Harness.HttpServer.Words.{visible, visible-space_width}
use acme_wasm.Harness.Pebble.Tar.{
  usize_end, octal_digit, octal_from, from_octal, padding_from, trim_padding,
}

-- `k` octal digits of a number, the last ones.
pub octal : ℕ → ℕ → Text
octal zero n = []
octal (suc k) n = octal k (n / 8) ++ (b'0' + n % 8) ∷ []

-- the least number that takes more than `k` octal digits
unfoldable pub octal_end : ℕ → ℕ
octal_end zero = 1
octal_end (suc k) = 8 * octal_end k

abbrev no_digit : ℕ → Bool
no_digit c = not (leb b'0' c && leb c b'7')

digit_visible : (c : ℕ) → no_digit c ≡ false → not (visible c) ≡ false
digit_visible c h = ground arith

visible_ascii : (c : ℕ) → not (visible c) ≡ false → not (leb c 0x7F) ≡ false
visible_ascii c h = ground arith

pub length-octal : (k n : ℕ) → length (octal k n) ≡ k
unfolding octal
length-octal zero n = refl
length-octal (suc k) n =
    omega (arith, length-append (octal k (n / 8)) ((b'0' + n % 8) ∷ []), length-octal k (n / 8))

octal_digits : (k n : ℕ) → any no_digit (octal k n) ≡ false
unfolding octal
octal_digits zero n = refl
octal_digits (suc k) n =
    any-append no_digit (octal k (n / 8)) ((b'0' + n % 8) ∷ []) (octal_digits k (n / 8))
      (ground arith)

octal_digit-digit : (d : ℕ) → d < 8 → octal_digit (b'0' + d) ≡ some d
unfolding octal_digit
octal_digit-digit d h = ground arith

octal_from_cons :
    (m d n : ℕ) (t : Text)
    → d < 8
    → 8 * m + d ≡ n
    → n < usize_end
    → octal_from m ((b'0' + d) ∷ t) ≡ octal_from n t
unfolding octal_from
octal_from_cons m d n t h e g =
    let small : ltb n usize_end ≡ true = ground arith in
    rw (octal_digit-digit d h, e, small, octal_from) refl

octal_from-octal :
    (k n : ℕ) (t : Text)
    → n < octal_end k
    → n < usize_end
    → octal_from 0 (octal k n ++ t) ≡ octal_from n t
unfolding octal octal_end
octal_from-octal zero n t h g = ap (λ m. octal_from m t) (omega arith)
octal_from-octal (suc k) n t h g =
    ap (octal_from 0) (append_assoc (octal k (n / 8)) ((b'0' + n % 8) ∷ []) t)
    ∙ octal_from-octal k (n / 8) ((b'0' + n % 8) ∷ t) (omega arith) (omega arith)
    ∙ octal_from_cons (n / 8) (n % 8) n t (omega arith) (omega arith) g

pub trim_padding-visible :
    (s : Text) → any (λ c. not (visible c)) s ≡ false → trim_padding (s ++ 0 ∷ []) ≡ s
unfolding trim_padding padding_from
trim_padding-visible [] h = refl
trim_padding-visible (c ∷ s) h =
    let (v, vs) = any_cons (λ c. not (visible c)) c s h in
    let w = visible-space_width c (s ++ 0 ∷ []) (not-eq-false (visible c) v) in
    rw (w, trim_padding-visible s vs) (ground arith)

trim_end-visible : (s : Text) → any (λ c. not (visible c)) s ≡ false → trim_end s ≡ s
unfolding trim_end trim_start
trim_end-visible [] h = refl
trim_end-visible (c ∷ s) h =
    let (v, vs) = any_cons (λ c. not (visible c)) c s h in
    rw (visible-space_width c s (not-eq-false (visible c) v), trim_end-visible s vs) refl

pub trim-visible : (s : Text) → any (λ c. not (visible c)) s ≡ false → trim s ≡ s
unfolding trim trim_start
trim-visible [] h = refl
trim-visible (c ∷ s) h =
    let (v, vs) = any_cons (λ c. not (visible c)) c s h in
    rw (visible-space_width c s (not-eq-false (visible c) v)) (trim_end-visible (c ∷ s) h)

from_octal-digits :
    (c : ℕ) (s : Text) → any no_digit (c ∷ s) ≡ false → from_octal (c ∷ s) ≡ octal_from 0 (c ∷ s)
unfolding from_octal
from_octal-digits c [] h = refl
from_octal-digits c (d ∷ s) h =
    let (v, vs) = any_cons no_digit c (d ∷ s) h in
    let plus : (c == b'+') ≡ false = ground arith in rw plus refl

pub octal-visible : (k n : ℕ) → any (λ c. not (visible c)) (octal k n) ≡ false
octal-visible k n =
    any-weaken no_digit (λ c. not (visible c)) (octal k n) digit_visible (octal_digits k n)

pub octal_field : (n : ℕ) → from_utf8 (octal 11 n ++ 0 ∷ []) ≡ some (octal 11 n ++ 0 ∷ [])
octal_field n = from_utf8-ascii (octal 11 n ++ 0 ∷ []) (
    any-append (λ c. not (leb c 0x7F)) (octal 11 n) (0 ∷ [])
      (any-weaken (λ c. not (visible c)) (λ c. not (leb c 0x7F)) (octal 11 n) visible_ascii
        (octal-visible 11 n))
      refl)

pub from_octal-octal :
    (k n : ℕ) → n < octal_end (suc k) → n < usize_end → from_octal (octal (suc k) n) ≡ some n
unfolding octal_from
from_octal-octal k n h g =
    on_digits (octal (suc k) n) (octal_digits (suc k) n) (length-octal (suc k) n)
    ∙ ap (octal_from 0) (sym (append-nil (octal (suc k) n)))
    ∙ octal_from-octal (suc k) n [] h g
  where
    on_digits :
        (s : Text) → any no_digit s ≡ false → length s ≡ suc k → from_octal s ≡ octal_from 0 s
    on_digits [] d e = absurd (omega arith)
    on_digits (c ∷ s) d e = from_octal-digits c s d
