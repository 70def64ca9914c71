-- ===== src/Harness/Pebble/Tar/Laws.antt =====
-- The archives that crates/testing/src/lib.rs reads, against the format that `docker cp` writes.
use acme_wasm.Prelude.{
  ℕ, ◌+◌, ◌^◌, ◌<◌, ◌≡◌, refl, sym, ap, ◌∙◌, Bool, true, false, not, Option, none, some, [], ◌∷◌,
  ◌++◌, append_assoc, arith, ltb, leb, if◌then◌else◌, length, take, drop, length-append,
  take-append, drop-append, Bytes, trim, from_utf8,
}
use acme_wasm.Harness.Pebble.Tar.Digits.{
  octal, octal_end, length-octal, trim_padding-visible, trim-visible, octal-visible, octal_field,
  from_octal-octal,
}
use acme_wasm.Harness.Pebble.Tar.{
  from_octal, trim_padding, contents, size_of, extract_first_tar_file,
}

-- One entry of a ustar archive up to its contents: what is before the size, the size as eleven
-- octal digits with a NUL, and what is after it in the header.
pub entry : Bytes → ℕ → Bytes → Bytes
entry front size back = front ++ (octal 11 size ++ 0 ∷ []) ++ back

take_field :
    (a f r : Bytes) (n k : ℕ) → length a ≡ n → length f ≡ k → take k (drop n (a ++ (f ++ r))) ≡ f
take_field a f r n k ha hf =
    ap (λ i. take k (drop i (a ++ (f ++ r)))) (sym ha)
    ∙ ap (take k) (drop-append a (f ++ r))
    ∙ ap (λ i. take i (f ++ r)) (sym hf)
    ∙ take-append f r

length-field : (size : ℕ) → length (octal 11 size ++ 0 ∷ []) ≡ 12
length-field size = omega (arith, length-append (octal 11 size) (0 ∷ []), length-octal 11 size)

regrouped :
    (front back body : Bytes) (size : ℕ)
    → entry front size back ++ body ≡ front ++ ((octal 11 size ++ 0 ∷ []) ++ (back ++ body))
unfolding entry
regrouped front back body size =
    append_assoc (front ++ (octal 11 size ++ 0 ∷ [])) back body
    ∙ append_assoc front (octal 11 size ++ 0 ∷ []) (back ++ body)

size_of-entry :
    (front back body : Bytes) (size : ℕ)
    → length front ≡ 124
    → size < 8 ^ 11
    → size_of (entry front size back ++ body) ≡ some size
unfolding size_of octal_end
size_of-entry front back body size front_ok small =
    ap size_of (regrouped front back body size)
    ∙ ap (λ f. elim (from_utf8 f) [ none ↦ none | some s ↦ from_octal (trim (trim_padding s)) ])
        (take_field front (octal 11 size ++ 0 ∷ []) (back ++ body) 124 12 front_ok
          (length-field size))
    ∙ ap (λ o. elim o [ none ↦ none | some s ↦ from_octal (trim (trim_padding s)) ])
        (octal_field size)
    ∙ ap (λ s. from_octal (trim s)) (trim_padding-visible (octal 11 size) (octal-visible 11 size))
    ∙ ap from_octal (trim-visible (octal 11 size) (octal-visible 11 size))
    ∙ from_octal-octal 10 size (omega arith) (omega arith)

length-entry :
    (front back : Bytes) (size : ℕ)
    → length front ≡ 124
    → length back ≡ 376
    → length (entry front size back) ≡ 512
unfolding entry
length-entry front back size front_ok back_ok =
    length-append (front ++ (octal 11 size ++ 0 ∷ [])) back
    ∙ ap (λ n. n + length back) (length-append front (octal 11 size ++ 0 ∷ []))
    ∙ omega (arith, length-field size, front_ok, back_ok)

if_not : {A : Type 0} (b : Bool) (x y : A) → (if not b then x else y) ≡ (if b then y else x)
if_not true x y = refl
if_not false x y = refl

within :
    (have size : ℕ) (o : Option Bytes)
    → (if ltb (512 + have) (512 + size) then none else o) ≡ (if leb size have then o else none)
within have size o =
    let test : ltb (512 + have) (512 + size) ≡ not (leb size have) = ground arith in
    ap (λ b. if b then none else o) test ∙ if_not (leb size have) none o

contents-append :
    (header body : Bytes) (size : ℕ)
    → length header ≡ 512
    → contents (header ++ body) size
      ≡ (if leb size (length body) then some (take size body) else none)
unfolding contents
contents-append header body size h =
    let body_at : drop 512 (header ++ body) ≡ body =
      ap (λ i. drop i (header ++ body)) (sym h) ∙ drop-append header body in
    let measured : length (header ++ body) ≡ 512 + length body =
      length-append header body ∙ ap (λ n. n + length body) h in
    ap (λ t. if ltb (length (header ++ body)) (512 + size) then none else some (take size t))
      body_at
    ∙ ap (λ n. if ltb n (512 + size) then none else some (take size body)) measured
    ∙ within (length body) size (some (take size body))

-- Of an entry with a size below 8 ^ 11 and the bytes that follow it, the reader returns the first
-- `size` bytes when there are as many, and nothing when the archive is cut short before that.
pub extract_first_tar_file-entry :
    (front back body : Bytes) (size : ℕ)
    → length front ≡ 124
    → length back ≡ 376
    → size < 8 ^ 11
    → extract_first_tar_file (entry front size back ++ body)
      ≡ (if leb size (length body) then some (take size body) else none)
unfolding extract_first_tar_file
extract_first_tar_file-entry front back body size front_ok back_ok small =
    let header = length-entry front back size front_ok back_ok in
    let long : ltb (length (entry front size back ++ body)) 512 ≡ false =
      ground (arith, length-append (entry front size back) body) in
    ap
      (λ b. if b then none else elim (size_of (entry front size back ++ body)) [
        | none ↦ none
        | some n ↦ contents (entry front size back ++ body) n
      ])
      long
    ∙ ap (λ o. elim o [ none ↦ none | some n ↦ contents (entry front size back ++ body) n ])
        (size_of-entry front back body size front_ok small)
    ∙ contents-append (entry front size back) body size header
