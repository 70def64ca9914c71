-- ===== src/Harness/HttpServer/Words.antt =====
-- The words and lines of crates/testing/src/http_server.rs: `split_whitespace`, and the pieces that
-- `read_line` takes.
use acme_wasm.Prelude.{
  ℕ, zero, suc, ◌-◌, ◌≡◌, refl, ap, ◌∙◌, Bool, true, false, not, ◌&&◌, ◌||◌, List, [], ◌∷◌, ◌++◌,
  append-nil, append_assoc, arith, leb, ◌==◌, if◌then◌else◌, any, not-eq-false, any_cons, Bytes,
  Text, space_width,
}

abbrev pub emit : Text → List Text → List Text
emit [] words = words
emit (c ∷ w) words = (c ∷ w) ∷ words

-- The first argument counts the bytes of a white-space character that are still to be dropped, the
-- second is the word so far.
words_from : ℕ → Text → Text → List Text
words_from n word [] = emit word []
words_from (suc n) word (c ∷ s) = words_from n word s
words_from zero word (c ∷ s) =
    let more = words_from zero (word ++ c ∷ []) s in
    let next = words_from (space_width (c ∷ s) - 1) [] s in
    if space_width (c ∷ s) == 0 then more else emit word next

-- `split_whitespace`
unfoldable pub split_whitespace : Text → List Text
unfolding words_from space_width
split_whitespace s = words_from 0 [] s

abbrev prepend : ℕ → List Bytes → List Bytes
prepend c [] = (c ∷ []) ∷ []
prepend c (line ∷ lines) = (c ∷ line) ∷ lines

-- The lines of a stream, each with its end.
unfoldable pub split_lines : Bytes → List Bytes
split_lines [] = []
split_lines (c ∷ s) =
    let rest = split_lines s in if c == 10 then (c ∷ []) ∷ rest else prepend c rest

-- A visible ASCII character.
abbrev pub visible : ℕ → Bool
visible c = leb 33 c && leb c 126

pub visible-space_width : (c : ℕ) (s : Text) → visible c ≡ true → space_width (c ∷ s) ≡ 0
unfolding space_width
visible-space_width c [] h = ground arith
visible-space_width c (d ∷ []) h = ground arith
visible-space_width c (d ∷ e ∷ s) h = ground arith

-- An ASCII character that is white space.
abbrev pub blank : ℕ → Bool
blank c = (leb 9 c && leb c 13) || c == 32

blank-space_width : (c : ℕ) (s : Text) → blank c ≡ true → space_width (c ∷ s) ≡ 1
unfolding space_width
blank-space_width c [] h = rw h refl
blank-space_width c (d ∷ []) h = rw h refl
blank-space_width c (d ∷ e ∷ s) h = rw h refl

words_from-blank :
    (acc w r : Text) (c : ℕ)
    → any (λ c. not (visible c)) w ≡ false
    → blank c ≡ true
    → words_from 0 acc (w ++ c ∷ r) ≡ emit (acc ++ w) (words_from 0 [] r)
unfolding words_from
words_from-blank acc [] r c h b = rw (blank-space_width c r b, append-nil acc) refl
words_from-blank acc (d ∷ w) r c h b =
    let (v, vs) = any_cons (λ c. not (visible c)) d w h in
    rw (visible-space_width d (w ++ c ∷ r) (not-eq-false (visible d) v)) (
      words_from-blank (acc ++ d ∷ []) w r c vs b
      ∙ ap (λ l. emit l (words_from 0 [] r)) (append_assoc acc (d ∷ []) w))

words_from-visible :
    (acc w : Text) → any (λ c. not (visible c)) w ≡ false → words_from 0 acc w ≡ emit (acc ++ w) []
unfolding words_from
words_from-visible acc [] h = rw (append-nil acc) refl
words_from-visible acc (d ∷ w) h =
    let (v, vs) = any_cons (λ c. not (visible c)) d w h in
    rw (visible-space_width d w (not-eq-false (visible d) v))
      (words_from-visible (acc ++ d ∷ []) w vs ∙ ap (λ l. emit l []) (append_assoc acc (d ∷ []) w))

-- A visible word with a blank after it.
pub split_whitespace-blank :
    (w r : Text) (c : ℕ)
    → any (λ c. not (visible c)) w ≡ false
    → blank c ≡ true
    → split_whitespace (w ++ c ∷ r) ≡ emit w (split_whitespace r)
unfolding split_whitespace
split_whitespace-blank w r c h b = words_from-blank [] w r c h b

-- A visible word at the end.
pub split_whitespace-visible :
    (w : Text) → any (λ c. not (visible c)) w ≡ false → split_whitespace w ≡ emit w []
unfolding split_whitespace
split_whitespace-visible w h = words_from-visible [] w h

-- Two visible words, each with a blank after it.
pub split_whitespace-append :
    (w v r : Text)
    → any (λ c. not (visible c)) w ≡ false
    → any (λ c. not (visible c)) v ≡ false
    → split_whitespace (w ++ 32 ∷ (v ++ 32 ∷ r)) ≡ emit w (emit v (split_whitespace r))
split_whitespace-append w v r hw hv =
    split_whitespace-blank w (v ++ 32 ∷ r) 32 hw refl
    ∙ ap (emit w) (split_whitespace-blank v r 32 hv refl)

pub split_lines-append :
    (line rest : Bytes)
    → any (λ c. c == 10) line ≡ false
    → split_lines (line ++ 10 ∷ rest) ≡ (line ++ 10 ∷ []) ∷ split_lines rest
unfolding split_lines
split_lines-append [] rest h = refl
split_lines-append (c ∷ line) rest h =
    let (n, ns) = any_cons (λ c. c == 10) c line h in rw (split_lines-append line rest ns, n) refl
