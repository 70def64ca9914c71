-- ===== src/Core/Transport/Laws.antt =====
-- Headers and the status test.
use mathlib.Core.Option
use acme_wasm.Prelude.{
  ◌≤◌, ◌<◌, ◌≡◌, refl, ap, ◌↔◌, Bool, true, List, [], ◌∷◌, map, arith, head?, find_first, retain,
  Bytes, Text, ◌is◌, is_iff, to_lower, eq_ignore_ascii_case, Result, ok,
}
use acme_wasm.Core.Error.{ProblemDocument}
use acme_wasm.Core.Transport.{HttpResponse, named, header, headers_all, check}

find_first-retain {ℓ} :
    {A B : Type ℓ} (f : A → B) (p : A → Bool) (xs : List A)
    → Option.map f (find_first p xs) ≡ head? (map f (retain p xs))
find_first-retain f p [] = refl
find_first-retain f p (x ∷ xs) = ground (arith, find_first-retain f p xs)

-- `header` returns the first of the values that `headers_all` returns.
pub header-headers_all :
    (r : HttpResponse) (name : Text) → header r name ≡ head? (headers_all r name)
unfolding header headers_all
header-headers_all r name = find_first-retain _ (named name) r.headers

named-case : (m n k v : Text) → eq_ignore_ascii_case m n ≡ true → named m (k, v) ≡ named n (k, v)
unfolding eq_ignore_ascii_case
named-case m n k v h = ap (λ t. map to_lower k is t) ((is_iff _ _).0 h)

retain-case :
    (m n : Text)
    → eq_ignore_ascii_case m n ≡ true
    → (hs : List (Text × Text)) → retain (named m) hs ≡ retain (named n) hs
retain-case m n h [] = refl
retain-case m n h ((k, v) ∷ hs) = rw (named-case m n k v h, retain-case m n h hs) refl

-- Two spellings of a name that differ in ASCII case only find the same values.
pub headers_all-case :
    (r : HttpResponse) (m n : Text)
    → eq_ignore_ascii_case m n ≡ true
    → headers_all r m ≡ headers_all r n
unfolding headers_all
headers_all-case r m n h = ap (map _) (retain-case m n h r.headers)

-- A response passes exactly if its status is a 2xx, and then it is passed unchanged.
pub check_iff :
    (from_slice : Bytes → Result ProblemDocument Text) (r s : HttpResponse)
    → (check from_slice r ≡ ok s) ↔ ((200 ≤ r.status) × (r.status < 300) × (r ≡ s))
unfolding check
check_iff f r s = ground arith
