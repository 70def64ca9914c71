-- ===== src/WasiHttp/Laws.antt =====
-- A URL and its parts.
use acme_wasm.Prelude.{
  ℕ, ◌≡◌, refl, false, none, some, [], ◌∷◌, ◌++◌, arith, ◌==◌, length, is_empty, any, take-append,
  drop-append, Text, text, strip_prefix, ok,
}
use acme_wasm.WasiHttp.{
  Scheme, https, http, find_index, strip_scheme, split_path, with_authority, parse_url,
}

-- the text of a scheme
abbrev pub prefix_of : Scheme → Text
prefix_of https = text "https://"
prefix_of http = text "http://"

find_index-append :
    (sep : ℕ) (s r : Text)
    → any (λ c. c == sep) s ≡ false
    → find_index sep (s ++ sep ∷ r) ≡ some (length s)
unfolding find_index
find_index-append sep [] r h = ground arith
find_index-append sep (c ∷ s) r h = ground (arith, find_index-append sep s r)

find_index-none : (sep : ℕ) (s : Text) → any (λ c. c == sep) s ≡ false → find_index sep s ≡ none
unfolding find_index
find_index-none sep [] h = refl
find_index-none sep (c ∷ s) h = ground (arith, find_index-none sep s)

split_path-append :
    (authority path : Text)
    → any (λ c. c == b'/') authority ≡ false
    → split_path (authority ++ b'/' ∷ path) ≡ (authority, b'/' ∷ path)
unfolding split_path
split_path-append authority path plain =
    rw
      (
        find_index-append b'/' authority path plain,
        take-append authority (b'/' ∷ path),
        drop-append authority (b'/' ∷ path),
        split_path,
      )
      refl

split_path-alone :
    (authority : Text)
    → any (λ c. c == b'/') authority ≡ false
    → split_path authority ≡ (authority, text "/")
unfolding split_path
split_path-alone authority plain = rw (find_index-none b'/' authority plain, split_path) refl

strip_scheme-prefix_of :
    (scheme : Scheme) (rest : Text) → strip_scheme (prefix_of scheme ++ rest) ≡ some (scheme, rest)
unfolding strip_scheme strip_prefix text
strip_scheme-prefix_of https rest = refl
strip_scheme-prefix_of http rest = refl

parse_url-rest :
    (scheme : Scheme) (rest authority path : Text)
    → split_path rest ≡ (authority, path)
    → is_empty authority ≡ false
    → parse_url (prefix_of scheme ++ rest) ≡ ok (scheme, authority, path)
unfolding parse_url with_authority
parse_url-rest scheme rest authority path e full =
    rw (strip_scheme-prefix_of scheme rest, e, full, parse_url, with_authority) refl

-- A URL that is put together from a scheme, an authority that is not empty and has no slash, and a
-- path that begins with a slash, is taken apart into these; without a path, the path is a slash.
pub parse_url-append :
    (scheme : Scheme) (authority path : Text)
    → is_empty authority ≡ false
    → any (λ c. c == b'/') authority ≡ false
    → (parse_url (prefix_of scheme ++ (authority ++ b'/' ∷ path))
        ≡ ok (scheme, authority, b'/' ∷ path))
      × (parse_url (prefix_of scheme ++ authority) ≡ ok (scheme, authority, text "/"))
parse_url-append scheme authority path full plain = (
  parse_url-rest scheme (authority ++ b'/' ∷ path) authority (b'/' ∷ path)
      (split_path-append authority path plain) full,
  parse_url-rest scheme authority authority (text "/") (split_path-alone authority plain) full,
)
