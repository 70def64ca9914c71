-- ===== src/Cloudflare/Names.antt =====
-- The names in crates/dns-providers/cloudflare/src/lib.rs: the apex of a record name, and the
-- percent-encoding of a query value.
use acme_wasm.Prelude.{
  ℕ, ◌+◌, ◌-◌, ◌/◌, ◌%◌, Bool, ◌&&◌, ◌||◌, List, [], ◌∷◌, ltb, leb, ◌==◌, if◌then◌else◌, length,
  drop, Text, text, join,
}

unfoldable pub push : ℕ → List Text → List Text
push c [] = (c ∷ []) ∷ []
push c (x ∷ xs) = (c ∷ x) ∷ xs

-- `split(sep)`
unfoldable pub split : ℕ → Text → List Text
unfolding push
split sep [] = [] ∷ []
split sep (c ∷ s) = let rest = split sep s in if c == sep then [] ∷ rest else push c rest

unfoldable pub apex_from_record_name : Text → Text
unfolding split
apex_from_record_name name =
    let labels = split b'.' name in
    if leb (length labels) 2 then name else join (text ".") (drop (length labels - 2) labels)

-- the bytes that stand for themselves
abbrev pub unreserved : ℕ → Bool
unreserved b =
    (leb b'A' b && leb b b'Z')
    || (leb b'a' b && leb b b'z')
    || (leb b'0' b && leb b b'9')
    || (b == b'-')
    || (b == b'_')
    || (b == b'.')
    || (b == b'~')

-- one digit of `{:X}`
abbrev pub hex_digit : ℕ → ℕ
hex_digit d = if ltb d 10 then b'0' + d else b'A' + (d - 10)

unfoldable pub urlencoding_encode : Text → Text
urlencoding_encode [] = []
urlencoding_encode (b ∷ s) =
    let rest = urlencoding_encode s in
    if unreserved b then b ∷ rest else b'%' ∷ hex_digit (b / 16) ∷ hex_digit (b % 16) ∷ rest
