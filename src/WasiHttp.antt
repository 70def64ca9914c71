-- ===== src/WasiHttp.antt =====
-- crates/http-client/src/lib.rs: the split of a URL for `wasi:http`.
pub mod Host
pub mod Client
pub mod Watch
pub mod Draws
pub mod Requests
pub mod Received
pub mod Sent
pub mod SetUp
pub mod RoundTrip
pub mod Reads
mod Sample
mod Laws
mod Tests
use acme_wasm.Prelude.{
  ℕ, suc, ◌/◌, Option, none, some, [], ◌∷◌, ◌++◌, ◌==◌, if◌then◌else◌, take, drop, is_empty, Text,
  text, strip_prefix, Result, ok, err,
}
use acme_wasm.Core.Error.{AcmeError, transport}

-- `Scheme` of the bindings, as far as the code builds it
pub data Scheme : Type 0 where
  https http : Scheme

-- `find(c)`: the index of the first occurrence
unfoldable pub find_index : ℕ → Text → Option ℕ
find_index sep [] = none
find_index sep (c ∷ s) =
    if c == sep then some 0 else elim (find_index sep s) [ none ↦ none | some i ↦ some (suc i) ]

-- the scheme and what follows it
unfoldable pub strip_scheme : Text → Option (Scheme × Text)
strip_scheme url = elim (strip_prefix (text "https://") url) [
  | some rest ↦ some (https, rest)
  | none ↦ elim (strip_prefix (text "http://") url) [ some rest ↦ some (http, rest) | none ↦ none ]
]

-- the authority and the path
unfoldable pub split_path : Text → Text × Text
unfolding find_index
split_path rest = elim (find_index b'/' rest) [
  | some idx ↦ (take idx rest, drop idx rest)
  | none ↦ (rest, text "/")
]

-- the guard on the authority
unfoldable pub with_authority :
    Text → Scheme → Text × Text → Result (Scheme × Text × Text) AcmeError
with_authority url scheme (authority, path) =
    if is_empty authority
    then err (transport (text "URL missing authority: " ++ url))
    else ok (scheme, authority, path)

unfoldable pub parse_url : Text → Result (Scheme × Text × Text) AcmeError
unfolding strip_scheme split_path with_authority
parse_url url = elim (strip_scheme url) [
  | none ↦ err (transport (text "unsupported URL scheme: " ++ url))
  | some (scheme, rest) ↦ with_authority url scheme (split_path rest)
]
