-- ===== src/Cloudflare/Calls.antt =====
-- Calls of the Cloudflare provider: they act on its zone cache and on the world, and may return an
-- error.
use acme_wasm.Prelude.{
  Option, none, some, List, [], ◌∷◌, if◌then◌else◌, Text, ◌is◌, Result, ok, err, map_err,
}

-- `cache` is the `Mutex<HashMap>` of `ZoneLookup::ByName`, as pairs of a key and its value.
pub record Cached (W : Type 0) : Type 0 where
  pub cache : List (Text × Text)
  pub world : W

abbrev pub Call : Type 0 → Type 0 → Type 0 → Type 0
Call E W A = Cached W → Result A E × Cached W

module _ {E W A : Type 0} where
  -- `?` on a computed result
  abbrev pub attempt : Result A E → Call E W A
  attempt r s = (r, s)

  -- `map_err`
  abbrev pub convert : {F : Type 0} → (E → F) → Call E W A → Call F W A
  convert f m s = let (r, t) = m s in (map_err f r, t)

module _ {E W A B : Type 0} where
  abbrev pub next : (A → Call E W B) → Result A E × Cached W → Result B E × Cached W
  next f (ok a, s) = f a s
  next f (err e, s) = (err e, s)

  infixl 5 ◌>>=◌ ◌>>◌
  abbrev pub ◌>>=◌ : Call E W A → (A → Call E W B) → Call E W B
  ◌>>=◌ m f s = next f (m s)

  abbrev pub ◌>>◌ : Call E W A → Call E W B → Call E W B
  m >> n = m >>= λ _. n

-- `HashMap::get`
unfoldable pub find_key : Text → List (Text × Text) → Option Text
find_key key [] = none
find_key key ((k, v) ∷ m) = if k is key then some v else find_key key m

-- `HashMap::insert`, which replaces the value of a key
unfoldable pub insert : Text → Text → List (Text × Text) → List (Text × Text)
insert key value [] = (key, value) ∷ []
insert key value ((k, v) ∷ m) =
    let rest = insert key value m in if k is key then (key, value) ∷ m else (k, v) ∷ rest

unfoldable pub store : {E W : Type 0} → Text → Text → Call E W Unit
unfolding insert
store key value s = (ok tt, record s { cache = insert key value s.cache })
