-- ===== src/Core/Jws/Thumbprint.antt =====
-- The member order of the public JWK of crates/core/src/jws.rs, which the thumbprint rests on.
use acme_wasm.Prelude.{
  ◌≡◌, refl, Bool, true, false, ◌&&◌, ◌||◌, List, [], ◌∷◌, ltb, ◌==◌, if◌then◌else◌, Text, text,
  ◌is◌,
}
use acme_wasm.Core.Json.{Members, end, member}
use acme_wasm.Core.Crates.{Crates}
use acme_wasm.Core.Jws.{p256, p384, AccountKey, rsa, ecdsa, ed25519, alg, jwk_members}

-- the lexicographic order of byte sequences
abbrev pub less : Text → Text → Bool
less [] [] = false
less [] (d ∷ t) = true
less (c ∷ s) [] = false
less (c ∷ s) (d ∷ t) = ltb c d || ((c == d) && less s t)

-- The names come after `name`, each after the one before it.
abbrev ascends : Text → Members → Bool
ascends name end = true
ascends name (member next v rest) = less name next && ascends next rest

-- the names of the members, each after the one before it
abbrev pub ascending : Members → Bool
ascending end = true
ascending (member name v rest) = ascends name rest

-- the names alone
abbrev pub names : Members → List Text
names end = []
names (member name v rest) = name ∷ names rest

-- the members that RFC 7638 requires for a key type
abbrev pub required : Text → List Text
required kty =
    if kty is text "RS256"
    then text "e" ∷ text "kty" ∷ text "n" ∷ []
    else if kty is text "EdDSA"
    then text "crv" ∷ text "kty" ∷ text "x" ∷ []
    else text "crv" ∷ text "kty" ∷ text "x" ∷ text "y" ∷ []

-- The JWK of a key has exactly the members that RFC 7638 takes the thumbprint of, for the key type
-- that the algorithm belongs to, and they stand in strictly ascending lexicographic order.
pub jwk_members-ascending :
    (c : Crates) (key : AccountKey c)
    → (ascending (jwk_members c key) ≡ true) × (names (jwk_members c key) ≡ required (alg c key))
unfolding jwk_members alg text ◌is◌
jwk_members-ascending c (rsa sk) = (refl, refl)
jwk_members-ascending c (ecdsa (p256 sk)) = (refl, refl)
jwk_members-ascending c (ecdsa (p384 sk)) = (refl, refl)
jwk_members-ascending c (ed25519 sk) = (refl, refl)
