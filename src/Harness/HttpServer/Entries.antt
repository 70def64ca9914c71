-- ===== src/Harness/HttpServer/Entries.antt =====
-- The map of the server of crates/testing/src/http_server.rs.
use acme_wasm.Prelude.{
  ◌≡◌, refl, sym, ap, ◌∙◌, ◌≢◌, inl, inr, false, none, some, [], ◌∷◌, if◌then◌else◌, Bool-cases,
  Text, ◌is◌, is_iff, is_refl,
}
use acme_wasm.Harness.HttpServer.{TokenMap, lookup, insert, remove}

is-apart : (s t : Text) → s ≢ t → (s is t) ≡ false
is-apart s t apart = elim (Bool-cases (s is t)) [
  | inl e ↦ absurd (apart ((is_iff s t).0 e))
  | inr e ↦ e
]

pub lookup-insert :
    (token body : Text) (m : TokenMap) → lookup token (insert token body m) ≡ some body
unfolding lookup insert
lookup-insert token body [] = rw (is_refl token) refl
lookup-insert token body ((k, v) ∷ m) = elim (Bool-cases (k is token)) [
  | inl e ↦ rw (e, is_refl token) refl
  | inr e ↦ rw (e, e) (lookup-insert token body m)
]

pub lookup-remove : (token : Text) (m : TokenMap) → lookup token (remove token m) ≡ none
unfolding lookup remove
lookup-remove token [] = refl
lookup-remove token ((k, v) ∷ m) = elim (Bool-cases (k is token)) [
  | inl e ↦ rw e (lookup-remove token m)
  | inr e ↦ rw (e, e) (lookup-remove token m)
]

lookup-same :
    (other k v : Text) (m n : TokenMap)
    → lookup other m ≡ lookup other n
    → lookup other ((k, v) ∷ m) ≡ lookup other ((k, v) ∷ n)
unfolding lookup
lookup-same other k v m n e = ap (λ o. if k is other then some v else o) e

-- The other entries are as before.
pub lookup-remove-other :
    (other token : Text) (m : TokenMap)
    → other ≢ token
    → lookup other (remove token m) ≡ lookup other m
unfolding lookup remove
lookup-remove-other other token [] apart = refl
lookup-remove-other other token ((k, v) ∷ m) apart = elim (Bool-cases (k is token)) [
  | inl e ↦
      rw (e, is-apart k other (λ f. apart (sym f ∙ (is_iff k token).0 e)))
        (lookup-remove-other other token m apart)
  | inr e ↦
      rw e (lookup-same other k v (remove token m) m (lookup-remove-other other token m apart))
]

pub lookup-remove-insert :
    (other token body : Text) (m : TokenMap)
    → other ≢ token
    → lookup other (remove token (insert token body m)) ≡ lookup other m
unfolding lookup remove insert
lookup-remove-insert other token body [] apart = rw (is_refl token) refl
lookup-remove-insert other token body ((k, v) ∷ m) apart = elim (Bool-cases (k is token)) [
  | inl e ↦
      rw (e, is_refl token, is-apart k other (λ f. apart (sym f ∙ (is_iff k token).0 e)))
        (lookup-remove-other other token m apart)
  | inr e ↦
      rw (e, e)
        (lookup-same other k v (remove token (insert token body m)) m
          (lookup-remove-insert other token body m apart))
]

pub lookup-insert-other :
    (other token body : Text) (m : TokenMap)
    → other ≢ token
    → lookup other (insert token body m) ≡ lookup other m
unfolding lookup insert
lookup-insert-other other token body [] apart = rw (is-apart token other (λ f. apart (sym f))) refl
lookup-insert-other other token body ((k, v) ∷ m) apart = elim (Bool-cases (k is token)) [
  | inl e ↦
      rw
        (
          e,
          is-apart token other (λ f. apart (sym f)),
          is-apart k other (λ f. apart (sym f ∙ (is_iff k token).0 e)),
        )
        refl
  | inr e ↦
      rw e (
        lookup-same other k v (insert token body m) m
          (lookup-insert-other other token body m apart))
]
