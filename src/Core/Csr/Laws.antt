-- ===== src/Core/Csr/Laws.antt =====
-- What a certificate request of crates/core/src/csr.rs is built from.
use acme_wasm.Prelude.{
  ◌≡◌, refl, sym, ap, ◌∙◌, ◌≢◌, ◌⊎◌, inl, inr, Bool, true, false, List, [], ◌∷◌, ◌++◌, map, All,
  Bytes, Text, text, ◌is◌, is_iff, Result, ok, err, map_err, map_ok, and_then,
}
use acme_wasm.Core.Error.{bad_csr}
use acme_wasm.Core.Crates.{Crates}
use acme_wasm.Core.Records.Order.{Identifier}
use acme_wasm.Core.Csr.{CertificateKey, dns_name, dns_names, build_csr}

abbrev pub value_of : Identifier → Text
value_of id = id.value

abbrev pub IsDns : Identifier → Type 0
IsDns id = id.kind ≡ text "dns"

dns_name-cases :
    (id : Identifier) (b : Bool)
    → (id.kind is text "dns") ≡ b
    → (IsDns id × (dns_name id ≡ ok id.value))
      ⊎ ((id.kind ≢ text "dns")
          × (dns_name id ≡ err (bad_csr (text "unsupported identifier type: " ++ id.kind))))
unfolding dns_name
dns_name-cases id true e = inl ((is_iff id.kind (text "dns")).0 e, rw e refl)
dns_name-cases id false e =
    inr (λ same. let yes = (is_iff id.kind (text "dns")).1 same in absurd cc, rw e refl)

and_then-eq-ok :
    {A B E : Type 0} (r : Result A E) (f : A → Result B E) {b : B}
    → and_then r f ≡ ok b
    → (a : A) × (r ≡ ok a) × (f a ≡ ok b)
and_then-eq-ok (ok a) f e = (a, refl, e)
and_then-eq-ok (err x) f e = absurd cc

map_ok-eq-ok :
    {A B E : Type 0} (f : A → B) (r : Result A E) {b : B}
    → map_ok f r ≡ ok b
    → (a : A) × (r ≡ ok a) × (f a ≡ b)
map_ok-eq-ok f (ok a) e = (a, refl, cc)
map_ok-eq-ok f (err x) e = absurd cc

map_err-eq-ok :
    {A E F : Type 0} (f : E → F) (r : Result A E) {a : A} → map_err f r ≡ ok a → r ≡ ok a
map_err-eq-ok f (ok b) e = cc
map_err-eq-ok f (err x) e = absurd cc

dns_name-eq-ok : (id : Identifier) (n : Text) → dns_name id ≡ ok n → IsDns id × (n ≡ id.value)
dns_name-eq-ok id n e = elim (dns_name-cases id (id.kind is text "dns") refl) [
  | inl (is_dns, named) ↦ (is_dns, cc)
  | inr (not_dns, refused) ↦ absurd cc
]

dns_names-eq-ok :
    (ids : List Identifier) (names : List Text)
    → dns_names ids ≡ ok names
    → All IsDns ids × (names ≡ map value_of ids)
unfolding dns_names
dns_names-eq-ok [] names e = (tt, cc)
dns_names-eq-ok (id ∷ ids) names e =
    let (n, first, e1) =
      and_then-eq-ok (dns_name id) (λ n. map_ok (λ ns. n ∷ ns) (dns_names ids)) e in
    let (ns, rest, whole) = map_ok-eq-ok (λ ns. n ∷ ns) (dns_names ids) e1 in
    let (is_dns, same) = dns_name-eq-ok id n first in
    let (all, same_rest) = dns_names-eq-ok ids ns rest in
    ((is_dns, all), sym whole ∙ ap (λ v. v ∷ ns) same ∙ ap (λ vs. id.value ∷ vs) same_rest)

-- When `build_csr` returns a request, there is an identifier, every identifier is a `dns` one, and
-- the request is the one that rcgen signs with the key for exactly the identifiers' values, in their
-- order.
pub build_csr-eq-ok :
    (c : Crates) (key : CertificateKey c) (ids : List Identifier) (der : Bytes)
    → build_csr c key ids ≡ ok der
    → (ids ≢ [])
      × All IsDns ids
      × (params : c.CertificateParams) × (c.params_new (map value_of ids) ≡ ok params)
      × (c.serialize_request params key.key_pair ≡ ok der)
unfolding build_csr
build_csr-eq-ok c key [] der e = absurd cc
build_csr-eq-ok c key (id ∷ ids) der e =
    let (names, named, e1) = and_then-eq-ok (dns_names (id ∷ ids)) _ e in
    let (params, made, e2) =
      and_then-eq-ok (map_err (λ e. bad_csr (text "csr params: " ++ e)) (c.params_new names)) _
        e1 in
    let (all, same) = dns_names-eq-ok (id ∷ ids) names named in
    (
      λ empty. absurd cc,
      all,
      params,
      ap c.params_new (sym same)
          ∙ map_err-eq-ok (λ e. bad_csr (text "csr params: " ++ e)) (c.params_new names) made,
      map_err-eq-ok (λ e. bad_csr (text "csr sign: " ++ e))
          (c.serialize_request params key.key_pair) e2,
    )
