-- ===== src/Core/Jws/Verify.antt =====
-- A server's view of the signed requests of crates/core/src/jws.rs: RFC 8555, section 6.2.
use acme_wasm.Prelude.{
  ◌≡◌, refl, ap, ◌∙◌, Bool, true, false, Option, none, some, ◌++◌, Bytes, Text, text, Result, ok,
  err, map_err, and_then,
}
use acme_wasm.Core.Json.{Value}
use acme_wasm.Core.Error.{jose}
use acme_wasm.Core.Crates.{ProtectedHeader, Flattened, Crates}
use acme_wasm.Core.Jws.{
  AccountKey, alg, public_jwk, sign_bytes, sign_jws_inner, sign_jws_with_jwk, sign_jws_with_kid,
}

-- What a server reads with: parsers, a base64url decoder, and the check of a signature against a
-- public JWK, an algorithm and the signed bytes.
pub record Verifier : Type 0 where
  pub read_flattened : Bytes → Option Flattened
  pub read_header : Bytes → Option ProtectedHeader
  pub unbase64 : Text → Option Bytes
  pub genuine : Value → Text → Bytes → Bytes → Bool

module _ (v : Verifier) (key_of : Text → Option Value) where
  -- The public key: the embedded one, or that of the account.
  abbrev signer : Option Value → Option Text → Option Value
  signer (some jwk) kid = some jwk
  signer none (some kid) = key_of kid
  signer none none = none

  abbrev judged : Bool → ProtectedHeader → Bytes → Option (ProtectedHeader × Bytes)
  judged true h payload = some (h, payload)
  judged false h payload = none

  abbrev check_signature :
      Flattened
      → ProtectedHeader
      → Option Bytes
      → Option Bytes
      → Option Value
      → Option (ProtectedHeader × Bytes)
  check_signature f h (some payload) (some signature) (some jwk) =
      judged (v.genuine jwk h.alg (f.protected ++ text "." ++ f.payload) signature) h payload
  check_signature f h _ _ _ = none

  abbrev with_header : Flattened → Option ProtectedHeader → Option (ProtectedHeader × Bytes)
  with_header f none = none
  with_header f (some h) =
      check_signature f h (v.unbase64 f.payload) (v.unbase64 f.signature) (signer h.jwk h.kid)

  abbrev with_header_bytes : Flattened → Option Bytes → Option (ProtectedHeader × Bytes)
  with_header_bytes f none = none
  with_header_bytes f (some b) = with_header f (v.read_header b)

  abbrev with_flattened : Option Flattened → Option (ProtectedHeader × Bytes)
  with_flattened none = none
  with_flattened (some f) = with_header_bytes f (v.unbase64 f.protected)

  -- The header and the payload of a request, if its signature is genuine.
  abbrev pub accept : Bytes → Option (ProtectedHeader × Bytes)
  accept jws = with_flattened (v.read_flattened jws)

-- The server's tools undo the client's, for a key and a header.
pub record Undoes (c : Crates) (v : Verifier) (key : AccountKey c) (h : ProtectedHeader)
    : Type 0 where
  pub flattened :
      (f : Flattened) (b : Bytes) → c.flattened_to_vec f ≡ ok b → v.read_flattened b ≡ some f
  pub header : (b : Bytes) → c.header_to_vec h ≡ ok b → v.read_header b ≡ some h
  pub base64 : (b : Bytes) → v.unbase64 (c.b64url b) ≡ some b
  pub signature :
      (input signature : Bytes)
      → sign_bytes c input key ≡ ok signature
      → v.genuine (public_jwk c key) (alg c key) input signature ≡ true

map_err-eq-ok :
    {A E F : Type 0} (f : E → F) (r : Result A E) {a : A} → map_err f r ≡ ok a → r ≡ ok a
map_err-eq-ok f (ok b) e = cc
map_err-eq-ok f (err x) e = absurd cc

and_then-eq-ok :
    {A B E : Type 0} (r : Result A E) (f : A → Result B E) {b : B}
    → and_then r f ≡ ok b
    → (a : A) × (r ≡ ok a) × (f a ≡ ok b)
and_then-eq-ok (ok a) f e = (a, refl, e)
and_then-eq-ok (err x) f e = absurd cc

module _ (c : Crates) (v : Verifier) (key_of : Text → Option Value) (key : AccountKey c) where
  accept-sign_jws_inner :
      (payload : Bytes) (url nonce : Text) (jwk : Option Value) (kid : Option Text) (jws : Bytes)
      → Undoes c v key (record { alg = alg c key; jwk = jwk; kid = kid; nonce = nonce; url = url })
      → signer v key_of jwk kid ≡ some (public_jwk c key)
      → sign_jws_inner c payload url nonce jwk kid key ≡ ok jws
      → accept v key_of jws
        ≡ some (record { alg = alg c key; jwk = jwk; kid = kid; nonce = nonce; url = url }, payload)
  unfolding sign_jws_inner
  accept-sign_jws_inner payload url nonce jwk kid jws undoes signed e =
      let h : ProtectedHeader = record {
        alg = alg c key;
        jwk = jwk;
        kid = kid;
        nonce = nonce;
        url = url;
      } in
      let (hb, made, e1) =
        and_then-eq-ok (map_err (λ x. jose (text "header: " ++ x)) (c.header_to_vec h)) _ e in
      let input = c.b64url hb ++ text "." ++ c.b64url payload in
      let (sig, signature, e2) = and_then-eq-ok (sign_bytes c input key) _ e1 in
      let out : Flattened = record {
        protected = c.b64url hb;
        payload = c.b64url payload;
        signature = c.b64url sig;
      } in
      ap (with_flattened v key_of) (
        undoes.flattened out jws
          (map_err-eq-ok (λ x. jose (text "serialize: " ++ x)) (c.flattened_to_vec out) e2))
      ∙ ap (with_header_bytes v key_of out) (undoes.base64 hb)
      ∙ ap (with_header v key_of out) (
          undoes.header hb
            (map_err-eq-ok (λ x. jose (text "header: " ++ x)) (c.header_to_vec h) made))
      ∙ ap
          (λ p.
            check_signature v key_of out h p (v.unbase64 out.signature) (signer v key_of jwk kid))
          (undoes.base64 payload)
      ∙ ap (λ b. check_signature v key_of out h (some payload) b (signer v key_of jwk kid))
          (undoes.base64 sig)
      ∙ ap (check_signature v key_of out h (some payload) (some sig)) signed
      ∙ ap (λ b. judged v key_of b h payload) (undoes.signature input sig signature)

  -- A server whose tools undo the client's accepts a request signed with the account's URL, if it
  -- knows the account's key, and reads its payload, the target URL, the nonce and the account's URL.
  pub accept-sign_jws_with_kid :
      (payload : Bytes) (url nonce kid : Text) (jws : Bytes)
      → Undoes c v key
          (record { alg = alg c key; jwk = none; kid = some kid; nonce = nonce; url = url })
      → key_of kid ≡ some (public_jwk c key)
      → sign_jws_with_kid c payload url nonce kid key ≡ ok jws
      → accept v key_of jws
        ≡ some (
          record { alg = alg c key; jwk = none; kid = some kid; nonce = nonce; url = url },
          payload,
        )
  unfolding sign_jws_with_kid
  accept-sign_jws_with_kid payload url nonce kid jws undoes known e =
      accept-sign_jws_inner payload url nonce none (some kid) jws undoes known e

  -- A server whose tools undo the client's accepts a request signed with the embedded key, knowing no
  -- key beforehand, and reads its payload, the target URL, the nonce and the key.
  pub accept-sign_jws_with_jwk :
      (payload : Bytes) (url nonce : Text) (jws : Bytes)
      → Undoes c v key (record {
        alg = alg c key;
        jwk = some (public_jwk c key);
        kid = none;
        nonce = nonce;
        url = url;
      })
      → sign_jws_with_jwk c payload url nonce key ≡ ok jws
      → accept v key_of jws
        ≡ some (
          record {
            alg = alg c key;
            jwk = some (public_jwk c key);
            kid = none;
            nonce = nonce;
            url = url;
          },
          payload,
        )
  unfolding sign_jws_with_jwk
  accept-sign_jws_with_jwk payload url nonce jws undoes e =
      accept-sign_jws_inner payload url nonce (some (public_jwk c key)) none jws undoes refl e
