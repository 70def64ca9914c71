-- ===== src/Core/Jws/Tests.antt =====
-- The JWK of the sample key.
use acme_wasm.Prelude.{
  ◌≡◌, refl, sym, ap, ◌∙◌, true, Option, none, some, ◌∷◌, ◌++◌, length, take, drop, take-append,
  drop-append, Bytes, Text, text, ◌is◌, is_iff, ok,
}
use acme_wasm.Core.Json.{Value}
use acme_wasm.Core.Crates.{ProtectedHeader, Flattened}
use acme_wasm.Core.Jws.{
  alg, public_jwk, sign_bytes, sign_jws_inner, sign_jws_with_jwk, sign_jws_with_kid,
}
use acme_wasm.Core.Jws.Verify.{
  Verifier, accept, Undoes, accept-sign_jws_with_kid, accept-sign_jws_with_jwk,
}
use acme_wasm.Core.Sample.{crates, account_key}

abbrev kid_header : ProtectedHeader
kid_header = record {
  alg = alg crates account_key;
  jwk = none;
  kid = some (text "/acct");
  nonce = text "n";
  url = text "/u";
}

abbrev jwk_header : ProtectedHeader
jwk_header = record {
  alg = alg crates account_key;
  jwk = some (public_jwk crates account_key);
  kid = none;
  nonce = text "n";
  url = text "/u";
}

abbrev parse_flattened : Bytes → Option Flattened
parse_flattened (n ∷ m ∷ b) =
    some
      (record { protected = take n b; payload = take m (drop n b); signature = drop m (drop n b) })
parse_flattened _ = none

-- a server that expects one header
abbrev verifier : ProtectedHeader → Verifier
verifier h = record {
  read_flattened = parse_flattened;
  read_header = λ b. some h;
  unbase64 = λ t. some t;
  genuine = λ jwk a input signature. signature is input;
}

abbrev encoded_form : Flattened → Bytes
encoded_form f = length f.protected ∷ length f.payload ∷ f.protected ++ (f.payload ++ f.signature)

encoded_is : (f : Flattened) (b : Bytes) → crates.flattened_to_vec f ≡ ok b → encoded_form f ≡ b
encoded_is f b e = cc

parse_encoded : (f : Flattened) → parse_flattened (encoded_form f) ≡ some f
parse_encoded f =
    rw
      (
        take-append f.protected (f.payload ++ f.signature),
        drop-append f.protected (f.payload ++ f.signature),
        take-append f.payload f.signature,
        drop-append f.payload f.signature,
      )
      refl

parse_flattened-ok :
    (f : Flattened) (b : Bytes) → crates.flattened_to_vec f ≡ ok b → parse_flattened b ≡ some f
parse_flattened-ok f b e = ap parse_flattened (sym (encoded_is f b e)) ∙ parse_encoded f

genuine_lem :
    (input signature : Bytes)
    → sign_bytes crates input account_key ≡ ok signature
    → (signature is input) ≡ true
unfolding sign_bytes
genuine_lem input signature e =
    let same : input ≡ signature = cc in (is_iff signature input).1 (sym same)

undoes : (h : ProtectedHeader) → Undoes crates (verifier h) account_key h
undoes h = record {
  flattened = parse_flattened-ok;
  header = λ b e. refl;
  base64 = λ b. refl;
  signature = genuine_lem;
}

abbrev no_keys : Text → Option Value
no_keys kid = none

abbrev one_key : Text → Option Value
one_key kid = some (public_jwk crates account_key)

-- the request that the client signs
abbrev signed : Bytes
signed = 3 ∷ 2 ∷ text "n/u" ++ (text "{}" ++ text "n/u.{}")

accept-sign_jws_with_kid_example :
    accept (verifier kid_header) one_key signed ≡ some (kid_header, text "{}")
unfolding sign_jws_with_kid sign_jws_inner sign_bytes text
accept-sign_jws_with_kid_example =
    accept-sign_jws_with_kid crates (verifier kid_header) one_key account_key (text "{}")
      (text "/u") (text "n") (text "/acct") signed (undoes kid_header) refl refl

accept-sign_jws_with_jwk_example :
    accept (verifier jwk_header) no_keys signed ≡ some (jwk_header, text "{}")
unfolding sign_jws_with_jwk sign_jws_inner sign_bytes text
accept-sign_jws_with_jwk_example =
    accept-sign_jws_with_jwk crates (verifier jwk_header) no_keys account_key (text "{}")
      (text "/u") (text "n") signed (undoes jwk_header) refl
