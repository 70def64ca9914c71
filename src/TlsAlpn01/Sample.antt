-- ===== src/TlsAlpn01/Sample.antt =====
-- A toy `rcgen` whose certificates can be read back, and what it makes of the sample account's key.
use mathlib.Core.Path
use acme_wasm.Prelude.{
  ℕ, zero, suc, ◌+◌, ◌≡◌, refl, ap, Bool, true, false, Option, none, some, List, [], ◌∷◌, ◌++◌,
  ◌==◌, length, take, drop, take-append, drop-append, Bytes, Text, text, before, Result, ok, err,
  ok_inj,
}
use acme_wasm.Core.Jws.{AccountKey, ed25519}
use acme_wasm.Core.Sample.{crates}
use acme_wasm.Core.Crates.{Crates}
use acme_wasm.TlsAlpn01.{
  CustomExtension, CertificateParams, Rcgen, TlsAlpn01Responder, acme_identifier, filled,
}
use acme_wasm.TlsAlpn01.Laws.{Reads}

abbrev bit : Bool → ℕ
bit true = 1
bit false = 0

abbrev units : ℕ → List (Unit {0})
units zero = []
units (suc n) = tt ∷ units n

abbrev Params : Type 0
Params = CertificateParams Unit Unit

abbrev encode : Params → CustomExtension → Bytes
encode p e =
    length p.subject_alt_names ∷ p.not_before ∷ p.not_after ∷ bit e.critical ∷ length e.oid ∷ e.oid
    ++ e.content

abbrev sign : Params → List CustomExtension → Result Bytes Text
sign p (e ∷ []) = ok (encode p e)
sign p _ = err (text "one extension")

abbrev pub decode : Bytes → Option Params
decode (names ∷ before ∷ after ∷ critical ∷ size ∷ s) = some (record {
  subject_alt_names = units names;
  distinguished_name = tt;
  not_before = before;
  not_after = after;
  custom_extensions =
      record { oid = take size s; critical = critical == 1; content = drop size s } ∷ [];
})
decode _ = none

abbrev pub toy : Rcgen ℕ
toy = record {
  KeyPair = Unit;
  San = Unit;
  Name = Unit;
  empty_name = tt;
  generate = λ w. (ok tt, w + 1);
  now_utc = λ w. (w, w);
  params_new = λ names. ok (record {
    subject_alt_names = units (length names);
    distinguished_name = tt;
    not_before = 0;
    not_after = 0;
    custom_extensions = [];
  });
  self_signed = λ p k. sign p p.custom_extensions;
  serialize_der = λ k. 7 ∷ [];
}

units-length : (l : List (Unit {0})) → units (length l) ≡ l
units-length [] = refl
units-length (tt ∷ l) = ap (λ t. tt ∷ t) (units-length l)

bit-true : (b : Bool) → (bit b == 1) ≡ b
bit-true true = refl
bit-true false = refl

decode-encode :
    (p : Params) (e : CustomExtension)
    → decode (encode p e) ≡ some (record p { custom_extensions = e ∷ [] })
decode-encode p e =
    rw
      (
        units-length p.subject_alt_names,
        bit-true e.critical,
        take-append e.oid e.content,
        drop-append e.oid e.content,
      )
      refl

reads_signed :
    (p : Params) (l : List CustomExtension) (der : Bytes)
    → sign p l ≡ ok der
    → decode der ≡ some (record p { custom_extensions = l })
reads_signed p [] der h = absurd cc
reads_signed p (e ∷ []) der h =
    Path.subst (λ d. decode d ≡ some (record p { custom_extensions = e ∷ [] })) (ok_inj h)
      (decode-encode p e)
reads_signed p (e ∷ f ∷ l) der h = absurd cc

abbrev pub zeros : ℕ → Bytes
zeros zero = []
zeros (suc n) = 0 ∷ zeros n

-- a digest of 32 bytes
abbrev pub digests : Crates
digests = record crates { sha256 = λ b. zeros 32 }

pub toy-Reads : Reads digests toy decode
toy-Reads = record {
  signed = λ p k der h. reads_signed p p.custom_extensions der h;
  plain = λ names p h. Path.subst (λ q. q.custom_extensions ≡ []) (ok_inj h) refl;
}

abbrev pub key : AccountKey digests
key = ed25519 tt

abbrev pub responder : TlsAlpn01Responder
responder = record {
  cert_der =
      encode
        (filled digests toy 1 (zeros 32) (record {
          subject_alt_names = tt ∷ [];
          distinguished_name = tt;
          not_before = 0;
          not_after = 0;
          custom_extensions = [];
        }))
        (acme_identifier (zeros 32));
  key_der = 7 ∷ [];
}
