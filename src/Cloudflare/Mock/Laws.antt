-- ===== src/Cloudflare/Mock/Laws.antt =====
-- The assertions of the scripted transport in crates/dns-providers/cloudflare/src/transport.rs.
use acme_wasm.Prelude.{
  ◌-◌, ◌≡◌, refl, ap, ◌∙◌, Bool, true, false, ◌&&◌, ◌||◌, List, [], ◌∷◌, ◌++◌, map, arith, le→leb,
  length, take, drop, any, length-append, drop-append, Bytes, Text, ◌is◌, is_refl, contains,
  to_lower, eq_ignore_ascii_case, from_utf8,
}
use acme_wasm.Cloudflare.Transport.{HttpMethod, get, post, delete}
use acme_wasm.Cloudflare.Mock.{
  MockCall, same_method, ends_with, sent_header, or_blank, every, as_expected,
}

pub and_true : (a b : Bool) → a ≡ true → b ≡ true → (a && b) ≡ true
and_true true b e f = f
and_true false b e f = absurd cc

pub ends_with-append : (s suffix : Text) → ends_with suffix (s ++ suffix) ≡ true
unfolding ends_with
ends_with-append s suffix =
    let rest : length (s ++ suffix) - length suffix ≡ length s =
      omega (arith, length-append s suffix) in
    and_true _ _
      (le→leb (length suffix) (length (s ++ suffix)) (omega (arith, length-append s suffix)))
      (ap (λ n. drop n (s ++ suffix) is suffix) rest
        ∙ ap (λ t. t is suffix) (drop-append s suffix)
        ∙ is_refl suffix)

take_all : (s : Text) → take (length s) s ≡ s
take_all [] = refl
take_all (c ∷ s) = ap (λ t. c ∷ t) (take_all s)

pub contains_refl : (s : Text) → contains s s ≡ true
unfolding contains
contains_refl [] = refl
contains_refl (c ∷ s) =
    ap (λ t. (t is (c ∷ s)) || contains (c ∷ s) s) (take_all (c ∷ s))
    ∙ ap (λ b. b || contains (c ∷ s) s) (is_refl (c ∷ s))

pub eq_ignore_ascii_case_refl : (s : Text) → eq_ignore_ascii_case s s ≡ true
unfolding eq_ignore_ascii_case
eq_ignore_ascii_case_refl s = is_refl (map to_lower s)

same_method_refl : (m : HttpMethod) → same_method m m ≡ true
unfolding same_method
same_method_refl get = refl
same_method_refl post = refl
same_method_refl delete = refl

-- The four assertions hold one by one.
pub as_expected-true :
    (call : MockCall) (url : Text) (body : Bytes) (headers : List (Text × Text))
    → ends_with call.expected_url_suffix url ≡ true
    → every (λ h. any (sent_header h) headers) call.expected_headers ≡ true
    → every (λ fragment. contains fragment (or_blank (from_utf8 body))) call.expected_body_contains
      ≡ true
    → as_expected call call.expected_method url body headers ≡ true
unfolding as_expected
as_expected-true call url body headers e f g =
    and_true _ _ (and_true _ _ (and_true _ _ (same_method_refl call.expected_method) e) f) g
