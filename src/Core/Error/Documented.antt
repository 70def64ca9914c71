-- ===== src/Core/Error/Documented.antt =====
-- The problem types that the variants of crates/core/src/error.rs document.
use mathlib.Core.Path
use acme_wasm.Prelude.{
  ◌≡◌, refl, sym, ap, ◌∙◌, inl, inr, Bool, true, Bool-cases, Option, none, some, List, [], ◌∷◌,
  ◌++◌, any, ◌||◌, All, Text, text, ◌is◌, is_iff,
}
use acme_wasm.Core.Error.{
  AcmeError, bad_csr, bad_nonce, bad_public_key, bad_revocation_reason, bad_signature_algorithm,
  caa, compound, connection, dns, external_account_required, incorrect_response, invalid_contact,
  malformed, order_not_ready, rate_limited, rejected_identifier, server_internal, tls, unauthorized,
  unsupported_contact, unsupported_identifier, user_action_required, account_does_not_exist,
  already_revoked, bad_revoked, transport, serialization, jose, timeout, missing_field, other, http,
  prefix, parse_problem_type,
}
use acme_wasm.Core.Error.Laws.{problem_code, parse_code-problem_code, parse_problem_type-prefix}

-- The codes in the documentation of the variants.
abbrev pub documented : List Text
documented =
    text "badCSR"
    ∷ text "badNonce"
    ∷ text "badPublicKey"
    ∷ text "badRevocationReason"
    ∷ text "badSignatureAlgorithm"
    ∷ text "caa"
    ∷ text "compound"
    ∷ text "connection"
    ∷ text "dns"
    ∷ text "externalAccountRequired"
    ∷ text "incorrectResponse"
    ∷ text "invalidContact"
    ∷ text "malformed"
    ∷ text "orderNotReady"
    ∷ text "rateLimited"
    ∷ text "rejectedIdentifier"
    ∷ text "serverInternal"
    ∷ text "tls"
    ∷ text "unauthorized"
    ∷ text "unsupportedContact"
    ∷ text "unsupportedIdentifier"
    ∷ text "userActionRequired"
    ∷ text "accountDoesNotExist"
    ∷ text "alreadyRevoked"
    ∷ text "badRevoked"
    ∷ []

abbrev pub is_documented : Text → Bool
is_documented code = any (λ k. code is k) documented

listed :
    (k m c d : Text)
    → ◌≡◌ {A = Option (Text × Text)} (some (k, m)) (some (c, d))
    → is_documented k ≡ true
    → is_documented c ≡ true
listed k m c d h e =
    let same : (k, m) ≡ (c, d) = cc in ap (λ (x : Text × Text). is_documented x.0) (sym same) ∙ e

-- A variant's code is in the list.
pub problem_code-is_documented :
    (e : AcmeError) (c d : Text) → problem_code e ≡ some (c, d) → is_documented c ≡ true
unfolding text ◌is◌
problem_code-is_documented (bad_csr m) c d h = listed _ m c d h refl
problem_code-is_documented (bad_nonce m) c d h = listed _ m c d h refl
problem_code-is_documented (bad_public_key m) c d h = listed _ m c d h refl
problem_code-is_documented (bad_revocation_reason m) c d h = listed _ m c d h refl
problem_code-is_documented (bad_signature_algorithm m) c d h = listed _ m c d h refl
problem_code-is_documented (caa m) c d h = listed _ m c d h refl
problem_code-is_documented (compound m) c d h = listed _ m c d h refl
problem_code-is_documented (connection m) c d h = listed _ m c d h refl
problem_code-is_documented (dns m) c d h = listed _ m c d h refl
problem_code-is_documented (external_account_required m) c d h = listed _ m c d h refl
problem_code-is_documented (incorrect_response m) c d h = listed _ m c d h refl
problem_code-is_documented (invalid_contact m) c d h = listed _ m c d h refl
problem_code-is_documented (malformed m) c d h = listed _ m c d h refl
problem_code-is_documented (order_not_ready m) c d h = listed _ m c d h refl
problem_code-is_documented (rate_limited m) c d h = listed _ m c d h refl
problem_code-is_documented (rejected_identifier m) c d h = listed _ m c d h refl
problem_code-is_documented (server_internal m) c d h = listed _ m c d h refl
problem_code-is_documented (tls m) c d h = listed _ m c d h refl
problem_code-is_documented (unauthorized m) c d h = listed _ m c d h refl
problem_code-is_documented (unsupported_contact m) c d h = listed _ m c d h refl
problem_code-is_documented (unsupported_identifier m) c d h = listed _ m c d h refl
problem_code-is_documented (user_action_required m) c d h = listed _ m c d h refl
problem_code-is_documented (account_does_not_exist m) c d h = listed _ m c d h refl
problem_code-is_documented (already_revoked m) c d h = listed _ m c d h refl
problem_code-is_documented (bad_revoked m) c d h = listed _ m c d h refl
problem_code-is_documented (transport m) c d h = absurd cc
problem_code-is_documented (serialization m) c d h = absurd cc
problem_code-is_documented (jose m) c d h = absurd cc
problem_code-is_documented (timeout m) c d h = absurd cc
problem_code-is_documented (missing_field m) c d h = absurd cc
problem_code-is_documented (other m) c d h = absurd cc
problem_code-is_documented (http status body) c d h = absurd cc

-- Each code of the list is a variant's.
variants : All (λ k. (d : Text) → (e : AcmeError) × (problem_code e ≡ some (k, d))) documented
variants = (
  λ d. (bad_csr d, refl),
  (
    λ d. (bad_nonce d, refl),
    (
      λ d. (bad_public_key d, refl),
      (
        λ d. (bad_revocation_reason d, refl),
        (
          λ d. (bad_signature_algorithm d, refl),
          (
            λ d. (caa d, refl),
            (
              λ d. (compound d, refl),
              (
                λ d. (connection d, refl),
                (
                  λ d. (dns d, refl),
                  (
                    λ d. (external_account_required d, refl),
                    (
                      λ d. (incorrect_response d, refl),
                      (
                        λ d. (invalid_contact d, refl),
                        (
                          λ d. (malformed d, refl),
                          (
                            λ d. (order_not_ready d, refl),
                            (
                              λ d. (rate_limited d, refl),
                              (
                                λ d. (rejected_identifier d, refl),
                                (
                                  λ d. (server_internal d, refl),
                                  (
                                    λ d. (tls d, refl),
                                    (
                                      λ d. (unauthorized d, refl),
                                      (
                                        λ d. (unsupported_contact d, refl),
                                        (
                                          λ d. (unsupported_identifier d, refl),
                                          (
                                            λ d. (user_action_required d, refl),
                                            (
                                              λ d. (account_does_not_exist d, refl),
                                              (
                                                λ d. (already_revoked d, refl),
                                                (λ d. (bad_revoked d, refl), tt),
                                              ),
                                            ),
                                          ),
                                        ),
                                      ),
                                    ),
                                  ),
                                ),
                              ),
                            ),
                          ),
                        ),
                      ),
                    ),
                  ),
                ),
              ),
            ),
          ),
        ),
      ),
    ),
  ),
)

any-All :
    (P : Text → Type 0) (c : Text) (ks : List Text) → any (λ k. c is k) ks ≡ true → All P ks → P c
any-All P c [] e h = absurd cc
any-All P c (k ∷ ks) e h = elim (Bool-cases (c is k)) [
  | inl here ↦ Path.subst P (sym ((is_iff c k).0 here)) h.0
  | inr not_here ↦ any-All P c ks (sym (ap (λ b. b || any (λ k. c is k) ks) not_here) ∙ e) h.1
]

-- A listed code is not read as `other`.
pub parse_problem_type-is_documented :
    (c d message : Text)
    → is_documented c ≡ true
    → ¬ (parse_problem_type (prefix ++ c) d ≡ other message)
parse_problem_type-is_documented c d message known lost =
    let (e, code) =
      any-All (λ k. (m : Text) → (e : AcmeError) × (problem_code e ≡ some (k, m))) c documented
        known variants d in
    let read : e ≡ other message =
      sym (parse_code-problem_code e code) ∙ sym (parse_problem_type-prefix c d) ∙ lost in
    let no_code : ◌≡◌ {A = Option (Text × Text)} none (some (c, d)) =
      sym (ap problem_code read) ∙ code in
    absurd cc
