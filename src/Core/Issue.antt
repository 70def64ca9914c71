-- ===== src/Core/Issue.antt =====
-- crates/core/src/lib.rs: the whole flow from the directory to the certificate.
pub mod Solvers
mod Tests
use acme_wasm.Prelude.{
  ℕ, Bool, true, false, Option, none, some, List, [], ◌∷◌, ◌++◌, map, if◌then◌else◌, find_first,
  Bytes, Text, text, Result, ok, err, ok_or,
}
use acme_wasm.Core.Error.{missing_field, unsupported_identifier, AcmeError}
use acme_wasm.Core.Transport.{HttpClient}
use acme_wasm.Core.Records.Order.{Identifier}
use acme_wasm.Core.Records.Challenge.{Challenge, ChallengeKind, same_kind, kind}
use acme_wasm.Core.Records.Authorization as Authz
use acme_wasm.Core.Records.Authorization.{Authorization, valid}
use acme_wasm.Core.Crates.{Crates}
use acme_wasm.Core.Clock.{Clock}
use acme_wasm.Core.Program.{Program, pure, attempt, io, ◌>>=◌, ◌>>◌}
use acme_wasm.Core.Jws.{AccountKey}
use acme_wasm.Core.Directory
use acme_wasm.Core.Account.{Account}
use acme_wasm.Core.Account
use acme_wasm.Core.Order
use acme_wasm.Core.Authorization
use acme_wasm.Core.Challenge.{
  ChallengeSolver, compute_key_authorization, challenge_timeout, poll_challenge,
}
use acme_wasm.Core.Csr.{CertificateKey}
use acme_wasm.Core.Certificate

-- `DEFAULT_CHALLENGE_TIMEOUT`, in milliseconds
abbrev pub default_challenge_timeout : ℕ
default_challenge_timeout = 120000

abbrev type_of : Challenge → Text
type_of ch = ch.type

-- `challenges.iter().find(|c| c.kind() == want)`
abbrev pub offered : ChallengeKind → Authorization → Option Challenge
offered want authz = find_first (λ ch. same_kind (kind ch) want) authz.challenges

module _ (c : Crates) where
  abbrev pub no_solver : Authorization → AcmeError
  no_solver authz = unsupported_identifier (
      text "no solver for identifier "
      ++ authz.identifier.value
      ++ text ": challenges offered "
      ++ c.debug_texts (map type_of authz.challenges))

  -- the `for` loop over the solvers
  unfoldable pub pick_solver_and_challenge :
      {W : Type 0}
      → Authorization
      → List (ChallengeSolver W)
      → Result (ChallengeSolver W × Challenge) AcmeError
  pick_solver_and_challenge authz [] = err (no_solver authz)
  pick_solver_and_challenge authz (solver ∷ solvers) =
      let rest = pick_solver_and_challenge authz solvers in
      elim (offered solver.kind authz) [ some ch ↦ ok (solver, ch) | none ↦ rest ]

-- `==` on the status
abbrev pub is_valid : Authz.AuthorizationStatus → Bool
is_valid valid = true
is_valid _ = false

module _ (c : Crates) {W : Type 0} (clock : Clock W) where
  unfoldable pub run_one_authorization :
      ℕ → Text → Account c W → HttpClient W → List (ChallengeSolver W) → ℕ → Program W Unit
  unfolding pick_solver_and_challenge
  run_one_authorization fuel authz_url account client solvers timeout_ms = do
    authz ← Authorization.fetch c authz_url account client
    if is_valid (Authz.status_enum authz) then pure tt else do
      (solver, challenge) ← attempt (pick_solver_and_challenge c authz solvers)
      token ← attempt (ok_or (missing_field (text "challenge.token")) challenge.token)
      ready ← io (solver.arm authz.identifier (compute_key_authorization c token account.key))
      poll_challenge c clock fuel challenge.url account client ready timeout_ms

  -- the `for` loop over the authorization URLs
  unfoldable pub run_authorizations :
      ℕ → List Text → Account c W → HttpClient W → List (ChallengeSolver W) → ℕ → Program W Unit
  run_authorizations fuel [] account client solvers timeout_ms = pure tt
  run_authorizations fuel (authz_url ∷ urls) account client solvers timeout_ms = do
    run_one_authorization fuel authz_url account client solvers timeout_ms
    run_authorizations fuel urls account client solvers timeout_ms

  unfoldable pub issue_certificate_with_timeouts :
      ℕ
      → Text
      → List Text
      → List Identifier
      → List (ChallengeSolver W)
      → CertificateKey c
      → AccountKey c
      → HttpClient W
      → ℕ
      → ℕ
      → Program W Bytes
  issue_certificate_with_timeouts fuel directory_url contact identifiers solvers cert_key
        account_key client challenge_timeout finalize_timeout =
      do
        directory ← Directory.fetch c directory_url client
        account ← Account.create c directory contact true account_key client
        order ← Order.create c account identifiers client
        run_authorizations fuel order.authorizations account client solvers challenge_timeout
        final_order ←
            Certificate.finalize_with_deadline c clock fuel order cert_key account client
              finalize_timeout
        cert_url ←
            attempt (
              ok_or (missing_field (text "certificate URL on valid order")) final_order.certificate)
        Certificate.download c cert_url account client

  unfoldable pub issue_certificate :
      ℕ
      → Text
      → List Text
      → List Identifier
      → List (ChallengeSolver W)
      → CertificateKey c
      → AccountKey c
      → HttpClient W
      → Program W Bytes
  unfolding issue_certificate_with_timeouts
  issue_certificate fuel directory_url contact identifiers solvers cert_key account_key client =
      issue_certificate_with_timeouts fuel directory_url contact identifiers solvers cert_key
        account_key client default_challenge_timeout Certificate.default_finalize_timeout
