-- ===== src/Core/Flow/Issue.antt =====
-- The whole flow of crates/core/src/lib.rs keeps what its parts keep.
use mathlib.Core.Path
use acme_wasm.Prelude.{ℕ, ◌≡◌, true, List, [], ◌∷◌, All, All-middle, Bytes, Text, text, ok, ok_or}
use acme_wasm.Core.Error.{AcmeError, missing_field}
use acme_wasm.Core.Transport.{HttpClient, check}
use acme_wasm.Core.Clock.{Clock}
use acme_wasm.Core.Crates.{Crates}
use acme_wasm.Core.Records.Order.{Identifier}
use acme_wasm.Core.Records.Order as Orders
use acme_wasm.Core.Records.Authorization as Authz
use acme_wasm.Core.Records.Directory.{Directory}
use acme_wasm.Core.Records.Challenge.{Challenge}
use acme_wasm.Core.Jws.{AccountKey}
use acme_wasm.Core.Directory
use acme_wasm.Core.Order
use acme_wasm.Core.Csr.{CertificateKey}
use acme_wasm.Core.Authorization
use acme_wasm.Core.Certificate
use acme_wasm.Core.Challenge.{
  ChallengeReady, ChallengeSolver, compute_key_authorization, poll_challenge,
}
use acme_wasm.Core.Program.{State, attempt, io, ◌>>=◌, ◌>>◌}
use acme_wasm.Core.Program.Keeps.{
  Keeps, Calm, Keeps-pure, Keeps-attempt, Keeps-io, Keeps-bind, Keeps-if, Keeps-bind_run,
  Keeps-attempt_ok, Keeps-io_ok,
}
use acme_wasm.Core.Account.{Account, create, post_kid}
use acme_wasm.Core.Requests.{create-Keeps, fetch-Keeps, download-Keeps}
use acme_wasm.Core.Issue.{
  pick_solver_and_challenge, is_valid, run_one_authorization, run_authorizations,
  issue_certificate_with_timeouts,
}
use acme_wasm.Core.Issue.Solvers.{Picked, pick_solver_and_challenge-Picked}
use acme_wasm.Core.Polling.Creation.{create-Yields}
use acme_wasm.Core.Program.Yields.{Yields-at}

abbrev no_token : AcmeError
no_token = missing_field (text "challenge.token")

abbrev no_certificate : AcmeError
no_certificate = missing_field (text "certificate URL on valid order")

module _ (c : Crates) {W : Type 0} (Cut : Type 0) (P : State W → Type 0) (clock : Clock W)
    (client : HttpClient W) where
  -- The solver keeps `P` when it is armed, and so does polling with the handle that it returns.
  pub record Serves (account : Account c W) (fuel timeout_ms : ℕ) (solver : ChallengeSolver W)
      : Type 0 where
    pub arms : (id : Identifier) (proof : Text) → Calm P (solver.arm id proof)
    pub polls :
        (id : Identifier) (proof : Text) (w : W) (ready : ChallengeReady W) (url : Text)
        → (solver.arm id proof w).0 ≡ ok ready
        → Keeps Cut P (poll_challenge c clock fuel url account client ready timeout_ms)

  module _ (account : Account c W)
      (posts : (url : Text) (payload : Bytes) → Keeps Cut P (post_kid c account url payload client))
      (fuel timeout_ms : ℕ) (solvers : List (ChallengeSolver W))
      (serves : All (Serves account fuel timeout_ms) solvers) where
    Picked-Serves :
        (authz : Authz.Authorization) (solver : ChallengeSolver W) (ch : Challenge)
        → Picked authz solvers solver ch
        → Serves account fuel timeout_ms solver
    Picked-Serves authz solver ch p =
        All-middle (Serves account fuel timeout_ms) p.earlier solver p.later
          (Path.subst (All (Serves account fuel timeout_ms)) p.place serves)

    run_one-Keeps :
        (url : Text)
        → Keeps Cut P (run_one_authorization c clock fuel url account client solvers timeout_ms)
    unfolding run_one_authorization
    run_one-Keeps url =
        Keeps-bind (Authorization.fetch c url account client) _
          (fetch-Keeps c client account posts url)
          λ authz. Keeps-if (is_valid (Authz.status_enum authz)) _ _ (Keeps-pure tt) (
            Keeps-attempt_ok (pick_solver_and_challenge c authz solvers) _ λ pick picked.
              Keeps-bind (attempt (ok_or no_token pick.1.token)) _
                (Keeps-attempt (ok_or no_token pick.1.token))
                λ token.
                  let served =
                    Picked-Serves authz pick.0 pick.1
                      (pick_solver_and_challenge-Picked c authz solvers pick.0 pick.1 picked) in
                  let proof = compute_key_authorization c token account.key in
                  Keeps-io_ok (pick.0.arm authz.identifier proof) _
                    (served.arms authz.identifier proof)
                    λ ready w armed. served.polls authz.identifier proof w ready pick.1.url armed)

    pub run_authorizations-Keeps :
        (urls : List Text)
        → Keeps Cut P (run_authorizations c clock fuel urls account client solvers timeout_ms)
    unfolding run_authorizations
    run_authorizations-Keeps [] = Keeps-pure tt
    run_authorizations-Keeps (url ∷ urls) =
        Keeps-bind (run_one_authorization c clock fuel url account client solvers timeout_ms) _
          (run_one-Keeps url) λ _. run_authorizations-Keeps urls

  pub fetch_directory-Keeps :
      (url : Text) → Calm P (client.get url) → Keeps Cut P (Directory.fetch c url client)
  unfolding Directory.fetch
  fetch_directory-Keeps url calm =
      Keeps-bind (io (client.get url)) _ (Keeps-io (client.get url) calm) λ response.
        Keeps-bind (attempt (check c.problem_from_slice response)) _
          (Keeps-attempt (check c.problem_from_slice response))
          λ good. Keeps-attempt (Directory.parse c good.body)

  -- What an account that shares the client keeps.
  pub record Works (fuel challenge_ms finalize_ms : ℕ) (solvers : List (ChallengeSolver W))
      (cert_key : CertificateKey c) (account : Account c W) : Type 0 where
    pub posts : (url : Text) (payload : Bytes) → Keeps Cut P (post_kid c account url payload client)
    pub serves : All (Serves account fuel challenge_ms) solvers
    pub finalizes :
        (order : Orders.Order)
        → Keeps Cut P (
            Certificate.finalize_with_deadline c clock fuel order cert_key account client
              finalize_ms)

  module _ (fuel challenge_ms finalize_ms : ℕ) (solvers : List (ChallengeSolver W))
      (cert_key : CertificateKey c) where
    with_account :
        (account : Account c W) (identifiers : List Identifier)
        → Works fuel challenge_ms finalize_ms solvers cert_key account
        → Keeps Cut P (
            Order.create c account identifiers client >>= λ order.
            run_authorizations c clock fuel order.authorizations account client solvers challenge_ms
            >> (Certificate.finalize_with_deadline c clock fuel order cert_key account client
                  finalize_ms
                >>= λ final_order.
                    attempt (ok_or no_certificate final_order.certificate) >>= λ cert_url.
                    Certificate.download c cert_url account client))
    with_account account identifiers works =
        Keeps-bind (Order.create c account identifiers client) _
          (create-Keeps c client account works.posts identifiers)
          λ order.
            Keeps-bind
              (run_authorizations c clock fuel order.authorizations account client solvers
                challenge_ms)
              _
              (run_authorizations-Keeps account works.posts fuel challenge_ms solvers works.serves
                order.authorizations)
              λ _.
                Keeps-bind
                  (Certificate.finalize_with_deadline c clock fuel order cert_key account client
                    finalize_ms)
                  _ (works.finalizes order)
                  λ final_order.
                    Keeps-bind (attempt (ok_or no_certificate final_order.certificate)) _
                      (Keeps-attempt (ok_or no_certificate final_order.certificate))
                      λ cert_url. download-Keeps c client account works.posts cert_url

    pub issue-Keeps :
        (directory_url : Text) (contact : List Text) (identifiers : List Identifier)
        (account_key : AccountKey c)
        → Calm P (client.get directory_url)
        → ((directory : Directory)
            → Keeps Cut P (create c directory contact true account_key client))
        → ((account : Account c W)
            → account.nonce.transport ≡ client
            → Works fuel challenge_ms finalize_ms solvers cert_key account)
        → Keeps Cut P (
            issue_certificate_with_timeouts c clock fuel directory_url contact identifiers solvers
              cert_key account_key client challenge_ms finalize_ms)
    unfolding issue_certificate_with_timeouts
    issue-Keeps directory_url contact identifiers account_key gets creates works =
        Keeps-bind (Directory.fetch c directory_url client) _
          (fetch_directory-Keeps directory_url gets)
          λ directory.
            Keeps-bind_run (create c directory contact true account_key client) _
              (creates directory)
              λ account s t made. with_account account identifiers (
                works account (
                  Yields-at (create c directory contact true account_key client) s t account
                    (create-Yields c directory contact true account_key client) made))
