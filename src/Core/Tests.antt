-- ===== src/Core/Tests.antt =====
-- Runs of the flow on the sample server.
use mathlib.Core.Path
use acme_wasm.Prelude.{
  join, ℕ, ◌≡◌, refl, ◌≢◌, [], ◌∷◌, arith, Text, text, ◌is◌, to_lower, eq_ignore_ascii_case, ok,
}
use acme_wasm.Core.Program.{State, done, out_of_fuel}
use acme_wasm.Core.Directory
use acme_wasm.Core.Order
use acme_wasm.Core.Authorization
use acme_wasm.Core.Certificate
use acme_wasm.Core.Certificate.{finalize_with_deadline, finalize_with_intervals, certified}
use acme_wasm.Core.Records.Order as Orders
use acme_wasm.Core.Records.Authorization as Authz
use acme_wasm.Core.Records.Challenge.{kind, from_type, same_kind}
use acme_wasm.Core.Challenge.{poll_challenge}
use acme_wasm.Core.Issue.{run_authorizations, run_one_authorization, pick_solver_and_challenge}
use acme_wasm.Core.Account.{create, create_with_options}
use acme_wasm.Core.Csr.{build_csr, dns_names, dns_name}
use acme_wasm.Core.Jws.{sign_jws_with_jwk}
use acme_wasm.Core.Records.Order.{Identifier}
use acme_wasm.Core.Records.Challenge.{status_enum, from_wire}
use acme_wasm.Core.Transport.{check, header, headers_all}
use acme_wasm.Core.Challenge.{
  ChallengeReady, poll_challenge_with_interval, poll_loop, owning, dropped, judge,
}
use acme_wasm.Core.Challenge.Laws.{Validated, poll_challenge_with_interval-eq-done}
use acme_wasm.Core.Nonce
use acme_wasm.Core.Nonce.{
  refill, pop_front, pop, push_all, got, absorb, absorb_pool, is_pool_empty, new,
}
use acme_wasm.Core.Jws.{sign_jws_with_kid, sign_jws_inner, sign_bytes, alg}
use acme_wasm.Core.Account.{post_kid}
use acme_wasm.Core.Issue.{issue_certificate_with_timeouts}
use acme_wasm.Core.Polling.{OnwardReady}
use acme_wasm.Core.Polling.Issue.{issue_certificate_with_timeouts-ends}
use acme_wasm.Core.Sample.{
  crates, client, clock, handle, solver, account_key, certificate_key, account, begin,
}

handle_of :
    (id : Identifier) (proof : Text) (w : ℕ) (ready : ChallengeReady ℕ)
    → (solver.arm id proof w).0 ≡ ok ready
    → handle ≡ ready
handle_of id proof w ready e = cc

issue_certificate_with_timeouts-ends_example :
    issue_certificate_with_timeouts crates clock 3001
      (text "/directory")
      []
      []
      (solver ∷ [])
      certificate_key
      account_key
      client
      2500
      3000
      begin
    ≢ out_of_fuel
issue_certificate_with_timeouts-ends_example =
    issue_certificate_with_timeouts-ends crates (λ w. w) clock
      (record { reads = λ w. omega arith; goes_on = λ w. omega arith; sleeps = λ d w. omega arith })
      client
      (record {
        heads = λ url w. omega arith;
        gets = λ url w. omega arith;
        posts = λ url body w. omega arith;
      })
      3001 (text "/directory") [] [] (solver ∷ []) certificate_key account_key 2500 3000 begin
      (
        record {
          arms = λ id proof w. omega arith;
          handles = λ id proof w ready e.
              Path.subst (OnwardReady (λ w. w)) (handle_of id proof w ready e)
                (record { checks = λ w. omega arith; drops = λ w. omega arith });
        },
        tt,
      )
      (omega arith) (omega arith)

abbrev at_end : State ℕ
at_end = record { pool = text "n1" ∷ []; world = 8 }

poll_run :
    poll_challenge_with_interval crates clock 5
      (text "/challenge")
      account
      client
      handle
      100
      10
      begin
    ≡ done tt at_end
unfolding poll_challenge_with_interval poll_loop owning dropped post_kid Nonce.get refill pop_front
    got absorb absorb_pool is_pool_empty new sign_jws_with_kid sign_jws_inner sign_bytes alg check
    headers_all header eq_ignore_ascii_case status_enum from_wire judge text ◌is◌ to_lower
poll_run = refl

poll_challenge_with_interval-eq-done_example :
    (t : State ℕ) × Validated crates account client (text "/challenge") t
    × (at_end ≡ record t { world = handle.drop t.world })
poll_challenge_with_interval-eq-done_example =
    poll_challenge_with_interval-eq-done crates clock account client 5 (text "/challenge") handle
      100 10 begin at_end poll_run

-- The whole flow returns the certificate.
issue_run :
    (s : State ℕ) × (issue_certificate_with_timeouts crates clock 9
        (text "/directory")
        []
        []
        (solver ∷ [])
        certificate_key
        account_key
        client
        5
        5
        begin
      ≡ done [] s)
unfolding issue_certificate_with_timeouts run_authorizations run_one_authorization
    pick_solver_and_challenge Directory.fetch Directory.parse create create_with_options
    Order.create Authorization.fetch poll_challenge finalize_with_deadline finalize_with_intervals
    Certificate.poll_loop Certificate.judge certified Order.refresh Certificate.download
    Orders.status_enum Orders.from_wire Authz.status_enum Authz.from_wire build_csr dns_names
    dns_name join Nonce.new sign_jws_with_jwk kind from_type same_kind poll_challenge_with_interval
    poll_loop owning dropped post_kid Nonce.get refill pop_front got absorb absorb_pool
    is_pool_empty sign_jws_with_kid sign_jws_inner sign_bytes alg check headers_all header
    eq_ignore_ascii_case status_enum from_wire judge text ◌is◌ to_lower
issue_run = (record { pool = text "n1" ∷ []; world = 16 }, refl)
