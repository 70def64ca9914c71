-- ===== src/Core/Flow/Tests.antt =====
-- An issuance against a server that hands out nonces, with a ledger of the requests.
use mathlib.Core.Path
use acme_wasm.Prelude.{
  refl, List, [], ◌∷◌, ◌++◌, Bytes, Text, text, eq_ignore_ascii_case, ok, ok_inj,
}
use acme_wasm.Core.Transport.{HttpClient, headers_all}
use acme_wasm.Core.Clock.{Clock}
use acme_wasm.Core.Challenge.{ChallengeSolver}
use acme_wasm.Core.Records.Challenge.{http01}
use acme_wasm.Core.Program.{State}
use acme_wasm.Core.Program.Keeps.{Post}
use acme_wasm.Core.Issue.{issue_certificate_with_timeouts}
use acme_wasm.Core.Nonce.Ledger.{Ledger, Observes, Accounts}
use acme_wasm.Core.Flow.Nonces.{Apart, ApartSolver, issue_certificate_with_timeouts-Accounts}
use acme_wasm.Core.Sample.{answer, crates, certificate_key, account_key}

record Log : Type 0 where
  received : List Text
  posted : List Bytes

abbrev client : HttpClient Log
client = record {
  head = λ url w. (ok answer, record w { received = w.received ++ text "n1" ∷ [] });
  get = λ url w. (ok answer, w);
  post_jose = λ url body w. (
    ok answer,
    record { received = w.received ++ text "n1" ∷ []; posted = w.posted ++ body ∷ [] },
  );
}

abbrev clock : Clock Log
clock = record { now = λ w. (0, w); sleep = λ d w. w }

abbrev solver : ChallengeSolver Log
solver = record {
  kind = http01;
  arm = λ id proof w. (ok (record { self_check = λ w. (ok tt, w); drop = λ w. w }), w);
}

abbrev ledger : Ledger Log
ledger = record { received = λ w. w.received; posted = λ w. w.posted }

abbrev begin : State Log
begin = record { pool = []; world = record { received = []; posted = [] } }

observes : Observes ledger client
unfolding headers_all text eq_ignore_ascii_case
observes = record {
  heads = λ url w. (refl, refl);
  gets = λ url w. (refl, refl);
  posts = λ url body w. (refl, refl);
}

solver-ApartSolver : ApartSolver ledger solver
solver-ApartSolver = record {
  arms = λ id proof. record { at = λ w. (refl, refl) };
  checks = λ id proof w ready armed.
      Path.subst (λ r. Apart ledger r.self_check) (ok_inj armed)
        (record { at = λ w. (refl, refl) });
  drops = λ id proof w ready armed.
      Path.subst (λ r. Apart ledger (λ w. (tt, r.drop w))) (ok_inj armed)
        (record { at = λ w. (refl, refl) });
}

issue_certificate_with_timeouts-Accounts_example : Post Unit (Accounts crates ledger) (
    issue_certificate_with_timeouts crates clock 3
      (text "/directory")
      []
      []
      (solver ∷ [])
      certificate_key
      account_key
      client
      1000
      1000
      begin)
issue_certificate_with_timeouts-Accounts_example =
    issue_certificate_with_timeouts-Accounts crates ledger clock client 3 (text "/directory") [] []
      (solver ∷ []) certificate_key account_key 1000 1000 begin
      (record {
        reads = record { at = λ w. (refl, refl) };
        sleeps = λ d. record { at = λ w. (refl, refl) };
      })
      observes (solver-ApartSolver, tt) refl refl refl
