-- ===== src/Core/Challenge/Liveness.antt =====
-- A challenge that the server validates in time is driven to success, in
-- crates/core/src/challenge.rs.
use acme_wasm.Prelude.{ℕ, suc, ◌<◌, ◌≡◌, ◌≢◌, [], Text, ok}
use acme_wasm.Core.Transport.{HttpResponse, HttpClient, check}
use acme_wasm.Core.Clock.{Clock}
use acme_wasm.Core.Crates.{Crates, from_json}
use acme_wasm.Core.Records.Challenge.{Challenge, invalid, valid, status_enum}
use acme_wasm.Core.Program.{State, done, Program}
use acme_wasm.Core.Account.{Account, post_kid}

module _ (c : Crates) {W : Type 0} (clock : Clock W) (client : HttpClient W) (account : Account c W)
    (url : Text) where
  -- A poll from `s` that ends in `t` reads this challenge.
  pub record Poll (s t : State W) (challenge : Challenge) : Type 0 where
    pub response : HttpResponse
    pub good : HttpResponse
    pub answered : post_kid c account url [] client s ≡ done response t
    pub accepted : check c.problem_from_slice response ≡ ok good
    pub reads : from_json (c.challenge_from_slice good.body) ≡ ok challenge

  -- The state after the clock was read at `t` and the interval slept.
  abbrev slept : ℕ → State W → State W
  slept interval t = record t { world = clock.sleep interval (clock.now t.world).1 }

  -- The server validates the challenge after `n` more polls: until then it leaves the challenge open,
  -- and each of these polls ends before the deadline.
  pub data ValidAfter (deadline interval : ℕ) : ℕ → State W → State W → Type 0 where
    now_valid :
        (s t : State W) (challenge : Challenge)
        → Poll s t challenge
        → status_enum challenge ≡ valid
        → ValidAfter deadline interval 0 s t
    still_open :
        (n : ℕ) (s t u : State W) (challenge : Challenge)
        → Poll s t challenge
        → status_enum challenge ≢ valid
        → status_enum challenge ≢ invalid
        → (clock.now t.world).0 < deadline
        → ValidAfter deadline interval n (slept interval t) u
        → ValidAfter deadline interval (suc n) s u
