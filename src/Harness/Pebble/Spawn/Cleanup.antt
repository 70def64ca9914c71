-- ===== src/Harness/Pebble/Spawn/Cleanup.antt =====
-- What `PebbleHarness::spawn` of crates/testing/src/lib.rs leaves on any machine.
use mathlib.Core.Path
use acme_wasm.Prelude.{
  ℕ, ◌+◌, none, some, ◌<◌, ◌≡◌, refl, sym, ap, Bool, true, false, ◌++◌, if◌then◌else◌, is_empty,
  Bytes, Text, text, Result, ok, err, map_err,
}
use acme_wasm.Harness.Pebble.Host.{
  HarnessError, write_compose, Host, Ending, returns, errs, Call, Run, pure, throw, settled, act,
  attempt, on_errs, continue, ◌>>=◌,
}
use acme_wasm.Core.Polling.{Ticks, Onward}
use acme_wasm.Harness.Pebble.Trust.{trusted, built, reqwest_client_trusting}
use acme_wasm.Harness.Pebble.Trust.Laws.{split_pem_certs_total}
use acme_wasm.Harness.Pebble.Directory.{wait_loop, wait_for_directory}
use acme_wasm.Harness.Pebble.Directory.Laws.{Waited, served, timed_out, wait_for_directory-Waited}
use acme_wasm.Harness.Pebble.Docker.{
  pebble_container, docker_cp_from_container, read_host_docker_internal_ip,
}
use mathlib.Core.Option
use acme_wasm.Harness.Pebble.Spawn.{
  PebbleHarness, directory_timeout_ms, compose_written, up, clean_up, nonempty_ca, brought_up,
  drop_harness, spawn_harness,
}

-- A run after a call, by the two results of the call.
after_act :
    {W A B : Type 0} (P : Ending W B → Type 0) (call : Call W A) (f : A → Run W B)
    → ((e : HarnessError) (v : W) → P (errs e v))
    → ((a : A) (v : W) → P (f a v))
    → (w : W) → P ((act call >>= f) w)
after_act {W = W} {A = A} P call f fails goes_on w = by_result (call w)
  where
    by_result : (r : Result A HarnessError × W) → P (continue (settled r) f)
    by_result (ok a, v) = goes_on a v
    by_result (err e, v) = fails e v

-- A run after a call that succeeds.
after_ok :
    {W A B : Type 0} (P : Ending W B → Type 0) (call : Call W A) (f : A → Run W B) (a : A) (w : W)
    → (call w).0 ≡ ok a
    → P (f a (call w).1)
    → P ((act call >>= f) w)
after_ok P call f a w e = Path.subst (λ r. P (continue (settled (r, (call w).1)) f)) (sym e)

module _ {W : Type 0} (host : Host W) where
  -- A harness that is returned owns the directory; with an error, its removal is the last step.
  pub data Cleaned (tempdir : Text) : Ending W PebbleHarness → Type 0 where
    kept :
        (harness : PebbleHarness) (w : W)
        → harness.tempdir ≡ tempdir
        → Cleaned tempdir (returns harness w)
    removed : (e : HarnessError) (w : W) → Cleaned tempdir (errs e (host.remove_dir tempdir w))

  -- The harness is built, or there is an error.
  data Brought (tempdir : Text) : Ending W PebbleHarness → Type 0 where
    built_at :
        (harness : PebbleHarness) (w : W)
        → harness.tempdir ≡ tempdir
        → Brought tempdir (returns harness w)
    fails : (e : HarnessError) (w : W) → Brought tempdir (errs e w)

  data Over : Ending W (Unit {0}) → Type 0 where
    came_up : (w : W) → Over (returns tt w)
    gave_in : (e : HarnessError) (w : W) → Over (errs e w)

  after_check :
      (tempdir : Text) (b : Bool) (e : HarnessError) (f : Unit {0} → Run W PebbleHarness) (w : W)
      → Brought tempdir (f tt w)
      → Brought tempdir (((if b then throw e else pure tt) >>= f) w)
  after_check tempdir true e f w rest = fails e w
  after_check tempdir false e f w rest = rest

  brought_up-Brought :
      (tempdir path : Text) (w : W) → Brought tempdir (brought_up host tempdir path w)
  unfolding brought_up clean_up nonempty_ca
  brought_up-Brought tempdir path = after_act (Brought tempdir) _ _ fails λ _ _.
      after_act (Brought tempdir) (up host path) _ fails
        (λ _.
          after_act (Brought tempdir)
            (docker_cp_from_container host pebble_container (text "/test/certs/pebble.minica.pem"))
            _ fails
            λ ca v. after_check tempdir (is_empty ca) _ _ v (
              after_act (Brought tempdir) (read_host_docker_internal_ip host) _ fails
                (λ ip u. built_at _ u refl) v))
        _

  tidied :
      (tempdir : Text) (harness : PebbleHarness) (end : Ending W (Unit {0}))
      → harness.tempdir ≡ tempdir
      → Over end
      → Cleaned tempdir (continue (on_errs end (drop_harness host harness)) (λ _. pure harness))
  unfolding drop_harness
  tidied tempdir harness _ own (came_up w) = kept harness w own
  tidied tempdir harness _ own (gave_in e w) =
      Path.subst (λ t. Cleaned t (errs e (drop_harness host harness w))) own (removed e _)

  after_brought :
      (tempdir : Text) (rest : PebbleHarness → Run W PebbleHarness) (end : Ending W PebbleHarness)
      → Brought tempdir end
      → ((harness : PebbleHarness) (w : W)
          → harness.tempdir ≡ tempdir
          → Cleaned tempdir (rest harness w))
      → Cleaned tempdir (continue (on_errs end (host.remove_dir tempdir)) rest)
  after_brought tempdir rest _ (built_at harness w own) waits = waits harness w own
  after_brought tempdir rest _ (fails e w) waits = removed e w

  module _ (time : W → ℕ) (ticks : Ticks time host.clock)
      (onward : (client : host.reqwest.Client) (url : Text)
        → Onward time (host.reqwest.get client url 2000)) where
    Waited-Over :
        (client : host.reqwest.Client) (url : Text) (timeout deadline : ℕ) (w : W)
        (end : Ending W (Unit {0}))
        → Waited host client url timeout deadline w end
        → Over end
    Waited-Over client url timeout deadline w _ (served last rounds early fine) = came_up _
    Waited-Over client url timeout deadline w _ (timed_out last message rounds late) = gave_in _ _

    wait_for_directory-Over :
        (fuel : ℕ) (url : Text) (ca : Bytes) (timeout : ℕ) (w : W)
        → timeout < fuel
        → Over (wait_for_directory host fuel url ca timeout w)
    unfolding wait_for_directory reqwest_client_trusting
    wait_for_directory-Over fuel url ca timeout w enough =
        let (certs, e) = split_pem_certs_total ca in
        on_client
          (built host (
            trusted host (host.reqwest.builder (text "acme-testing/" ++ host.package_version))
              certs))
          (ap (Option.map _) e)
      where
        on_client :
            (r : Result host.reqwest.Client HarnessError)
            → reqwest_client_trusting host ca ≡ some r
            → Over (wait_for_directory host fuel url ca timeout w)
        on_client (ok client) trusts = Waited-Over client url timeout _ _ _ (
            wait_for_directory-Waited host client url time ticks (onward client url) fuel ca timeout
              w trusts enough)
        on_client (err e) refused =
            Path.subst
              (λ o. Over (
                continue (attempt o w) (λ client. λ v.
                  let (start, after) = host.clock.now v in
                  wait_loop host client url fuel timeout (start + timeout) none after)))
              (sym refused) (gave_in e w)

    -- Where a temporary directory can be made, with more fuel than the timeout has milliseconds,
    -- whatever docker, the container and the directory answer: `spawn` ends, and it returns a harness
    -- that owns the temporary directory, or an error after whose cause, last of all, that directory
    -- was removed.
    pub spawn_harness-Cleaned :
        (fuel : ℕ) (tempdir : Text) (w : W)
        → (host.temp_dir w).0 ≡ ok tempdir
        → directory_timeout_ms < fuel
        → Cleaned tempdir (spawn_harness host fuel w)
    unfolding spawn_harness
    spawn_harness-Cleaned fuel tempdir w made enough =
        let path = host.join_path tempdir (text "docker-compose.yml") in
        after_ok (Cleaned tempdir) (λ v. compose_written (host.temp_dir v)) _ tempdir w
          (ap (map_err write_compose) made)
          (after_brought tempdir _ _ (brought_up-Brought tempdir path (host.temp_dir w).1)
            λ harness v own. tidied tempdir harness _ own (
              wait_for_directory-Over fuel harness.directory_url harness.ca_pem directory_timeout_ms
                v enough))
