-- ===== src/Harness/Pebble/Spawn.antt =====
-- `PebbleHarness::spawn` of crates/testing/src/lib.rs, and the teardown in `Drop`.
pub mod Cleanup
pub mod Gives
pub mod Laws
mod Tests
use acme_wasm.Prelude.{
  ℕ, [], ◌∷◌, ◌++◌, if◌then◌else◌, is_empty, Bytes, Text, text, Result, ok, err, map_err,
}
use acme_wasm.Harness.Pebble.Host.{
  HarnessError, write_compose, extract_ca, harness_error_text, Host, returns, Call, Run, pure,
  throw, act, or_drop, ◌>>=◌, ◌>>◌,
}
use acme_wasm.Harness.Pebble.ComposeFile.{compose_yaml}
use acme_wasm.Harness.Pebble.Docker.{
  pebble_container, run_compose, docker_cp_from_container, read_host_docker_internal_ip,
}
use acme_wasm.Harness.Pebble.Directory.{wait_for_directory}

-- `tempdir` is the path that the `TempDir` owns.
pub record PebbleHarness : Type 0 where
  pub directory_url : Text
  pub ca_pem : Bytes
  pub challtestsrv_dns_url : Text
  pub host_ip : Text
  pub tempdir : Text
  pub compose_path : Text

abbrev pub directory_timeout_ms : ℕ
directory_timeout_ms = 60000

-- `.map_err(HarnessError::WriteCompose)`
abbrev pub compose_written : {W A : Type 0} → Result A Text × W → Result A HarnessError × W
compose_written (r, w) = (map_err write_compose r, w)

module _ {W : Type 0} (host : Host W) where
  -- What follows `up -d --wait`.
  unfoldable pub or_up : Text → Result Bytes HarnessError × W → Result Bytes HarnessError × W
  or_up compose_path (ok out, w) = (ok out, w)
  or_up compose_path (err e, w) = run_compose host compose_path (text "up" ∷ text "-d" ∷ []) w

  unfoldable pub up : Text → Call W Bytes
  unfolding or_up
  up compose_path w =
      or_up compose_path
        (run_compose host compose_path (text "up" ∷ text "-d" ∷ text "--wait" ∷ []) w)

  -- A leftover stack is taken down; whether that worked is not looked at.
  unfoldable pub clean_up : Text → Run W (Unit {0})
  clean_up compose_path w =
      returns tt
        (run_compose host compose_path
          (text "down" ∷ text "--remove-orphans" ∷ text "--timeout" ∷ text "3" ∷ []) w).1

  unfoldable pub nonempty_ca : Bytes → Run W (Unit {0})
  nonempty_ca ca_pem =
      if is_empty ca_pem then throw (extract_ca (text "pebble.minica.pem was empty")) else pure tt

  -- `spawn` from the temporary directory up to the harness
  unfoldable pub brought_up : Text → Text → Run W PebbleHarness
  unfolding clean_up up nonempty_ca
  brought_up tempdir compose_path = do
    act (λ w. compose_written (host.write compose_path compose_yaml w))
    clean_up compose_path
    act (up compose_path)
    ca_pem ←
        act (docker_cp_from_container host pebble_container (text "/test/certs/pebble.minica.pem"))
    nonempty_ca ca_pem
    host_ip ← act (read_host_docker_internal_ip host)
    pure (record {
      directory_url = text "https://localhost:14000/dir";
      ca_pem = ca_pem;
      challtestsrv_dns_url = text "http://localhost:8055";
      host_ip = host_ip;
      tempdir = tempdir;
      compose_path = compose_path;
    })

  -- A failed `down` is reported on the error stream.
  unfoldable pub reported : Result Bytes HarnessError × W → W
  unfolding harness_error_text
  reported (ok out, w) = w
  reported (err e, w) =
      host.eprintln
        (text "PebbleHarness::drop: docker compose down failed: "
          ++ harness_error_text host.debug_duration e)
        w

  -- `Drop`, and then the fields': the temporary directory goes.
  unfoldable pub drop_harness : PebbleHarness → W → W
  unfolding reported
  drop_harness harness w = host.remove_dir harness.tempdir (
      reported
        (run_compose host harness.compose_path (text "down" ∷ text "--timeout" ∷ text "5" ∷ []) w))

  -- On fuel, for the wait. What an early return drops: the directory, and later the harness.
  unfoldable pub spawn_harness : ℕ → Run W PebbleHarness
  unfolding brought_up drop_harness
  spawn_harness fuel = do
    tempdir ← act (λ w. compose_written (host.temp_dir w))
    harness ←
        or_drop (host.remove_dir tempdir)
          (brought_up tempdir (host.join_path tempdir (text "docker-compose.yml")))
    or_drop (drop_harness harness)
        (wait_for_directory host fuel harness.directory_url harness.ca_pem directory_timeout_ms)
    pure harness
