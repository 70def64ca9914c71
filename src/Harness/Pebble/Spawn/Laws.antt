-- ===== src/Harness/Pebble/Spawn/Laws.antt =====
-- What `PebbleHarness::spawn` of crates/testing/src/lib.rs comes to on a machine where docker works.
use acme_wasm.Prelude.{
  ℕ, ◌<◌, ◌≡◌, refl, sym, ap, ◌∙◌, true, false, some, List, [], ◌∷◌, if◌then◌else◌, is_empty, All,
  Bytes, Text, text, ok, map_err,
}
use acme_wasm.Harness.Pebble.Host.{
  directory_timeout, write_compose, extract_ca, Host, Ending, returns, errs, Run, pure, throw, act,
  on_errs, or_drop, continue, ◌>>=◌, ◌>>◌,
}
use mathlib.Core.Path
use acme_wasm.Core.Polling.{Ticks, Onward}
use acme_wasm.Harness.Pebble.Trust.{reqwest_client_trusting}
use acme_wasm.Harness.Pebble.Directory.{wait_for_directory}
use acme_wasm.Harness.Pebble.Directory.Laws.{
  is_up, read, asked, Waited, served, timed_out, wait_for_directory-Waited,
}
use acme_wasm.Harness.Pebble.ComposeFile.{compose_yaml}
use acme_wasm.Harness.Pebble.Hosts.Laws.{HostsEntry, hosts_file, address_of, Plain}
use acme_wasm.Harness.Pebble.Docker.{
  pebble_container, docker_cp_from_container, read_host_docker_internal_ip,
}
use acme_wasm.Harness.Pebble.Docker.Laws.{
  Exits, Copies, docker_cp-Copies, read_host_docker_internal_ip-Copies, compose_args,
  run_compose-Exits,
}
use acme_wasm.Harness.Pebble.Spawn.Gives.{Gives, Gives-bind, Gives-then, Gives-or_drop, Gives-act}
use acme_wasm.Harness.Pebble.Spawn.{
  PebbleHarness, directory_timeout_ms, compose_written, or_up, up, clean_up, nonempty_ca,
  brought_up, drop_harness, spawn_harness,
}

abbrev pub directory : Text
directory = text "https://localhost:14000/dir"

module _ {W : Type 0} (host : Host W) where
  -- A machine with docker: files can be written, the stack comes up, and its files can be copied out.
  pub record Works (tempdir : Text) (ca_pem : Bytes) (entries : List HostsEntry) (ip : Text)
      : Type 0 where
    pub makes_dir : (w : W) → (host.temp_dir w).0 ≡ ok tempdir
    pub writes :
        (w : W)
        → (host.write (host.join_path tempdir (text "docker-compose.yml")) compose_yaml w).0 ≡ ok tt
    pub up_stdout : Bytes
    pub starts :
        Exits host
          (text "docker")
          (compose_args host
            (host.join_path tempdir (text "docker-compose.yml"))
            (text "up" ∷ text "-d" ∷ text "--wait" ∷ []))
          up_stdout
    pub has_ca : Copies host (text "/test/certs/pebble.minica.pem") ca_pem
    pub ca_nonempty : is_empty ca_pem ≡ false
    pub has_hosts : Copies host (text "/etc/hosts") (hosts_file entries)
    pub plain : All Plain entries
    pub listed : address_of entries ≡ some ip

  abbrev pub harness_of : Text → Bytes → Text → PebbleHarness
  harness_of tempdir ca_pem ip = record {
    directory_url = directory;
    ca_pem = ca_pem;
    challtestsrv_dns_url = text "http://localhost:8055";
    host_ip = ip;
    tempdir = tempdir;
    compose_path = host.join_path tempdir (text "docker-compose.yml");
  }

  -- The harness is up and its directory has answered with a success, or the directory did not come
  -- up in time and the harness was dropped.
  pub data Spawned (client : host.reqwest.Client) (harness : PebbleHarness)
      : Ending W PebbleHarness → Type 0 where
    serving :
        (last : W)
        → is_up (asked host client directory last).0 ≡ true
        → Spawned client harness (returns harness (asked host client directory last).1)
    torn_down :
        (last : W)
        → Spawned client harness
            (errs (directory_timeout directory_timeout_ms) (drop_harness host harness last))

  module _ {tempdir : Text} {ca_pem : Bytes} {entries : List HostsEntry} {ip : Text}
      (works : Works tempdir ca_pem entries ip) where
    abbrev path : Text
    path = host.join_path tempdir (text "docker-compose.yml")

    up-ok : (w : W) → (up host path w).0 ≡ ok works.up_stdout
    unfolding up or_up
    up-ok w =
        ap (λ r. (or_up host path r).0)
          (run_compose-Exits host path (text "up" ∷ text "-d" ∷ text "--wait" ∷ []) works.up_stdout
            w works.starts)

    nonempty_ca-Gives : (ca : Bytes) → ca ≡ ca_pem → Gives (nonempty_ca host ca) tt
    unfolding nonempty_ca
    nonempty_ca-Gives ca e = record {
      at = λ w. (
        w,
        ap (λ b. (if b then throw (extract_ca (text "pebble.minica.pem was empty")) else pure tt) w)
            (ap is_empty e ∙ works.ca_nonempty),
      );
    }

    clean_up-Gives : Gives (clean_up host path) tt
    unfolding clean_up
    clean_up-Gives = record { at = λ w. (_, refl) }

    ca_copied :
        Gives
          (act
            (docker_cp_from_container host pebble_container (text "/test/certs/pebble.minica.pem")))
          ca_pem
    ca_copied =
        Gives-act
          (docker_cp_from_container host pebble_container (text "/test/certs/pebble.minica.pem"))
          ca_pem
          λ w.
            ap (λ r. r.0)
              (docker_cp-Copies host (text "/test/certs/pebble.minica.pem") ca_pem w works.has_ca)

    ip_found : Gives (act (read_host_docker_internal_ip host)) ip
    ip_found = Gives-act (read_host_docker_internal_ip host) ip λ w.
        ap (λ r. r.0)
          (read_host_docker_internal_ip-Copies host entries ip w works.plain works.listed
            works.has_hosts)

    ready_at :
        (ca : Bytes) (address : Text)
        → ca ≡ ca_pem
        → address ≡ ip
        → Gives {W = W} (pure (harness_of tempdir ca address)) (harness_of tempdir ca_pem ip)
    ready_at ca address same_ca same_ip = record {
      at = λ w. (
        w,
        ap (λ c. returns (harness_of tempdir c address) w) same_ca
            ∙ ap (λ a. returns (harness_of tempdir ca_pem a) w) same_ip,
      );
    }

    brought_up-Gives : Gives (brought_up host tempdir path) (harness_of tempdir ca_pem ip)
    unfolding brought_up
    brought_up-Gives =
        Gives-bind (act (λ w. compose_written (host.write path compose_yaml w))) _ tt
          (Gives-act (λ w. compose_written (host.write path compose_yaml w)) tt
            λ w. ap (map_err write_compose) (works.writes w))
          λ _ _. Gives-bind (clean_up host path) _ tt clean_up-Gives λ _ _.
            Gives-bind (act (up host path)) _ works.up_stdout
              (Gives-act (up host path) works.up_stdout up-ok)
              λ _ _.
                Gives-bind
                  (act (
                    docker_cp_from_container host pebble_container
                      (text "/test/certs/pebble.minica.pem")))
                  _ ca_pem ca_copied
                  λ ca same_ca.
                    Gives-bind (nonempty_ca host ca) _ tt (nonempty_ca-Gives ca same_ca) λ _ _.
                      Gives-bind (act (read_host_docker_internal_ip host)) _ ip ip_found
                        λ address same_ip. ready_at ca address same_ca same_ip

    module _ (client : host.reqwest.Client) (time : W → ℕ) (ticks : Ticks time host.clock)
        (onward : Onward time (host.reqwest.get client directory 2000)) where
      after_wait :
          (timeout deadline : ℕ) (w : W) (end : Ending W (Unit {0}))
          → timeout ≡ directory_timeout_ms
          → Waited host client directory timeout deadline w end
          → Spawned client (harness_of tempdir ca_pem ip) (
              continue
                (on_errs end (drop_harness host (harness_of tempdir ca_pem ip)))
                (λ _. pure (harness_of tempdir ca_pem ip)))
      after_wait timeout deadline w _ same (served last rounds early fine) = serving last fine
      after_wait timeout deadline w _ same (timed_out last message rounds late) =
          Path.subst
            (λ t. Spawned client (harness_of tempdir ca_pem ip) (
              errs (directory_timeout t) (
                drop_harness host (harness_of tempdir ca_pem ip)
                  (host.eprintln message (read host client directory last)))))
            (sym same) (torn_down (host.eprintln message (read host client directory last)))

      waited :
          (fuel : ℕ) (w : W)
          → reqwest_client_trusting host ca_pem ≡ some (ok client)
          → directory_timeout_ms < fuel
          → Spawned client (harness_of tempdir ca_pem ip) (
              continue
                (on_errs
                  (wait_for_directory host fuel directory ca_pem directory_timeout_ms w)
                  (drop_harness host (harness_of tempdir ca_pem ip)))
                (λ _. pure (harness_of tempdir ca_pem ip)))
      waited fuel w trusts enough = after_wait directory_timeout_ms _ _ _ refl (
          wait_for_directory-Waited host client directory time ticks onward fuel ca_pem
            directory_timeout_ms w trusts enough)

      -- On a machine where the stack comes up and its CA certificate and its table of hosts can be
      -- copied out, with more fuel than the timeout has milliseconds, if the client for the CA
      -- certificate can be built: `spawn` ends, and it returns the harness with that certificate and
      -- with the address of `host.docker.internal`, once the directory answered with a success, or
      -- reports the timeout after the teardown.
      pub spawn_harness-Spawned :
          (fuel : ℕ) (w : W)
          → reqwest_client_trusting host ca_pem ≡ some (ok client)
          → directory_timeout_ms < fuel
          → Spawned client (harness_of tempdir ca_pem ip) (spawn_harness host fuel w)
      unfolding spawn_harness
      spawn_harness-Spawned fuel w trusts enough =
          let wait : PebbleHarness → Run W PebbleHarness = λ harness.
            or_drop (drop_harness host harness) (
              wait_for_directory host fuel harness.directory_url harness.ca_pem
                directory_timeout_ms)
            >> pure harness in
          Gives-then (Spawned client (harness_of tempdir ca_pem ip))
            (act (λ v. compose_written (host.temp_dir v)))
            (λ dir.
              or_drop (host.remove_dir dir)
                (brought_up host dir (host.join_path dir (text "docker-compose.yml")))
              >>= wait)
            tempdir
            (Gives-act (λ v. compose_written (host.temp_dir v)) tempdir
              λ v. ap (map_err write_compose) (works.makes_dir v))
            (Gives-then (Spawned client (harness_of tempdir ca_pem ip))
              (or_drop (host.remove_dir tempdir) (brought_up host tempdir path)) wait
              (harness_of tempdir ca_pem ip)
              (Gives-or_drop (host.remove_dir tempdir) (brought_up host tempdir path)
                (harness_of tempdir ca_pem ip) brought_up-Gives)
              (λ v. waited fuel v trusts enough))
            w
