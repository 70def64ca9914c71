-- ===== src/Harness/Pebble/Docker/Laws.antt =====
-- What the docker commands of crates/testing/src/lib.rs return, by what the processes answer.
use acme_wasm.Prelude.{
  ◌^◌, ◌<◌, ◌≡◌, ap, ◌∙◌, true, none, some, List, [], ◌∷◌, ◌++◌, arith, leb, if◌then◌else◌, le→leb,
  length, take, length-append, take-append, All, Bytes, Text, text, pos, ok, ok_or,
}
use acme_wasm.Harness.Pebble.Host.{extract_ca, no_host_ip, Host}
use acme_wasm.Harness.Pebble.Tar.{extract_first_tar_file}
use acme_wasm.Harness.Pebble.Tar.Laws.{entry, extract_first_tar_file-entry}
use acme_wasm.Harness.Pebble.Hosts.Laws.{
  HostsEntry, hosts_file, address_of, Plain, host_ip-hosts_file,
}
use acme_wasm.Harness.Pebble.Docker.{
  compose_project, pebble_container, success, finished, unpacked, found_ip, run_compose_binary,
  or_standalone, run_compose, docker_cp_from_container, read_host_docker_internal_ip,
}

module _ {W : Type 0} (host : Host W) where
  -- The call of a program exits with 0 from every state, and prints this.
  pub record Exits (program : Text) (args : List Text) (stdout : Bytes) : Type 0 where
    pub stderr : Bytes
    pub answers :
        (w : W)
        → (host.output program args w).0
          ≡ ok (record { code = some (pos 0); stdout = stdout; stderr = stderr })

  abbrev pub cp_args : Text → List Text
  cp_args path = text "cp" ∷ (pebble_container ++ text ":" ++ path) ∷ text "-" ∷ []

  -- `docker cp` copies the file out of the Pebble container, as an archive of one entry.
  pub record Copies (path : Text) (file : Bytes) : Type 0 where
    pub front : Bytes
    pub back : Bytes
    pub padding : Bytes
    pub front_ok : length front ≡ 124
    pub back_ok : length back ≡ 376
    pub small : length file < 8 ^ 11
    pub exits :
        Exits (text "docker") (cp_args path) (entry front (length file) back ++ (file ++ padding))

  finished-Exits :
      {program : Text} {args : List Text} {stdout : Bytes} (display : Text) (w : W)
      → Exits program args stdout
      → finished display (host.output program args w) ≡ (ok stdout, (host.output program args w).1)
  unfolding finished success
  finished-Exits {program} {args} display w exits =
      ap (λ r. finished display (r, (host.output program args w).1)) (exits.answers w)

  extracted :
      (front back file padding : Bytes)
      → length front ≡ 124
      → length back ≡ 376
      → length file < 8 ^ 11
      → extract_first_tar_file (entry front (length file) back ++ (file ++ padding)) ≡ some file
  extracted front back file padding front_ok back_ok small =
      let whole : leb (length file) (length (file ++ padding)) ≡ true =
        le→leb (length file) (length (file ++ padding))
          (omega (arith, length-append file padding)) in
      extract_first_tar_file-entry front back (file ++ padding) (length file) front_ok back_ok small
      ∙ ap (λ b. if b then some (take (length file) (file ++ padding)) else none) whole
      ∙ ap some (take-append file padding)

  pub docker_cp-Copies :
      (path : Text) (file : Bytes) (w : W)
      → Copies path file
      → docker_cp_from_container host pebble_container path w
        ≡ (ok file, (host.output (text "docker") (cp_args path) w).1)
  unfolding docker_cp_from_container unpacked
  docker_cp-Copies path file w copies =
      ap unpacked (
        finished-Exits (text "docker cp " ++ pebble_container ++ text ":" ++ path ++ text " -") w
          copies.exits)
      ∙ ap
          (λ o. (
            ok_or (extract_ca (text "failed to parse tar stream")) o,
            (host.output (text "docker") (cp_args path) w).1,
          ))
          (extracted copies.front copies.back file copies.padding copies.front_ok copies.back_ok
            copies.small)

  pub read_host_docker_internal_ip-Copies :
      (entries : List HostsEntry) (ip : Text) (w : W)
      → All Plain entries
      → address_of entries ≡ some ip
      → Copies (text "/etc/hosts") (hosts_file entries)
      → read_host_docker_internal_ip host w
        ≡ (ok ip, (host.output (text "docker") (cp_args (text "/etc/hosts")) w).1)
  unfolding read_host_docker_internal_ip found_ip
  read_host_docker_internal_ip-Copies entries ip w plain listed copies =
      ap found_ip (docker_cp-Copies (text "/etc/hosts") (hosts_file entries) w copies)
      ∙ ap
          (λ o.
            (ok_or no_host_ip o, (host.output (text "docker") (cp_args (text "/etc/hosts")) w).1))
          (host_ip-hosts_file entries plain ∙ listed)

  abbrev pub compose_args : Text → List Text → List Text
  compose_args compose_path args =
      (text "compose" ∷ []) ++ (text "-p" ∷ compose_project ∷ text "-f" ∷ compose_path ∷ []) ++ args

  pub run_compose-Exits :
      (compose_path : Text) (args : List Text) (stdout : Bytes) (w : W)
      → Exits (text "docker") (compose_args compose_path args) stdout
      → run_compose host compose_path args w
        ≡ (ok stdout, (host.output (text "docker") (compose_args compose_path args) w).1)
  unfolding run_compose or_standalone run_compose_binary
  run_compose-Exits compose_path args stdout w exits =
      ap (or_standalone host compose_path args) (finished-Exits _ w exits)
