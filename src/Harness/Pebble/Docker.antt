-- ===== src/Harness/Pebble/Docker.antt =====
-- The docker commands of crates/testing/src/lib.rs.
pub mod Laws
use acme_wasm.Prelude.{
  zero, ◌-◌, Bool, true, false, not, ◌||◌, Option, none, some, List, [], ◌∷◌, ◌++◌, if◌then◌else◌,
  Bytes, Text, text, contains, join, from_utf8_lossy, ℤ, pos, negsuc, Result, ok, err, ok_or,
}
use acme_wasm.Harness.Pebble.Tar.{extract_first_tar_file}
use acme_wasm.Harness.Pebble.Hosts.{host_ip}
use acme_wasm.Harness.Pebble.Host.{
  HarnessError, spawn, non_zero_exit, extract_ca, no_host_ip, Output, Host, Call,
}

abbrev pub compose_project : Text
compose_project = text "acme-testing-pebble"

abbrev pub pebble_container : Text
pebble_container = text "acme-testing-pebble"

-- `status.success()`: the exit code is 0
unfoldable pub success : Option ℤ → Bool
success (some (pos zero)) = true
success _ = false

-- `unwrap_or(-1)`
abbrev pub code_or : Option ℤ → ℤ
code_or none = negsuc 0
code_or (some code) = code

module _ {W : Type 0} where
  -- What the command's end comes to: its output, or an error that names the command.
  unfoldable pub finished : Text → Result Output Text × W → Result Bytes HarnessError × W
  unfolding success
  finished display (err source, w) = (err (spawn display source), w)
  finished display (ok output, w) =
      if not (success output.code)
      then (err (non_zero_exit display (code_or output.code) (from_utf8_lossy output.stderr)), w)
      else (ok output.stdout, w)

  -- `.ok_or_else(..)` after `?`
  unfoldable pub unpacked : Result Bytes HarnessError × W → Result Bytes HarnessError × W
  unpacked (err e, w) = (err e, w)
  unpacked (ok stdout, w) =
      (ok_or (extract_ca (text "failed to parse tar stream")) (extract_first_tar_file stdout), w)

  unfoldable pub found_ip : Result Bytes HarnessError × W → Result Text HarnessError × W
  found_ip (err e, w) = (err e, w)
  found_ip (ok hosts, w) = (ok_or no_host_ip (host_ip hosts), w)

module _ {W : Type 0} (host : Host W) where
  unfoldable pub run_compose_binary : Text → List Text → Text → List Text → Call W Bytes
  unfolding finished
  run_compose_binary program prefix compose_path args w =
      finished (program ++ text " " ++ join (text " ") prefix ++ text " " ++ join (text " ") args) (
        host.output program
          (prefix ++ (text "-p" ∷ compose_project ∷ text "-f" ∷ compose_path ∷ []) ++ args) w)

  -- `docker-compose`, the standalone binary
  abbrev standalone : Text → List Text → Call W Bytes
  standalone compose_path args = run_compose_binary (text "docker-compose") [] compose_path args

  -- What follows `docker compose`.
  unfoldable pub or_standalone :
      Text → List Text → Result Bytes HarnessError × W → Result Bytes HarnessError × W
  unfolding run_compose_binary contains
  or_standalone compose_path args (ok out, w) = (ok out, w)
  or_standalone compose_path args (err (non_zero_exit cmd status stderr), w) =
      if contains (text "API version") stderr || contains (text "too old") stderr
      then run_compose_binary (text "docker-compose") [] compose_path args w
      else (err (non_zero_exit cmd status stderr), w)
  or_standalone compose_path args (err (spawn cmd source), w) =
      run_compose_binary (text "docker-compose") [] compose_path args w
  or_standalone compose_path args (err e, w) = (err e, w)

  unfoldable pub run_compose : Text → List Text → Call W Bytes
  unfolding or_standalone
  run_compose compose_path args w =
      or_standalone compose_path args
        (run_compose_binary (text "docker") (text "compose" ∷ []) compose_path args w)

  unfoldable pub docker_cp_from_container : Text → Text → Call W Bytes
  unfolding finished unpacked
  docker_cp_from_container container path w = unpacked (
      finished (text "docker cp " ++ container ++ text ":" ++ path ++ text " -") (
        host.output (text "docker") (text "cp" ∷ (container ++ text ":" ++ path) ∷ text "-" ∷ [])
          w))

  unfoldable pub read_host_docker_internal_ip : Call W Text
  unfolding docker_cp_from_container found_ip
  read_host_docker_internal_ip w =
      found_ip (docker_cp_from_container pebble_container (text "/etc/hosts") w)
