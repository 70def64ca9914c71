-- ===== src/Harness/Pebble/Host.antt =====
-- What the harness of crates/testing/src/lib.rs reports and what it calls: docker, the file system,
-- `reqwest`, the clock and the standard error stream.
use acme_wasm.Prelude.{
  ℕ, Option, none, some, List, ◌++◌, drop, Bytes, Text, text, ℤ, signed_decimal, Result, ok, err,
}
use acme_wasm.Core.Json.{Value}
use acme_wasm.Core.Clock.{Clock}
use acme_wasm.Harness.DnsProvider.{AdminResponse}

pub data HarnessError : Type 0 where
  spawn : Text → Text → HarnessError
  non_zero_exit : Text → ℤ → Text → HarnessError
  directory_timeout : ℕ → HarnessError
  write_compose : Text → HarnessError
  extract_ca : Text → HarnessError
  no_host_ip : HarnessError
  http : Text → HarnessError

-- The `Display` of the error; `debug_duration` is the `Debug` of `Duration`.
unfoldable pub harness_error_text : (ℕ → Text) → HarnessError → Text
harness_error_text debug_duration (spawn cmd source) =
    text "failed to spawn docker command `" ++ cmd ++ text "`: " ++ source
harness_error_text debug_duration (non_zero_exit cmd status stderr) =
    text "docker command `"
    ++ cmd
    ++ text "` exited "
    ++ signed_decimal status
    ++ text ": "
    ++ stderr
harness_error_text debug_duration (directory_timeout timeout) =
    text "Pebble directory endpoint did not come up within " ++ debug_duration timeout
harness_error_text debug_duration (write_compose e) =
    text "failed to write embedded compose yaml to tempdir: " ++ e
harness_error_text debug_duration (extract_ca e) =
    text "failed to extract Pebble CA cert from container: " ++ e
harness_error_text debug_duration no_host_ip =
    text "could not resolve host.docker.internal from inside the pebble container"
harness_error_text debug_duration (http e) = text "reqwest error: " ++ e

-- `std::process::Output`; `code` is `status.code()`.
pub record Output : Type 0 where
  pub code : Option ℤ
  pub stdout : Bytes
  pub stderr : Bytes

-- `reqwest::blocking`: requests act on the world, and errors are their `Display` texts.
pub record Reqwest (W : Type 0) : Type 1 where
  pub Builder : Type 0
  pub Certificate : Type 0
  pub Client : Type 0
  pub builder : Text → Builder
  pub from_pem : Bytes → Result Certificate Text
  pub add_root_certificate : Builder → Certificate → Builder
  pub build : Builder → Result Client Text
  -- `client.get(url).timeout(d).send()`
  pub get : Client → Text → ℕ → W → Result AdminResponse Text × W
  -- `Client::new().post(url).json(body).send()`
  pub post_json : Text → Value → W → Result AdminResponse Text × W

-- The machine that the harness runs on.
pub record Host (W : Type 0) : Type 1 where
  pub output : Text → List Text → W → Result Output Text × W
  pub temp_dir : W → Result Text Text × W
  pub remove_dir : Text → W → W
  pub join_path : Text → Text → Text
  pub write : Text → Text → W → Result (Unit {0}) Text × W
  pub eprintln : Text → W → W
  pub clock : Clock W
  pub debug_duration : ℕ → Text
  pub package_version : Text
  pub reqwest : Reqwest W

-- How a run of the harness ends. `cut_off` belongs to the model: a loop ran out of fuel.
pub data Ending (W A : Type 0) : Type 0 where
  returns : A → W → Ending W A
  errs : HarnessError → W → Ending W A
  cut_off : Ending W A

-- a call, with the error that it may return
abbrev pub Call : Type 0 → Type 0 → Type 0
Call W A = W → Result A HarnessError × W

abbrev pub Run : Type 0 → Type 0 → Type 0
Run W A = W → Ending W A

module _ {W A : Type 0} where
  abbrev pub pure : A → Run W A
  pure a w = returns a w

  abbrev pub throw : HarnessError → Run W A
  throw e w = errs e w

  abbrev pub settled : Result A HarnessError × W → Ending W A
  settled (ok a, w) = returns a w
  settled (err e, w) = errs e w

  -- `?`
  abbrev pub act : Call W A → Run W A
  act call w = settled (call w)

  -- `?` on a result that takes fuel to compute
  abbrev pub attempt : Option (Result A HarnessError) → Run W A
  attempt none w = cut_off
  attempt (some (ok a)) w = returns a w
  attempt (some (err e)) w = errs e w

  abbrev pub on_errs : Ending W A → (W → W) → Ending W A
  on_errs (returns a w) drop = returns a w
  on_errs (errs e w) drop = errs e (drop w)
  on_errs cut_off drop = cut_off

  -- What is dropped when a run returns early with its error.
  abbrev pub or_drop : (W → W) → Run W A → Run W A
  or_drop drop run w = on_errs (run w) drop

module _ {W A B : Type 0} where
  abbrev pub continue : Ending W A → (A → Run W B) → Ending W B
  continue (returns a w) f = f a w
  continue (errs e w) f = errs e w
  continue cut_off f = cut_off

  infixl 5 ◌>>=◌ ◌>>◌
  abbrev pub ◌>>=◌ : Run W A → (A → Run W B) → Run W B
  ◌>>=◌ m f w = continue (m w) f

  abbrev pub ◌>>◌ : Run W A → Run W B → Run W B
  m >> n = m >>= λ _. n
