-- ===== src/Harness/Pebble/Directory.antt =====
-- `wait_for_directory` of crates/testing/src/lib.rs.
pub mod Laws
use acme_wasm.Prelude.{
  ℕ, zero, suc, ◌+◌, not, Option, none, some, ◌++◌, ltb, if◌then◌else◌, Bytes, Text, text, Result,
  ok, err,
}
use acme_wasm.Core.Transport.{is_success}
use acme_wasm.Harness.DnsProvider.{AdminResponse, fqdn, or_empty}
use acme_wasm.Harness.Pebble.Host.{
  directory_timeout, Host, returns, errs, cut_off, Run, pure, attempt, ◌>>=◌, ◌>>◌,
}
use acme_wasm.Harness.Pebble.Trust.{reqwest_client_trusting}

-- What is wrong with an answer of the directory.
unfoldable pub failure_of : Result AdminResponse Text → Option Text
failure_of (ok resp) =
    if is_success resp.status then none else some (text "HTTP " ++ resp.status_text)
failure_of (err e) = some e

abbrev pub or_n_a : Option Text → Text
or_n_a none = text "n/a"
or_n_a (some e) = e

module _ {W : Type 0} (host : Host W) (client : host.reqwest.Client) (url : Text) where
  abbrev now : Run W ℕ
  now w = let (time, after) = host.clock.now w in returns time after

  abbrev probe : Run W (Option Text)
  probe w =
      let (answer, after) = host.reqwest.get client url 2000 w in returns (failure_of answer) after

  abbrev sleep : ℕ → Run W (Unit {0})
  sleep d w = returns tt (host.clock.sleep d w)

  -- what follows the loop
  unfoldable pub gave_up : ℕ → Option Text → Run W (Unit {0})
  gave_up timeout last_err w = errs (directory_timeout timeout) (
      host.eprintln
        (text "pebble directory never came up (last error: " ++ or_n_a last_err ++ text ")") w)

  -- one `match` of the loop; `later` is the rest of the iteration
  unfoldable pub judge : Option Text → (Text → Run W (Unit {0})) → Run W (Unit {0})
  judge none later = pure tt
  judge (some e) later = later e

  -- the `while` loop, on fuel
  unfoldable pub wait_loop : ℕ → ℕ → ℕ → Option Text → Run W (Unit {0})
  unfolding gave_up judge failure_of
  wait_loop zero timeout deadline last_err w = cut_off
  wait_loop (suc fuel) timeout deadline last_err w =
      (do
        time ← now
        if not (ltb time deadline) then gave_up timeout last_err else do
          failure ← probe
          judge failure (λ e. sleep 500 >> wait_loop fuel timeout deadline (some e)))
        w

module _ {W : Type 0} (host : Host W) where
  unfoldable pub wait_for_directory : ℕ → Text → Bytes → ℕ → Run W (Unit {0})
  unfolding wait_loop reqwest_client_trusting
  wait_for_directory fuel url ca_pem timeout = do
    client ← attempt (reqwest_client_trusting host ca_pem)
    start ← now host client url
    wait_loop host client url fuel timeout (start + timeout) none
