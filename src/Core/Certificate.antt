-- ===== src/Core/Certificate.antt =====
-- crates/core/src/certificate.rs: finalizing an order and downloading its certificate. The split of
-- a PEM chain is in the child.
pub mod Pem
pub mod Blocks
pub mod Markers
pub mod Laws
mod Tests
use acme_wasm.Prelude.{
  ℕ, zero, suc, ◌+◌, ◌/◌, Option, none, some, [], ◌++◌, leb, if◌then◌else◌, is_empty, Bytes, Text,
  text,
}
use acme_wasm.Core.Json.{Value, string, object, end, member}
use acme_wasm.Core.Error.{malformed, missing_field, timeout, AcmeError}
use acme_wasm.Core.Transport.{HttpClient, check}
use acme_wasm.Core.Records.Order.{OrderStatus, valid, invalid, Order, status_enum}
use acme_wasm.Core.Crates.{Crates, from_json}
use acme_wasm.Core.Clock.{Clock}
use acme_wasm.Core.Program.{out_of_fuel, Program, pure, throw, attempt, ◌>>=◌, ◌>>◌}
use acme_wasm.Core.Account.{Account, post_kid}
use acme_wasm.Core.Order
use acme_wasm.Core.Challenge.{now, sleep, detail_or}
use acme_wasm.Core.Csr.{CertificateKey, build_csr}

-- `DEFAULT_FINALIZE_TIMEOUT`, in milliseconds
abbrev pub default_finalize_timeout : ℕ
default_finalize_timeout = 120000

abbrev pub csr_payload : Text → Value
csr_payload encoded = object (member (text "csr") (string encoded) end)

module _ (c : Crates) {W : Type 0} (clock : Clock W) where
  unfoldable pub certified : Order → Option Text → Program W Order
  certified refreshed none = throw (missing_field (text "order.certificate on valid order"))
  certified refreshed (some url) = pure refreshed

  -- one `match` of the loop; `later` is the rest of the iteration
  unfoldable pub judge : Order → OrderStatus → Program W Order → Program W Order
  unfolding certified
  judge refreshed valid later = certified refreshed refreshed.certificate
  judge refreshed invalid later =
      throw (malformed (detail_or c.to_vec (text "order invalid") refreshed.error))
  judge refreshed _ later = later

  abbrev pub order_timeout : Text → Text → ℕ → AcmeError
  order_timeout url status timeout_ms = timeout (
      text "order "
      ++ url
      ++ text " still "
      ++ status
      ++ text " after "
      ++ c.debug_duration timeout_ms)

  unfoldable pub poll_loop : ℕ → Text → Account c W → HttpClient W → ℕ → ℕ → ℕ → Program W Order
  unfolding judge
  poll_loop zero url account client timeout_ms poll_interval deadline s = out_of_fuel
  poll_loop (suc fuel) url account client timeout_ms poll_interval deadline s =
      (do
        refreshed ← Order.refresh c account url client
        judge refreshed (status_enum refreshed) (do
          time ← now clock
          if leb deadline time then throw (order_timeout url refreshed.status timeout_ms) else do
            sleep clock poll_interval
            poll_loop fuel url account client timeout_ms poll_interval deadline))
        s

  unfoldable pub finalize_with_intervals :
      ℕ → Order → CertificateKey c → Account c W → HttpClient W → ℕ → ℕ → Program W Order
  unfolding poll_loop
  finalize_with_intervals fuel order private_key account client timeout_ms poll_interval =
      if is_empty order.url
      then throw (missing_field (text "order.url populated by order::create / refresh"))
      else do
        csr_der ← attempt (build_csr c private_key order.identifiers)
        payload_bytes ← attempt (from_json (c.to_vec (csr_payload (c.b64url csr_der))))
        response ← post_kid c account order.finalize payload_bytes client
        attempt (check c.problem_from_slice response)
        start ← now clock
        poll_loop fuel order.url account client timeout_ms poll_interval (start + timeout_ms)

  unfoldable pub finalize_with_deadline :
      ℕ → Order → CertificateKey c → Account c W → HttpClient W → ℕ → Program W Order
  unfolding finalize_with_intervals
  finalize_with_deadline fuel order private_key account client timeout_ms =
      finalize_with_intervals fuel order private_key account client timeout_ms 2000

  unfoldable pub finalize :
      ℕ → Order → CertificateKey c → Account c W → HttpClient W → Program W Order
  unfolding finalize_with_deadline
  finalize fuel order private_key account client =
      finalize_with_deadline fuel order private_key account client default_finalize_timeout

module _ (c : Crates) {W : Type 0} where
  unfoldable pub download : Text → Account c W → HttpClient W → Program W Bytes
  download cert_url account client = do
    response ← post_kid c account cert_url [] client
    response ← attempt (check c.problem_from_slice response)
    pure response.body
