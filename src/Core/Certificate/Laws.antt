-- ===== src/Core/Certificate/Laws.antt =====
-- What crates/core/src/certificate.rs promises of the order that it returns.
use acme_wasm.Prelude.{
  ℕ, zero, suc, ◌+◌, ◌≡◌, refl, Option, none, some, [], leb, is_empty, Text, text,
}
use acme_wasm.Core.Error.{malformed, missing_field}
use acme_wasm.Core.Transport.{HttpClient, check}
use acme_wasm.Core.Clock.{Clock}
use acme_wasm.Core.Crates.{Crates, from_json}
use acme_wasm.Core.Records.Order.{Order, OrderStatus, valid, invalid, status_enum}
use acme_wasm.Core.Order.{refresh}
use acme_wasm.Core.Challenge.{detail_or, now, sleep}
use acme_wasm.Core.Csr.{CertificateKey, build_csr}
use acme_wasm.Core.Certificate.{
  poll_loop, order_timeout, judge, certified, csr_payload, finalize_with_intervals,
}
use acme_wasm.Core.Program.{Program, attempt}
use acme_wasm.Core.Program.Yields.{
  Yields, Yields-pure, Yields-throw, Yields-bind, Yields-after, Yields-if,
}
use acme_wasm.Core.Account.{Account, post_kid}

-- The order was read at `url`, is valid, and names its certificate.
pub record Issued (url : Text) (order : Order) : Type 0 where
  pub url_kept : order.url ≡ url
  pub is_valid : status_enum order ≡ valid
  pub certificate_url : Text
  pub has_certificate : order.certificate ≡ some certificate_url

module _ (c : Crates) {W : Type 0} (account : Account c W) (client : HttpClient W) where
  -- An order that is read again keeps the URL at which it was read.
  pub refresh-Yields :
      (url : Text) → Yields (λ order. order.url ≡ url) (refresh c account url client)
  unfolding refresh
  refresh-Yields url = Yields-after (post_kid c account url [] client) _ λ response.
      Yields-after (attempt (check c.problem_from_slice response)) _ λ good.
        Yields-after (attempt (from_json (c.order_from_slice good.body))) _
          λ order. Yields-pure (record order { url = url }) refl

module _ (c : Crates) {W : Type 0} (clock : Clock W) where
  certified-Yields :
      (url : Text) (order : Order) (certificate : Option Text)
      → order.url ≡ url
      → status_enum order ≡ valid
      → order.certificate ≡ certificate
      → Yields (Issued url) (certified c clock order certificate)
  unfolding certified
  certified-Yields url order none u v e =
      Yields-throw (missing_field (text "order.certificate on valid order"))
  certified-Yields url order (some at_url) u v e =
      Yields-pure order
        (record { url_kept = u; is_valid = v; certificate_url = at_url; has_certificate = e })

  judge-Yields :
      (url : Text) (order : Order) (status : OrderStatus) (later : Program W Order)
      → order.url ≡ url
      → status_enum order ≡ status
      → Yields (Issued url) later
      → Yields (Issued url) (judge c clock order status later)
  unfolding judge
  judge-Yields url order valid later u e y = certified-Yields url order order.certificate u e refl
  judge-Yields url order invalid later u e y =
      Yields-throw (malformed (detail_or c.to_vec (text "order invalid") order.error))
  judge-Yields url order _ later u e y = y

  module _ (account : Account c W) (client : HttpClient W) where
    poll_loop-Yields :
        (fuel : ℕ) (url : Text) (timeout_ms poll_interval deadline : ℕ)
        → Yields
            (Issued url)
            (poll_loop c clock fuel url account client timeout_ms poll_interval deadline)
    unfolding poll_loop
    poll_loop-Yields zero url timeout_ms poll_interval deadline = record { at = λ s. tt }
    poll_loop-Yields (suc fuel) url timeout_ms poll_interval deadline =
        Yields-bind (refresh c account url client) _ (refresh-Yields c account client url)
          λ order u. judge-Yields url order (status_enum order) _ u refl (
            Yields-after (now clock) _ λ time.
              Yields-if (leb deadline time) _ _
                (Yields-throw (order_timeout c clock url order.status timeout_ms))
                (Yields-after (sleep clock poll_interval) _
                  λ _. poll_loop-Yields fuel url timeout_ms poll_interval deadline))

    -- When finalizing returns an order, however many polls it took: the order is at the URL of the
    -- order that was finalized, its status is valid, and it names a certificate.
    pub finalize_with_intervals-Issued :
        (fuel : ℕ) (order : Order) (key : CertificateKey c) (timeout_ms poll_interval : ℕ)
        → Yields
            (Issued order.url)
            (finalize_with_intervals c clock fuel order key account client timeout_ms poll_interval)
    unfolding finalize_with_intervals
    finalize_with_intervals-Issued fuel order key timeout_ms poll_interval =
        Yields-if (is_empty order.url) _ _
          (Yields-throw (missing_field (text "order.url populated by order::create / refresh")))
          (Yields-after (attempt (build_csr c key order.identifiers)) _ λ csr.
            Yields-after (attempt (from_json (c.to_vec (csr_payload (c.b64url csr))))) _ λ payload.
              Yields-after (post_kid c account order.finalize payload client) _ λ response.
                Yields-after (attempt (check c.problem_from_slice response)) _ λ _.
                  Yields-after (now clock) _ λ start.
                    poll_loop-Yields fuel order.url timeout_ms poll_interval (start + timeout_ms))
