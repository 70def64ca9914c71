-- ===== src/Core/Certificate/Tests.antt =====
-- Finalizing on the sample server, and the split of a small chain.
use acme_wasm.Prelude.{
  ◌≡◌, refl, some, List, [], ◌∷◌, Bytes, text, ◌is◌, to_lower, eq_ignore_ascii_case, join,
  from_utf8,
}
use acme_wasm.Core.Transport.{header, headers_all, check}
use acme_wasm.Core.Program.{done}
use acme_wasm.Core.Nonce
use acme_wasm.Core.Nonce.{refill, pop_front, pop, push_all, got, absorb, absorb_pool, is_pool_empty}
use acme_wasm.Core.Jws.{sign_jws_with_kid, sign_jws_inner, sign_bytes, alg}
use acme_wasm.Core.Account.{post_kid}
use acme_wasm.Core.Order.{refresh}
use acme_wasm.Core.Csr.{build_csr, dns_names, dns_name}
use acme_wasm.Core.Records.Order.{status_enum, from_wire}
use acme_wasm.Core.Certificate.{finalize_with_intervals, poll_loop, judge, certified}
use acme_wasm.Core.Certificate.Laws.{Issued, finalize_with_intervals-Issued}
use acme_wasm.Core.Certificate.Pem.{split_pem_chain}
use acme_wasm.Core.Certificate.Blocks.{Chain, split_pem_chain-Chain}
use acme_wasm.Core.Program.Yields.{Yields}
use acme_wasm.Core.Sample.{crates, clock, order, certificate_key, account, client, begin}

-- The run returns the order.
finalize_run :
    finalize_with_intervals crates clock 5 order certificate_key account client 100 10 begin
    ≡ done order (record { pool = text "n1" ∷ []; world = 3 })
unfolding finalize_with_intervals poll_loop judge certified refresh status_enum from_wire build_csr
    dns_names dns_name join post_kid Nonce.get refill pop_front pop push_all got absorb absorb_pool
    is_pool_empty headers_all header eq_ignore_ascii_case to_lower text ◌is◌ sign_jws_with_kid
    sign_jws_inner sign_bytes alg check
finalize_run = refl

finalize_with_intervals-Issued_example :
    Yields
      (Issued order.url)
      (finalize_with_intervals crates clock 5 order certificate_key account client 100 10)
finalize_with_intervals-Issued_example =
    finalize_with_intervals-Issued crates clock account client 5 order certificate_key 100 10

abbrev pem : Bytes
pem = text "x-----BEGIN CERTIFICATE-----a-----END CERTIFICATE-----y"

split_pem_chain-Chain_example :
    (out : List Bytes) × (split_pem_chain pem ≡ some out) × Chain pem 0 out
unfolding from_utf8 text
split_pem_chain-Chain_example = split_pem_chain-Chain pem pem refl
