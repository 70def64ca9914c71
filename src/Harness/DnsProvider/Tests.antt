-- ===== src/Harness/DnsProvider/Tests.antt =====
-- The solver armed beside another record.
use acme_wasm.Prelude.{refl, [], ◌∷◌, text, ◌is◌, strip_prefix, decimal}
use acme_wasm.Core.Records.Order.{Identifier}
use acme_wasm.Core.Sample.{crates, account_key}
use acme_wasm.Dns01.{record_name}
use acme_wasm.Dns01.Provider.{Live}
use acme_wasm.Harness.DnsProvider.Laws.{Publishes, dns_solver-Publishes}

abbrev other_live : Live
other_live = record { name = text "a"; value = text "v"; handle = text "h" }

abbrev identifier : Identifier
identifier = record { kind = text "dns"; value = text "*.b" }

dns_solver-Publishes_example : Publishes crates identifier (text "t") account_key (other_live ∷ [])
unfolding text decimal record_name ◌is◌ strip_prefix
dns_solver-Publishes_example =
    dns_solver-Publishes crates identifier (text "t") account_key (other_live ∷ []) (refl, tt)
