-- ===== src/Dns01/Tests.antt =====
-- Records of the provider in memory.
use acme_wasm.Prelude.{
  ◌≡◌, refl, List, [], ◌∷◌, ◌++◌, text, ◌is◌, strip_prefix, decimal, Result, err,
}
use acme_wasm.Core.Sample.{crates, account_key}
use acme_wasm.Dns01.{
  record_name, record_value, Dns01Record, challenge_record, with_provisioned_record,
}
use acme_wasm.Dns01.Provider.{Live, DnsProviderError, rejected, mock_provider, snapshot}
use acme_wasm.Dns01.Laws.{with_provisioned_record-restores}

abbrev other_live : Live
other_live = record { name = text "a"; value = text "v"; handle = text "mock-0-a" }

-- a verification that fails
abbrev failing : Dns01Record → List Live → Result (Unit {0}) DnsProviderError × List Live
failing rec live = (err (rejected (text "no")), live)

with_provisioned_record-restores_example :
    (live : List Live) × (snapshot live
      ≡ snapshot (other_live ∷ [])
        ++ (record_name (text "b"), record_value crates (text "t") account_key) ∷ [])
    × (with_provisioned_record crates mock_provider
          (text "b")
          (text "t")
          account_key
          failing
          (other_live ∷ [])
        ≡ (
          (failing (challenge_record crates (text "b") (text "t") account_key) live).0,
          other_live ∷ [],
        ))
unfolding text decimal record_name ◌is◌ strip_prefix
with_provisioned_record-restores_example =
    with_provisioned_record-restores crates (text "b") (text "t") account_key failing
      (other_live ∷ []) (refl, tt) (λ rec live. refl)
