-- ===== src/Dns01/Provider.antt =====
-- crates/challenge-dns-01/src/provider.rs: the provider interface, and the provider in memory.
use acme_wasm.Prelude.{
  ℕ, Bool, not, List, [], ◌∷◌, ◌++◌, map, length, retain, Text, text, ◌is◌, decimal, Result, ok,
}

pub record RecordHandle : Type 0 where
  pub id : Text

pub data DnsProviderError : Type 0 where
  rejected transport zone_not_found propagation_timeout : Text → DnsProviderError

-- The trait: the operations act on the world `W` of the provider.
pub record DnsProvider (W : Type 0) : Type 0 where
  pub upsert_txt : Text → Text → ℕ → W → Result RecordHandle DnsProviderError × W
  pub delete_txt : RecordHandle → W → Result (Unit {0}) DnsProviderError × W

-- one record of the vector in `MockDnsProvider`
pub record Live : Type 0 where
  pub name : Text
  pub value : Text
  pub handle : Text

abbrev pub shown : Live → Text × Text
shown r = (r.name, r.value)

unfoldable pub snapshot : List Live → List (Text × Text)
snapshot records = map shown records

-- `format!("mock-{}-{}", records.len(), name)`
abbrev pub mock_handle : List Live → Text → Text
mock_handle records name = text "mock-" ++ decimal (length records) ++ text "-" ++ name

unfoldable pub mock_upsert :
    Text → Text → ℕ → List Live → Result RecordHandle DnsProviderError × List Live
mock_upsert name value ttl_seconds records =
    let handle = mock_handle records name in
    (
      ok (record { id = handle }),
      records ++ record { name = name; value = value; handle = handle } ∷ [],
    )

-- the test of `retain`
abbrev pub kept : RecordHandle → Live → Bool
kept handle r = not (r.handle is handle.id)

unfoldable pub mock_delete :
    RecordHandle → List Live → Result (Unit {0}) DnsProviderError × List Live
mock_delete handle records = (ok tt, retain (kept handle) records)

-- `MockDnsProvider` behind the trait
unfoldable pub mock_provider : DnsProvider (List Live)
unfolding mock_upsert mock_delete
mock_provider = record { upsert_txt = mock_upsert; delete_txt = mock_delete }
