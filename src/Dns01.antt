-- ===== src/Dns01.antt =====
-- crates/challenge-dns-01/src/lib.rs: the TXT record of a DNS-01 challenge, published and removed.
-- The provider interface is in a child.
pub mod Provider
pub mod Laws
mod Tests
use acme_wasm.Prelude.{ℕ, ◌*◌, none, some, ◌++◌, Text, text, strip_prefix, Result, ok, err}
use acme_wasm.Core.Crates.{Crates}
use acme_wasm.Core.Jws.{AccountKey}
use acme_wasm.Core.Challenge.{sha256_key_authorization}
use acme_wasm.Dns01.Provider.{DnsProvider, DnsProviderError, RecordHandle}

-- `strip_prefix("*.").unwrap_or(identifier)`
abbrev pub base : Text → Text
base identifier = elim (strip_prefix (text "*.") identifier) [ none ↦ identifier | some b ↦ b ]

unfoldable pub record_name : Text → Text
record_name identifier = text "_acme-challenge." ++ base identifier

unfoldable pub record_value : (c : Crates) → Text → AccountKey c → Text
record_value c token account_key = sha256_key_authorization c token account_key

pub record Dns01Record : Type 0 where
  pub name : Text
  pub value : Text
  pub ttl_seconds : ℕ

-- `record`
unfoldable pub challenge_record : (c : Crates) → Text → Text → AccountKey c → Dns01Record
unfolding record_name record_value
challenge_record c identifier token account_key = record {
  name = record_name identifier;
  value = record_value c token account_key;
  ttl_seconds = 60;
}

module _ (c : Crates) {W T : Type 0} where
  -- what follows a successful `upsert_txt`
  unfoldable pub verify :
      DnsProvider W
      → Dns01Record
      → RecordHandle
      → (Dns01Record → W → Result T DnsProviderError × W)
      → W
      → Result T DnsProviderError × W
  verify provider rec handle f w =
      let (result, w1) = f rec w in let (_, w2) = provider.delete_txt handle w1 in (result, w2)

  unfoldable pub with_provisioned_record :
      DnsProvider W
      → Text
      → Text
      → AccountKey c
      → (Dns01Record → W → Result T DnsProviderError × W)
      → W
      → Result T DnsProviderError × W
  unfolding challenge_record verify
  with_provisioned_record provider identifier token account_key f w =
      let rec = challenge_record c identifier token account_key in
      let (published, w1) = provider.upsert_txt rec.name rec.value rec.ttl_seconds w in
      elim published [ err e ↦ (err e, w1) | ok handle ↦ verify provider rec handle f w1 ]
