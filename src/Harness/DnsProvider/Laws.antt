-- ===== src/Harness/DnsProvider/Laws.antt =====
-- What the DNS-01 solver of crates/testing/src/dns_provider.rs publishes while it is armed.
use acme_wasm.Prelude.{
  ◌≡◌, refl, ap, inl, inr, true, List, [], ◌∷◌, ◌++◌, map-append, if◌then◌else◌, Bool-cases, Text,
  text, ok,
}
use acme_wasm.Core.Crates.{Crates}
use acme_wasm.Core.Jws.{AccountKey}
use acme_wasm.Core.Challenge.{ChallengeReady, compute_key_authorization, sha256_key_authorization}
use acme_wasm.Core.Records.Order.{Identifier}
use acme_wasm.Dns01.{record_name, record_value}
use acme_wasm.Dns01.Laws.{Unused, retain-last}
use acme_wasm.Dns01.Provider.{
  RecordHandle, Live, shown, snapshot, mock_handle, mock_upsert, mock_delete, mock_provider,
}
use acme_wasm.Harness.DnsProvider.{ends_with_dot, fqdn, dns_ready, published, dns_arm, dns_solver}

-- The solver, armed over the records, leads to `live`, and can be torn down from there.
pub record Publishes (c : Crates) (identifier : Identifier) (token : Text) (key : AccountKey c)
    (records : List Live) : Type 0 where
  pub ready : ChallengeReady (List Live)
  pub live : List Live
  pub arms :
      (dns_solver c mock_provider).arm identifier (compute_key_authorization c token key) records
      ≡ (ok ready, live)
  pub shows :
      snapshot live
      ≡ snapshot records ++ (record_name identifier.value, record_value c token key) ∷ []
  pub torn_down : ready.drop live ≡ records

-- With the provider in memory, if no live record has the new record's handle: after the solver was
-- armed with the key authorization of a token, exactly one more record is live, with the name and the
-- value that challenge-dns-01 gives, and after the handle was dropped, the records are as before.
pub dns_solver-Publishes :
    (c : Crates) (identifier : Identifier) (token : Text) (key : AccountKey c) (records : List Live)
    → Unused (mock_handle records (record_name identifier.value)) records
    → Publishes c identifier token key records
unfolding dns_solver dns_arm published mock_provider mock_upsert mock_delete snapshot record_value
    sha256_key_authorization dns_ready
dns_solver-Publishes c identifier token key records unused =
    let handle : RecordHandle = record {
      id = mock_handle records (record_name identifier.value);
    } in
    let new : Live = record {
      name = record_name identifier.value;
      value = record_value c token key;
      handle = handle.id;
    } in
    record {
      ready = dns_ready c mock_provider handle;
      live = records ++ new ∷ [];
      arms = refl;
      shows = map-append shown records (new ∷ []);
      torn_down = retain-last handle records new unused refl;
    }

ends_with_dot-append : (s : Text) → ends_with_dot (s ++ b'.' ∷ []) ≡ true
unfolding ends_with_dot
ends_with_dot-append [] = refl
ends_with_dot-append (c ∷ []) = refl
ends_with_dot-append (c ∷ d ∷ s) = ends_with_dot-append (d ∷ s)

fqdn_ends : (name : Text) → ends_with_dot (fqdn name) ≡ true
unfolding fqdn text
fqdn_ends name = elim (Bool-cases (ends_with_dot name)) [
  | inl e ↦ rw e e
  | inr e ↦ rw e (ends_with_dot-append name)
]

-- The full name ends with a dot, and is its own full name.
pub fqdn-fqdn : (name : Text) → (ends_with_dot (fqdn name) ≡ true) × (fqdn (fqdn name) ≡ fqdn name)
unfolding fqdn
fqdn-fqdn name =
    (fqdn_ends name, ap (λ b. if b then fqdn name else fqdn name ++ text ".") (fqdn_ends name))
