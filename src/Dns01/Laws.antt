-- ===== src/Dns01/Laws.antt =====
-- What the record is called, and that it is gone afterwards.
use acme_wasm.Prelude.{
  ◌≡◌, refl, ap, ◌∙◌, false, none, List, [], ◌∷◌, ◌++◌, map-append, arith, retain, All, Text, text,
  ◌is◌, is_refl, strip_prefix, strip_prefix-append, Result,
}
use acme_wasm.Core.Crates.{Crates}
use acme_wasm.Core.Jws.{AccountKey}
use acme_wasm.Dns01.{
  record_name, record_value, Dns01Record, challenge_record, verify, with_provisioned_record,
}
use acme_wasm.Dns01.Provider.{
  Live, DnsProviderError, RecordHandle, mock_provider, mock_upsert, mock_delete, mock_handle,
  snapshot, shown, kept,
}

-- A wildcard and its base domain, unless that is a wildcard itself, have the same record.
pub record_name-wildcard :
    (domain : Text)
    → strip_prefix (text "*.") domain ≡ none
    → record_name (text "*." ++ domain) ≡ record_name domain
unfolding record_name
record_name-wildcard domain plain = ground (arith, strip_prefix-append (text "*.") domain)

-- No record has the handle.
abbrev pub Unused : Text → List Live → Type 0
Unused handle = All (λ r. (r.handle is handle) ≡ false)

retain-Unused :
    (handle : RecordHandle) (records : List Live)
    → Unused handle.id records
    → retain (kept handle) records ≡ records
retain-Unused handle [] h = refl
retain-Unused handle (r ∷ records) h = rw h.0 (ap (λ rs. r ∷ rs) (retain-Unused handle records h.1))

pub retain-last :
    (handle : RecordHandle) (records : List Live) (new : Live)
    → Unused handle.id records
    → new.handle ≡ handle.id
    → retain (kept handle) (records ++ new ∷ []) ≡ records
retain-last handle [] new h same = rw (same, is_refl) refl
retain-last handle (r ∷ records) new h same =
    rw h.0 (ap (λ rs. r ∷ rs) (retain-last handle records new h.1 same))

-- With the provider in memory, if no live record has the new record's handle and the verification
-- leaves the records as they are, then the verification sees exactly one more record, the challenge's,
-- its result is returned, an error too, and afterwards the records are those from before.
pub with_provisioned_record-restores :
    (c : Crates) {T : Type 0} (identifier token : Text) (key : AccountKey c)
    (f : Dns01Record → List Live → Result T DnsProviderError × List Live) (records : List Live)
    → Unused (mock_handle records (record_name identifier)) records
    → ((rec : Dns01Record) (live : List Live) → (f rec live).1 ≡ live)
    → (live : List Live) × (snapshot live
        ≡ snapshot records ++ (record_name identifier, record_value c token key) ∷ [])
      × (with_provisioned_record c mock_provider identifier token key f records
          ≡ ((f (challenge_record c identifier token key) live).0, records))
unfolding with_provisioned_record mock_provider mock_upsert mock_delete snapshot verify
    challenge_record
with_provisioned_record-restores c identifier token key f records unused quiet =
    let handle : RecordHandle = record { id = mock_handle records (record_name identifier) } in
    let new : Live = record {
      name = record_name identifier;
      value = record_value c token key;
      handle = handle.id;
    } in
    let live = records ++ new ∷ [] in
    let rec = challenge_record c identifier token key in
    (
      live,
      map-append shown records (new ∷ []),
      ap (λ l. ((f rec live).0, retain (kept handle) l)) (quiet rec live)
          ∙ ap (λ l. ((f rec live).0, l)) (retain-last handle records new unused refl),
    )
