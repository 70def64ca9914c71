-- ===== src/Cloudflare/Laws.antt =====
-- The zone cache, and the handle of a record.
use acme_wasm.Cloudflare.Transport.{get, post}
use acme_wasm.Prelude.{
  ℕ, ◌≡◌, refl, sym, ap, ◌∙◌, Bool, true, false, not, Option, none, some, List, [], ◌∷◌, ◌++◌,
  append_assoc, arith, ◌==◌, if◌then◌else◌, head?, any, Text, text, is_refl, split_once,
  split_once-append, Result, ok, err, map_err, ok_or,
}
use acme_wasm.Dns01.Provider.{RecordHandle}
use acme_wasm.Dns01.Provider as Dns
use acme_wasm.Cloudflare.{
  CloudflareError, no_zone, bad_response, into_dns_error, ZoneLookup, static, by_name,
  CloudflareProvider, Serde, cf_api_error, request, fetch_zone, cached_or, resolve_in,
  resolve_zone_id, records_url, ttl_or_default, upsert_txt, delete_record, delete_txt,
}
use acme_wasm.Cloudflare.Names.{apex_from_record_name, urlencoding_encode}
use acme_wasm.Cloudflare.Calls.{Cached, Call, attempt, convert, next, find_key, insert, store}

-- What was inserted is found.
find_key-insert :
    (key value : Text) (m : List (Text × Text)) → find_key key (insert key value m) ≡ some value
unfolding find_key insert
find_key-insert key value [] = rw is_refl refl
find_key-insert key value ((k, v) ∷ m) = ground (arith, is_refl key, find_key-insert key value m)

module _ {E W A : Type 0} where
  ok_inj :
      (a : A) (s : Cached W) {b : A} {t : Cached W}
      → ◌≡◌ {A = Result A E × Cached W} (ok a, s) (ok b, t)
      → (a ≡ b) × (s ≡ t)
  ok_inj a s e = (cc, ap (λ p. p.1) e)

module _ {E W A B : Type 0} where
  -- A call of two steps that returns is a call of each.
  next-eq-ok :
      (f : A → Call E W B) (o : Result A E × Cached W) {b : B} {t : Cached W}
      → next f o ≡ (ok b, t)
      → (a : A) × (s : Cached W) × (o ≡ (ok a, s)) × (f a s ≡ (ok b, t))
  next-eq-ok f (ok a, s) e = (a, s, refl, e)
  next-eq-ok f (err x, s) e = absurd cc

module _ {W : Type 0} (serde : Serde) (provider : CloudflareProvider W) where
  if_success :
      (success : Bool) (x : CloudflareError) (m : Call CloudflareError W Text) {id : Text}
      {s t : Cached W}
      → (if not success then attempt (err x) else m) s ≡ (ok id, t)
      → m s ≡ (ok id, t)
  if_success true x m e = e
  if_success false x m e = absurd cc

  fetch_zone-store :
      (apex id : Text) (s t : Cached W)
      → fetch_zone serde provider apex s ≡ (ok id, t)
      → find_key apex t.cache ≡ some id
  unfolding fetch_zone store
  fetch_zone-store apex id s t e =
      let (resp, s1, _, e1) =
        next-eq-ok _
          (request serde provider get
            (provider.api_base ++ text "/zones?name=" ++ urlencoding_encode apex) [] s)
          e in
      let (zones, s2, _, e2) =
        next-eq-ok _ (map_err bad_response (serde.zones_from_slice resp.body), s1) e1 in
      let e3 = if_success zones.success (cf_api_error zones.errors) _ e2 in
      let (found, s3, _, e4) = next-eq-ok _ (ok_or (no_zone apex) (head? zones.result), s2) e3 in
      let same = (ok_inj found (record s3 { cache = insert apex found s3.cache }) e4).0 in
      let stored : insert apex found s3.cache ≡ t.cache = ap (λ p. p.1.cache) e4 in
      ap (find_key apex) (sym stored) ∙ find_key-insert apex found s3.cache ∙ ap (λ x. some x) same

  cached_or-find_key :
      (apex id : Text) (found : Option Text) (s t : Cached W)
      → find_key apex s.cache ≡ found
      → cached_or serde provider found (fetch_zone serde provider apex) s ≡ (ok id, t)
      → find_key apex t.cache ≡ some id
  unfolding cached_or
  cached_or-find_key apex id none s t h e = fetch_zone-store apex id s t e
  cached_or-find_key apex id (some x) s t h e =
      let same : x ≡ id = cc in
      sym (ap (λ p. find_key apex p.1.cache) e) ∙ h ∙ ap (λ y. some y) same

  resolve_in-again :
      (lookup : ZoneLookup) (apex id : Text) (s t : Cached W)
      → resolve_in serde provider lookup apex s ≡ (ok id, t)
      → resolve_in serde provider lookup apex t ≡ (ok id, t)
  unfolding resolve_in cached_or
  resolve_in-again (static m) apex id s t e = ap (λ r. (r, t)) (ap (λ p. p.0) e)
  resolve_in-again by_name apex id s t e =
      ap (λ found. cached_or serde provider found (fetch_zone serde provider apex) t)
        (cached_or-find_key apex id (find_key apex s.cache) s t refl e)

  -- A zone that was resolved once is resolved again for every name with the same apex, with the
  -- same id and without a request: the world and the cache are left as they are.
  pub resolve_zone_id-again :
      (name other : Text) (id : Text) (s t : Cached W)
      → resolve_zone_id serde provider name s ≡ (ok id, t)
      → apex_from_record_name other ≡ apex_from_record_name name
      → resolve_zone_id serde provider other t ≡ (ok id, t)
  unfolding resolve_zone_id
  resolve_zone_id-again name other id s t e same =
      ap (λ apex. resolve_in serde provider provider.lookup apex t) same
      ∙ resolve_in-again provider.lookup (apex_from_record_name name) id s t e

  convert-eq-ok :
      {A : Type 0} (f : CloudflareError → Dns.DnsProviderError) (r : Result A CloudflareError)
      {u t : Cached W} {a : A}
      → ◌≡◌ {A = Result A Dns.DnsProviderError × Cached W} (map_err f r, u) (ok a, t)
      → ◌≡◌ {A = Result A CloudflareError × Cached W} (r, u) (ok a, t)
  convert-eq-ok f (ok b) {u} {t} {a} e =
      let same = ok_inj b u e in ap (λ x. (ok x, u)) same.0 ∙ ap (λ v. (ok a, v)) same.1
  convert-eq-ok f (err x) e = absurd cc

  if_created :
      (success : Bool) (x : Dns.DnsProviderError) (m : Call Dns.DnsProviderError W RecordHandle)
      {h : RecordHandle} {s t : Cached W}
      → (if not success then attempt (err x) else m) s ≡ (ok h, t)
      → m s ≡ (ok h, t)
  if_created true x m e = e
  if_created false x m e = absurd cc

  -- what `delete_txt` does with the parts of a handle
  abbrev on_parts : RecordHandle → Option (Text × Text) → Call Dns.DnsProviderError W Unit
  on_parts handle none =
      attempt (err (Dns.rejected (text "malformed handle `" ++ handle.id ++ text "`")))
  on_parts handle (some (z, r)) = delete_record serde provider z r

  delete_txt-on_parts :
      (handle : RecordHandle) (parts : Option (Text × Text)) (v : Cached W)
      → split_once b'/' handle.id ≡ parts
      → delete_txt serde provider handle v ≡ on_parts handle parts v
  unfolding delete_txt
  delete_txt-on_parts handle none v e = rw (e, delete_txt) refl
  delete_txt-on_parts handle (some (z, r)) v e = rw (e, delete_txt) refl

  delete_txt-slash :
      (zone id : Text) (handle : RecordHandle) (v : Cached W)
      → zone ++ text "/" ++ id ≡ handle.id
      → any (λ b. b == b'/') zone ≡ false
      → delete_txt serde provider handle v ≡ delete_record serde provider zone id v
  unfolding delete_txt text
  delete_txt-slash zone id handle v e plain = delete_txt-on_parts handle (some (zone, id)) v (
      ap (split_once b'/') (sym e)
      ∙ ap (split_once b'/') (append_assoc zone (b'/' ∷ []) id)
      ∙ split_once-append b'/' zone id plain)

  -- A record that was published is deleted by its handle in the zone where it was published: the
  -- handle leads `delete_txt` to the zone id and to the record id that the API returned.
  pub upsert_txt-delete_txt :
      (name value : Text) (ttl : ℕ) (handle : RecordHandle) (s t : Cached W)
      → upsert_txt serde provider name value ttl s ≡ (ok handle, t)
      → (zone : Text) × (id : Text) × (u : Cached W) × (resolve_zone_id serde provider name s
          ≡ (ok zone, u))
        × (any (λ b. b == b'/') zone ≡ false
            → (v : Cached W)
            → delete_txt serde provider handle v ≡ delete_record serde provider zone id v)
  unfolding upsert_txt
  upsert_txt-delete_txt name value ttl handle s t e =
      let (zone, u, resolved, e1) =
        next-eq-ok _ (convert into_dns_error (resolve_zone_id serde provider name) s) e in
      let (body, s2, _, e2) =
        next-eq-ok _
          (
            map_err Dns.rejected (
                serde.create_to_vec (record {
                  record_type = text "TXT";
                  name = name;
                  content = value;
                  ttl = ttl_or_default serde provider ttl;
                })),
            u,
          )
          e1 in
      let (resp, s3, _, e3) =
        next-eq-ok _
          (convert into_dns_error
            (request serde provider post (records_url serde provider zone) body) s2)
          e2 in
      let (created, s4, _, e4) =
        next-eq-ok _
          (map_err into_dns_error (map_err bad_response (serde.record_from_slice resp.body)), s3)
          e3 in
      let e5 = if_created created.success (into_dns_error (cf_api_error created.errors)) _ e4 in
      let (id, s5, _, e6) =
        next-eq-ok _
          (
            ok_or (into_dns_error (bad_response (text "success: true but result missing")))
                created.result,
            s4,
          )
          e5 in
      let handle_is : zone ++ text "/" ++ id ≡ handle.id =
        ap (λ h. h.id)
          (ok_inj {E = Dns.DnsProviderError} (record { id = zone ++ text "/" ++ id }) s5 e6).0 in
      (
        zone,
        id,
        u,
        convert-eq-ok into_dns_error (resolve_zone_id serde provider name s).0 resolved,
        λ plain v. delete_txt-slash zone id handle v handle_is plain,
      )
