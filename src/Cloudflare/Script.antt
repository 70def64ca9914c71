-- ===== src/Cloudflare/Script.antt =====
-- A publication and a removal by the provider of crates/dns-providers/cloudflare, against the script
-- of the requests that the Cloudflare API wants.
use acme_wasm.Prelude.{
  ℕ, ◌≡◌, refl, ap, ◌∙◌, inl, inr, true, false, Option, none, some, List, [], ◌∷◌, ◌++◌,
  append_assoc, ◌==◌, if◌then◌else◌, Bool-cases, any, Bytes, Text, text, contains, split_once,
  split_once-append, from_utf8, ok, err,
}
use acme_wasm.Cloudflare.{
  CloudflareProvider, Serde, auth_headers, fetch_zone, cached_or, resolve_in, resolve_zone_id,
  records_url, upsert_txt, delete_record, delete_txt,
}
use acme_wasm.Cloudflare.Transport.{get, post, delete, HttpResponse}
use acme_wasm.Cloudflare.Mock.{MockCall, Script, running, ends_with, or_blank, every, as_expected}
use acme_wasm.Dns01.Provider.{RecordHandle}
use acme_wasm.Cloudflare.Mock.Laws.{and_true, ends_with-append, contains_refl, as_expected-true}
use acme_wasm.Cloudflare.Calls.{Cached, Call, attempt, find_key, insert, store}
use acme_wasm.Dns01.Provider as Dns
use acme_wasm.Cloudflare.Names.{apex_from_record_name, urlencoding_encode}
use acme_wasm.Cloudflare.Mock.Requests.{
  looking_up, bearer, json_type, records_path, sends_bearer, sends_json, mock_transport-request,
  request-mock_request, records_url_assoc, record_url_assoc,
}

-- The requests of a publication by name and a removal, with the replies.
pub record Replies (serde : Serde) (name value : Text) (ttl_seconds : ℕ) (zone_id record_id : Text)
    : Type 0 where
  pub zones : HttpResponse
  pub other_zones : List Text
  pub zones_read :
      serde.zones_from_slice zones.body
      ≡ ok (record { success = true; errors = []; result = zone_id ∷ other_zones })
  pub body : Bytes
  pub body_written :
      serde.create_to_vec (record {
        record_type = text "TXT";
        name = name;
        content = value;
        ttl = if ttl_seconds == 0 then 60 else ttl_seconds;
      })
      ≡ ok body
  pub body_text : from_utf8 body ≡ some body
  pub created : HttpResponse
  pub created_read :
      serde.record_from_slice created.body
      ≡ ok (record { success = true; errors = []; result = some record_id })
  pub deleted : HttpResponse
  pub deleted_read :
      serde.record_from_slice deleted.body
      ≡ ok (record { success = true; errors = []; result = some record_id })

module _ (serde : Serde) (token base name value : Text) (ttl_seconds : ℕ) (zone_id record_id : Text)
    (replies : Replies serde name value ttl_seconds zone_id record_id) where
  abbrev pub provider : CloudflareProvider Script
  provider = looking_up token base

  abbrev zone_call : MockCall
  zone_call = record {
    expected_method = get;
    expected_url_suffix = text "/zones?name=" ++ urlencoding_encode (apex_from_record_name name);
    expected_headers = bearer token ∷ [];
    expected_body_contains = [];
    reply = replies.zones;
  }

  abbrev create_call : MockCall
  create_call = record {
    expected_method = post;
    expected_url_suffix = records_path zone_id;
    expected_headers = bearer token ∷ json_type ∷ [];
    expected_body_contains = replies.body ∷ [];
    reply = replies.created;
  }

  abbrev delete_call : MockCall
  delete_call = record {
    expected_method = delete;
    expected_url_suffix = records_path zone_id ++ text "/" ++ record_id;
    expected_headers = bearer token ∷ [];
    expected_body_contains = [];
    reply = replies.deleted;
  }

  zone_expected :
      as_expected zone_call get
        (base ++ text "/zones?name=" ++ urlencoding_encode (apex_from_record_name name))
        []
        (auth_headers token)
      ≡ true
  unfolding every
  zone_expected =
      as_expected-true zone_call
        (base ++ text "/zones?name=" ++ urlencoding_encode (apex_from_record_name name)) []
        (auth_headers token)
        (ap (ends_with (text "/zones?name=" ++ urlencoding_encode (apex_from_record_name name))) (
            append_assoc base (text "/zones?name=")
              (urlencoding_encode (apex_from_record_name name)))
          ∙ ends_with-append base
              (text "/zones?name=" ++ urlencoding_encode (apex_from_record_name name)))
        (and_true _ _ (sends_bearer token) refl) refl

  create_expected :
      as_expected create_call post
        (records_url serde provider zone_id)
        replies.body
        (auth_headers token)
      ≡ true
  unfolding every
  create_expected =
      as_expected-true create_call (records_url serde provider zone_id) replies.body
        (auth_headers token)
        (ap (ends_with (records_path zone_id)) (records_url_assoc serde token base zone_id)
          ∙ ends_with-append base (records_path zone_id))
        (and_true _ _ (sends_bearer token) (and_true _ _ (sends_json token) refl))
        (and_true _ _
          (ap (λ o. contains replies.body (or_blank o)) replies.body_text
            ∙ contains_refl replies.body)
          refl)

  delete_expected :
      as_expected delete_call delete
        (records_url serde provider zone_id ++ text "/" ++ record_id)
        []
        (auth_headers token)
      ≡ true
  unfolding every
  delete_expected =
      as_expected-true delete_call (records_url serde provider zone_id ++ text "/" ++ record_id) []
        (auth_headers token)
        (ap (ends_with (records_path zone_id ++ text "/" ++ record_id))
            (record_url_assoc serde token base zone_id record_id)
          ∙ ends_with-append base (records_path zone_id ++ text "/" ++ record_id))
        (and_true _ _ (sends_bearer token) refl) refl

  abbrev start : Cached Script
  start = record { cache = []; world = running (zone_call ∷ create_call ∷ delete_call ∷ []) }

  abbrev zone_known : List MockCall → Cached Script
  zone_known rest = record {
    cache = (apex_from_record_name name, zone_id) ∷ [];
    world = running rest;
  }

  resolved :
      resolve_zone_id serde provider name start
      ≡ (ok zone_id, zone_known (create_call ∷ delete_call ∷ []))
  unfolding resolve_zone_id resolve_in cached_or fetch_zone store insert find_key
  resolved =
      rw
        (
          request-mock_request serde token base get
              (base ++ text "/zones?name=" ++ urlencoding_encode (apex_from_record_name name)) []
              zone_call (create_call ∷ delete_call ∷ []) [] zone_expected,
          replies.zones_read,
        )
        refl

  publication :
      upsert_txt serde provider name value ttl_seconds start
      ≡ (ok (record { id = zone_id ++ text "/" ++ record_id }), zone_known (delete_call ∷ []))
  unfolding upsert_txt
  publication =
      rw (resolved, replies.body_written)
        (rw
          (mock_transport-request serde token base post (records_url serde provider zone_id)
            replies.body create_call (delete_call ∷ []) create_expected)
          (rw replies.created_read refl))

  abbrev pub handle : RecordHandle
  handle = record { id = zone_id ++ text "/" ++ record_id }

  removal :
      delete_record serde provider zone_id record_id (zone_known (delete_call ∷ []))
      ≡ (ok tt, zone_known [])
  unfolding delete_record
  removal =
      rw
        (mock_transport-request serde token base delete
          (records_url serde provider zone_id ++ text "/" ++ record_id) [] delete_call []
          delete_expected)
        (elim (Bool-cases (replies.deleted.status == 404)) [
          | inl gone ↦ rw gone refl
          | inr there ↦ rw (there, replies.deleted_read) refl
        ])

  handle_split :
      any (λ b. b == b'/') zone_id ≡ false → split_once b'/' handle.id ≡ some (zone_id, record_id)
  unfolding text
  handle_split no_slash =
      ap (split_once b'/') (append_assoc zone_id (text "/") record_id)
      ∙ split_once-append b'/' zone_id record_id no_slash

  -- The provider makes the three calls of the script, in two operations, to the script's end.
  pub record Follows : Type 0 where
    pub publishes :
        upsert_txt serde provider name value ttl_seconds start
        ≡ (ok handle, zone_known (delete_call ∷ []))
    pub removes :
        delete_txt serde provider handle (zone_known (delete_call ∷ [])) ≡ (ok tt, zone_known [])

  -- Against the script of the lookup of the zone, the creation of the record and its deletion, each
  -- with the bearer token, and the creation as JSON with the serialized record, if the replies are read
  -- as the zone's id and the record's id and the zone's id has no slash: a provider that looks zones up
  -- publishes the record and removes it by the handle that it returned, and every assertion of the
  -- script holds, up to its end.
  pub upsert_txt-delete_txt-Follows : any (λ b. b == b'/') zone_id ≡ false → Follows
  unfolding delete_txt
  upsert_txt-delete_txt-Follows no_slash = record {
    publishes = publication;
    removes =
        ap
          (λ (o : Option (Text × Text)).
            (elim o as (λ _. Call Dns.DnsProviderError Script Unit) [
              | none ↦
                  attempt (err (Dns.rejected (text "malformed handle `" ++ handle.id ++ text "`")))
              | some (zone, id) ↦ delete_record serde provider zone id
            ])
              (zone_known (delete_call ∷ [])))
          (handle_split no_slash)
        ∙ removal;
  }
