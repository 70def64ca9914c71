-- ===== src/Cloudflare.antt =====
-- crates/dns-providers/cloudflare/src/lib.rs: the DNS provider that talks to the Cloudflare API.
-- The transport, the names, and the state of a call are in children.
mod Transport
mod Mock
mod Script
mod Names
mod Calls
mod Encoding
mod Laws
mod Tests
use acme_wasm.Prelude.{
  ℕ, ◌/◌, Bool, true, false, not, Option, none, some, List, [], ◌∷◌, ◌++◌, map, ◌==◌, if◌then◌else◌,
  head?, any, Bytes, Text, text, contains, to_lower, split_once, join, Result, ok, err, map_err,
  ok_or,
}
use acme_wasm.Dns01.Provider.{RecordHandle}
use acme_wasm.Dns01.Provider as Dns
use acme_wasm.Cloudflare.Transport.{
  HttpMethod, get, post, delete, HttpResponse, TransportError, to_string, HttpTransport,
}
use acme_wasm.Cloudflare.Names.{apex_from_record_name, urlencoding_encode}
use acme_wasm.Cloudflare.Calls.{Call, attempt, convert, ◌>>=◌, ◌>>◌, find_key, store}

pub data CloudflareError : Type 0 where
  transport : TransportError → CloudflareError
  api no_zone bad_response : Text → CloudflareError

-- its `Display`
unfoldable pub cloudflare_error_text : CloudflareError → Text
unfolding to_string
cloudflare_error_text (transport t) = text "cloudflare transport error: " ++ to_string t
cloudflare_error_text (api m) = text "cloudflare API rejected request: " ++ m
cloudflare_error_text (no_zone z) =
    text "no zone found for `"
    ++ z
    ++ text "`; supply a static ZoneLookup or grant Zone:Read on the account token"
cloudflare_error_text (bad_response m) = text "malformed cloudflare response: " ++ m

-- `From<CloudflareError> for DnsProviderError`
unfoldable pub into_dns_error : CloudflareError → Dns.DnsProviderError
unfolding to_string
into_dns_error (transport t) = Dns.transport (to_string t)
into_dns_error (api m) = Dns.rejected m
into_dns_error (no_zone z) = Dns.zone_not_found z
into_dns_error (bad_response m) = Dns.rejected m

-- The cache of `ByName` is in the state.
pub data ZoneLookup : Type 0 where
  static : List (Text × Text) → ZoneLookup
  by_name : ZoneLookup

pub record CloudflareProvider (W : Type 0) : Type 0 where
  pub token : Text
  pub lookup : ZoneLookup
  pub transport : HttpTransport W
  pub api_base : Text

-- `CLOUDFLARE_API_BASE`
abbrev pub cloudflare_api_base : Text
cloudflare_api_base = text "https://api.cloudflare.com/client/v4"

module _ {W : Type 0} where
  -- `CloudflareProvider::new`
  unfoldable pub new_provider : Text → ZoneLookup → HttpTransport W → CloudflareProvider W
  new_provider token lookup client = record {
    token = token;
    lookup = lookup;
    transport = client;
    api_base = cloudflare_api_base;
  }

  unfoldable pub with_api_base : CloudflareProvider W → Text → CloudflareProvider W
  with_api_base provider base = record provider { api_base = base }

-- wire types
pub record CfCreateTxtRequest : Type 0 where
  pub record_type : Text
  pub name : Text
  pub content : Text
  pub ttl : ℕ

-- `code` is the text of the number.
pub record CfError : Type 0 where
  pub code : Text
  pub message : Text

pub record CfListResponse : Type 0 where
  pub success : Bool
  pub errors : List CfError
  -- the ids of the zones
  pub result : List Text

pub record CfSingleResponse : Type 0 where
  pub success : Bool
  pub errors : List CfError
  -- the id of the record
  pub result : Option Text

-- serde_json at the wire types
pub record Serde : Type 0 where
  pub create_to_vec : CfCreateTxtRequest → Result Bytes Text
  pub zones_from_slice : Bytes → Result CfListResponse Text
  pub record_from_slice : Bytes → Result CfSingleResponse Text

abbrev error_line : CfError → Text
error_line e = e.code ++ text ": " ++ e.message

unfoldable pub cf_api_error : List CfError → CloudflareError
cf_api_error [] = api (text "unknown error (success: false with no error detail)")
cf_api_error (e ∷ errors) = api (join (text "; ") (map error_line (e ∷ errors)))

-- A lower-case ASCII text occurs in `to_lowercase` of a message exactly if it occurs in the message
-- with its ASCII letters in lower case, as no other character has one of its letters as lower case.
abbrev pub says_not_found : CfError → Bool
says_not_found e = contains (text "not found") (map to_lower e.message)

unfoldable pub auth_headers : Text → List (Text × Text)
auth_headers token =
    (text "Authorization", text "Bearer " ++ token)
    ∷ (text "Content-Type", text "application/json")
    ∷ (text "Accept", text "application/json")
    ∷ []

module _ {W : Type 0} (serde : Serde) (provider : CloudflareProvider W) where
  -- one request with the provider's headers; its failure is a `CloudflareError`
  unfoldable pub request : HttpMethod → Text → Bytes → Call CloudflareError W HttpResponse
  unfolding auth_headers
  request method url body s =
      let (r, w) =
        provider.transport.request method url body (auth_headers provider.token) s.world in
      (map_err transport r, record s { world = w })

  -- the part of `resolve_zone_id` that asks the API and fills the cache
  unfoldable pub fetch_zone : Text → Call CloudflareError W Text
  unfolding request cf_api_error
  fetch_zone apex = do
    resp ← request get (provider.api_base ++ text "/zones?name=" ++ urlencoding_encode apex) []
    zones ← attempt (map_err bad_response (serde.zones_from_slice resp.body))
    if not zones.success then attempt (err (cf_api_error zones.errors)) else do
      id ← attempt (ok_or (no_zone apex) (head? zones.result))
      store apex id
      attempt (ok id)

  -- what the cache holds, or else `otherwise`
  unfoldable pub cached_or : Option Text → Call CloudflareError W Text → Call CloudflareError W Text
  cached_or (some id) otherwise s = (ok id, s)
  cached_or none otherwise s = otherwise s

  unfoldable pub resolve_in : ZoneLookup → Text → Call CloudflareError W Text
  unfolding cached_or fetch_zone
  resolve_in (static m) apex s = (ok_or (no_zone apex) (find_key apex m), s)
  resolve_in by_name apex s = cached_or (find_key apex s.cache) (fetch_zone apex) s

  unfoldable pub resolve_zone_id : Text → Call CloudflareError W Text
  unfolding resolve_in
  resolve_zone_id record_name = resolve_in provider.lookup (apex_from_record_name record_name)

  abbrev pub records_url : Text → Text
  records_url zone_id = provider.api_base ++ text "/zones/" ++ zone_id ++ text "/dns_records"

  -- `DEFAULT_TTL_SECONDS` if no TTL is given
  abbrev pub ttl_or_default : ℕ → ℕ
  ttl_or_default ttl_seconds = if ttl_seconds == 0 then 60 else ttl_seconds

  unfoldable pub upsert_txt : Text → Text → ℕ → Call Dns.DnsProviderError W RecordHandle
  unfolding resolve_zone_id into_dns_error request cf_api_error
  upsert_txt name value ttl_seconds = do
    zone_id ← convert into_dns_error (resolve_zone_id name)
    let new : CfCreateTxtRequest = record {
      record_type = text "TXT";
      name = name;
      content = value;
      ttl = ttl_or_default ttl_seconds;
    }
    body ← attempt (map_err Dns.rejected (serde.create_to_vec new))
    resp ← convert into_dns_error (request post (records_url zone_id) body)
    created ←
        attempt (map_err into_dns_error (map_err bad_response (serde.record_from_slice resp.body)))
    if not created.success then attempt (err (into_dns_error (cf_api_error created.errors))) else do
      id ← attempt (
          ok_or (into_dns_error (bad_response (text "success: true but result missing")))
            created.result)
      attempt (ok (record { id = zone_id ++ text "/" ++ id }))

  -- what `delete_txt` does with a handle that is well formed
  unfoldable pub delete_record : Text → Text → Call Dns.DnsProviderError W Unit
  unfolding into_dns_error request cf_api_error contains
  delete_record zone_id record_id = do
    resp ← convert into_dns_error (request delete (records_url zone_id ++ text "/" ++ record_id) [])
    if resp.status == 404 then attempt (ok tt) else do
      deleted ←
          attempt
            (map_err into_dns_error (map_err bad_response (serde.record_from_slice resp.body)))
      (if deleted.success
          then attempt (ok tt)
          else if any says_not_found deleted.errors
          then attempt (ok tt)
          else attempt (err (into_dns_error (cf_api_error deleted.errors))))

  unfoldable pub delete_txt : RecordHandle → Call Dns.DnsProviderError W Unit
  unfolding delete_record
  delete_txt handle = elim (split_once b'/' handle.id) [
    | none ↦ attempt (err (Dns.rejected (text "malformed handle `" ++ handle.id ++ text "`")))
    | some (zone_id, record_id) ↦ delete_record zone_id record_id
  ]
