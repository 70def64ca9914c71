-- ===== src/Cloudflare/Mock/Requests.antt =====
-- The requests of the provider of crates/dns-providers/cloudflare as the mocked API of its tests gets
-- them: their headers and their URLs.
use acme_wasm.Prelude.{
  ◌≡◌, refl, sym, ap, ◌∙◌, true, List, ◌∷◌, ◌++◌, append_assoc, if◌then◌else◌, any, Bytes, Text,
  text, ◌is◌, is_refl, to_lower, eq_ignore_ascii_case, ok, map_err,
}
use acme_wasm.Cloudflare.{
  transport, by_name, CloudflareProvider, Serde, auth_headers, request, records_url,
}
use acme_wasm.Cloudflare.Transport.{HttpMethod}
use acme_wasm.Cloudflare.Mock.{
  MockCall, Script, running, sent_header, as_expected, panic, mock_request, mock_transport,
}
use acme_wasm.Cloudflare.Mock.Laws.{eq_ignore_ascii_case_refl}

-- A provider by name, on the mocked API.
abbrev pub looking_up : Text → Text → CloudflareProvider Script
looking_up token base = record {
  token = token;
  lookup = by_name;
  transport = mock_transport;
  api_base = base;
}

abbrev pub bearer : Text → Text × Text
bearer token = (text "Authorization", text "Bearer " ++ token)

abbrev pub json_type : Text × Text
json_type = (text "Content-Type", text "application/json")

pub sends_bearer : (token : Text) → any (sent_header (bearer token)) (auth_headers token) ≡ true
unfolding auth_headers
sends_bearer token =
    rw (eq_ignore_ascii_case_refl (text "Authorization"), is_refl (text "Bearer " ++ token)) refl

pub sends_json : (token : Text) → any (sent_header json_type) (auth_headers token) ≡ true
unfolding auth_headers text to_lower ◌is◌ eq_ignore_ascii_case
sends_json token = refl

abbrev pub records_path : Text → Text
records_path zone_id = text "/zones/" ++ zone_id ++ text "/dns_records"

module _ (serde : Serde) (token base : Text) where
  abbrev provider : CloudflareProvider Script
  provider = looking_up token base

  pub mock_transport-request :
      (method : HttpMethod) (url : Text) (body : Bytes) (call : MockCall) (rest : List MockCall)
      → as_expected call method url body (auth_headers token) ≡ true
      → mock_transport.request method url body (auth_headers token) (running (call ∷ rest))
        ≡ (ok call.reply, running rest)
  unfolding mock_transport mock_request
  mock_transport-request method url body call rest e =
      ap (λ b. if b then (ok call.reply, running rest) else panic) e

  pub request-mock_request :
      (method : HttpMethod) (url : Text) (body : Bytes) (call : MockCall) (rest : List MockCall)
      (cache : List (Text × Text))
      → as_expected call method url body (auth_headers token) ≡ true
      → request serde provider method url body
          (record { cache = cache; world = running (call ∷ rest) })
        ≡ (ok call.reply, record { cache = cache; world = running rest })
  unfolding request mock_transport mock_request
  request-mock_request method url body call rest cache e =
      ap
        (λ b.
          let (r, w) = (if b then (ok call.reply, running rest) else panic) in
          (map_err transport r, record { cache = cache; world = w }))
        e

  pub records_url_assoc :
      (zone_id : Text) → records_url serde provider zone_id ≡ base ++ records_path zone_id
  records_url_assoc zone_id =
      append_assoc (base ++ text "/zones/") zone_id (text "/dns_records")
      ∙ append_assoc base (text "/zones/") (zone_id ++ text "/dns_records")
      ∙ ap (λ t. base ++ t) (sym (append_assoc (text "/zones/") zone_id (text "/dns_records")))

  pub record_url_assoc :
      (zone_id record_id : Text)
      → records_url serde provider zone_id ++ text "/" ++ record_id
        ≡ base ++ (records_path zone_id ++ text "/" ++ record_id)
  record_url_assoc zone_id record_id =
      ap (λ t. t ++ text "/" ++ record_id) (records_url_assoc zone_id)
      ∙ append_assoc (base ++ records_path zone_id) (text "/") record_id
      ∙ append_assoc base (records_path zone_id) (text "/" ++ record_id)
      ∙ ap (λ t. base ++ t) (sym (append_assoc (records_path zone_id) (text "/") record_id))
