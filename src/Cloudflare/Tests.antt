-- ===== src/Cloudflare/Tests.antt =====
-- Calls of a provider on a small API. The world counts the requests.
use acme_wasm.Prelude.{
  from_utf8, ℕ, ◌+◌, ◌≡◌, refl, true, some, [], ◌∷◌, arith, Text, text, ◌is◌, join, ok,
}
use acme_wasm.Cloudflare.{
  by_name, CloudflareProvider, Serde, request, fetch_zone, cached_or, resolve_in, resolve_zone_id,
}
use acme_wasm.Cloudflare.Script.{Replies, Follows, upsert_txt-delete_txt-Follows}
use acme_wasm.Cloudflare.Transport.{HttpResponse}
use acme_wasm.Cloudflare.Names.{split, apex_from_record_name, urlencoding_encode}
use acme_wasm.Cloudflare.Calls.{Cached, find_key, insert, store}
use acme_wasm.Cloudflare.Encoding.{percent_decode, percent_decode-urlencoding_encode}
use acme_wasm.Cloudflare.Laws.{resolve_zone_id-again}

abbrev serde : Serde
serde = record {
  create_to_vec = λ r. ok [];
  zones_from_slice = λ b. ok (record { success = true; errors = []; result = text "z1" ∷ [] });
  record_from_slice = λ b. ok (record { success = true; errors = []; result = some (text "r1") });
}

abbrev provider : CloudflareProvider ℕ
provider = record {
  token = text "secret";
  lookup = by_name;
  transport = record {
    request = λ m url b hs w. (ok (record { status = 200; headers = []; body = [] }), w + 1);
  };
  api_base = text "https://api";
}

abbrev before_call : Cached ℕ
before_call = record { cache = []; world = 0 }

abbrev after_zone : Cached ℕ
after_zone = record { cache = (text "a.b", text "z1") ∷ []; world = 1 }

resolve_run :
    resolve_zone_id serde provider (text "x.a.b") before_call ≡ (ok (text "z1"), after_zone)
unfolding resolve_zone_id resolve_in cached_or fetch_zone request find_key insert store
    apex_from_record_name split join text ◌is◌
resolve_run = refl

same_apex : apex_from_record_name (text "y.a.b") ≡ apex_from_record_name (text "x.a.b")
unfolding apex_from_record_name split join text
same_apex = refl

resolve_zone_id-again_example :
    resolve_zone_id serde provider (text "y.a.b") after_zone ≡ (ok (text "z1"), after_zone)
resolve_zone_id-again_example =
    resolve_zone_id-again serde provider (text "x.a.b") (text "y.a.b") (text "z1") before_call
      after_zone resolve_run same_apex

abbrev query : Text
query = text "a b"

percent_decode-urlencoding_encode_example : percent_decode (urlencoding_encode query) ≡ query
unfolding text
percent_decode-urlencoding_encode_example =
    percent_decode-urlencoding_encode query (omega arith, (omega arith, (omega arith, tt)))

-- The zone has another one behind it, and all replies have an empty body.
abbrev empty_reply : HttpResponse
empty_reply = record { status = 200; headers = []; body = [] }

replies : Replies serde (text "x.a.b") (text "v") 0 (text "z1") (text "r1")
unfolding from_utf8
replies = record {
  zones = empty_reply;
  other_zones = [];
  zones_read = refl;
  body = [];
  body_written = refl;
  body_text = refl;
  created = empty_reply;
  created_read = refl;
  deleted = empty_reply;
  deleted_read = refl;
}

upsert_txt-delete_txt-Follows_example :
    Follows serde
      (text "secret")
      (text "https://api")
      (text "x.a.b")
      (text "v")
      0
      (text "z1")
      (text "r1")
      replies
unfolding text
upsert_txt-delete_txt-Follows_example =
    upsert_txt-delete_txt-Follows serde (text "secret") (text "https://api") (text "x.a.b")
      (text "v") 0 (text "z1") (text "r1") replies refl
