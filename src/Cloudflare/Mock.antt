-- ===== src/Cloudflare/Mock.antt =====
-- `MockTransport` of crates/dns-providers/cloudflare/src/transport.rs: a transport that answers by a
-- script. The world is the script; a panic, which ends the test, is marked in it.
pub mod Laws
pub mod Requests
use acme_wasm.Prelude.{
  ◌-◌, Bool, true, false, ◌&&◌, Option, none, some, List, [], ◌∷◌, leb, if◌then◌else◌, length, drop,
  any, Bytes, Text, text, ◌is◌, contains, eq_ignore_ascii_case, from_utf8, Result, ok, err,
}
use acme_wasm.Cloudflare.Transport.{
  HttpMethod, get, post, delete, HttpResponse, TransportError, misuse, HttpTransport,
}

pub record MockCall : Type 0 where
  pub expected_method : HttpMethod
  pub expected_url_suffix : Text
  pub expected_headers : List (Text × Text)
  pub expected_body_contains : List Text
  pub reply : HttpResponse

pub data Script : Type 0 where
  running : List MockCall → Script
  panicked : Script

-- `==` on methods
unfoldable pub same_method : HttpMethod → HttpMethod → Bool
same_method get get = true
same_method post post = true
same_method delete delete = true
same_method _ _ = false

-- `HttpMethod::as_str`
unfoldable pub method_name : HttpMethod → Text
method_name get = text "GET"
method_name post = text "POST"
method_name delete = text "DELETE"

-- `ends_with`
unfoldable pub ends_with : Text → Text → Bool
unfolding ◌is◌
ends_with suffix s = leb (length suffix) (length s) && (drop (length s - length suffix) s is suffix)

abbrev pub sent_header : Text × Text → Text × Text → Bool
sent_header (k, v) (hk, hv) = eq_ignore_ascii_case hk k && hv is v

-- `unwrap_or("")`
abbrev pub or_blank : Option Text → Text
or_blank none = []
or_blank (some s) = s

-- the `for` loops of assertions
unfoldable pub every {ℓ} : {A : Type ℓ} → (A → Bool) → List A → Bool
every p [] = true
every p (x ∷ xs) = p x && every p xs

-- the four assertions
unfoldable pub as_expected : MockCall → HttpMethod → Text → Bytes → List (Text × Text) → Bool
unfolding same_method ends_with every contains eq_ignore_ascii_case
as_expected call method url body headers =
    same_method call.expected_method method
    && ends_with call.expected_url_suffix url
    && every (λ h. any (sent_header h) headers) call.expected_headers
    && every (λ fragment. contains fragment (or_blank (from_utf8 body))) call.expected_body_contains

abbrev pub panic : Result HttpResponse TransportError × Script
panic = (err (misuse (text "panic")), panicked)

unfoldable pub mock_request :
    HttpMethod
    → Text
    → Bytes
    → List (Text × Text)
    → Script
    → Result HttpResponse TransportError × Script
unfolding as_expected
mock_request method url body headers panicked = panic
mock_request method url body headers (running []) = panic
mock_request method url body headers (running (call ∷ rest)) =
    if as_expected call method url body headers then (ok call.reply, running rest) else panic

-- `HttpTransport for MockTransport`
unfoldable pub mock_transport : HttpTransport Script
unfolding mock_request
mock_transport = record { request = mock_request }
