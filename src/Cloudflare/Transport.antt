-- ===== src/Cloudflare/Transport.antt =====
-- crates/dns-providers/cloudflare/src/transport.rs: the HTTP transport of the provider.
use acme_wasm.Prelude.{ℕ, List, ◌++◌, Bytes, Text, text, Result}

pub data HttpMethod : Type 0 where
  get post delete : HttpMethod

pub record HttpResponse : Type 0 where
  pub status : ℕ
  pub headers : List (Text × Text)
  pub body : Bytes

pub data TransportError : Type 0 where
  http misuse : Text → TransportError

-- its `Display`
unfoldable pub to_string : TransportError → Text
to_string (http m) = text "http transport failure: " ++ m
to_string (misuse m) = text "http transport misuse: " ++ m

-- The trait: a request acts on the world `W`.
pub record HttpTransport (W : Type 0) : Type 0 where
  pub request :
      HttpMethod → Text → Bytes → List (Text × Text) → W → Result HttpResponse TransportError × W
