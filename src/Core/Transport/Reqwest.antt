-- ===== src/Core/Transport/Reqwest.antt =====
-- `ReqwestTransport` of crates/core/src/transport.rs, on the `reqwest` crate as a parameter, and the
-- clients behind a pointer.
use acme_wasm.Prelude.{
  ℕ, Option, none, some, List, [], ◌++◌, map, Bytes, Text, text, Result, ok, err,
}
use acme_wasm.Core.Error.{AcmeError}
use acme_wasm.Core.Error as Errors
use acme_wasm.Core.Transport.{HttpResponse, HttpClient}

-- `reqwest::blocking`: errors are their `Display` texts, and a header value is what `to_str` makes
-- of it.
pub record Blocking (W : Type 0) : Type 1 where
  pub Client : Type 0
  pub RequestBuilder : Type 0
  pub Response : Type 0
  -- `Client::builder().user_agent(..).build()`
  pub build : Text → Option Client
  pub head : Client → Text → RequestBuilder
  pub get : Client → Text → RequestBuilder
  pub post : Client → Text → RequestBuilder
  pub header : RequestBuilder → Text → Text → RequestBuilder
  pub body : RequestBuilder → Bytes → RequestBuilder
  pub send : RequestBuilder → W → Result Response Text × W
  pub status : Response → ℕ
  pub headers : Response → List (Text × Option Text)
  pub bytes : Response → W → Result Bytes Text × W

-- `unwrap_or("")`
abbrev readable_header : Text × Option Text → Text × Text
readable_header (k, none) = (k, [])
readable_header (k, some v) = (k, v)

module _ {W : Type 0} (reqwest : Blocking W) where
  -- `ReqwestTransport`
  pub record ReqwestTransport : Type 0 where
    pub client : reqwest.Client

  -- `none` is the panic of `expect`.
  unfoldable pub new_transport : Text → Option ReqwestTransport
  new_transport version = elim (reqwest.build (text "tegmentum-acme-core/" ++ version)) [
    | none ↦ none
    | some client ↦ some (record { client = client })
  ]

  unfoldable pub with_client : reqwest.Client → ReqwestTransport
  with_client client = record { client = client }

  -- What the bytes of a response's body come to.
  unfoldable pub with_response_body :
      reqwest.Response → Result Bytes Text × W → Result HttpResponse AcmeError × W
  with_response_body resp (err e, w) = (err (Errors.transport e), w)
  with_response_body resp (ok body, w) = (
    ok (record {
      status = reqwest.status resp;
      headers = map readable_header (reqwest.headers resp);
      body = body;
    }),
    w,
  )

  -- What follows the request.
  unfoldable pub on_answer : Result reqwest.Response Text × W → Result HttpResponse AcmeError × W
  unfolding with_response_body
  on_answer (err e, w) = (err (Errors.transport e), w)
  on_answer (ok resp, w) = with_response_body resp (reqwest.bytes resp w)

  unfoldable pub send_request : reqwest.RequestBuilder → W → Result HttpResponse AcmeError × W
  unfolding on_answer
  send_request req w = on_answer (reqwest.send req w)

  -- `HttpClient for ReqwestTransport`
  unfoldable pub reqwest_transport : ReqwestTransport → HttpClient W
  unfolding send_request
  reqwest_transport transport = record {
    head = λ url. send_request (reqwest.head transport.client url);
    get = λ url. send_request (reqwest.get transport.client url);
    post_jose = λ url body. send_request (
        reqwest.body
          (reqwest.header (reqwest.post transport.client url) (text "Content-Type")
            (text "application/jose+json"))
          body);
  }

-- `HttpClient for Arc<T>` and `HttpClient for &T`
unfoldable pub behind_pointer : {W : Type 0} → HttpClient W → HttpClient W
behind_pointer client = record {
  head = λ url. client.head url;
  get = λ url. client.get url;
  post_jose = λ url body. client.post_jose url body;
}
