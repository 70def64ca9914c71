-- ===== src/WasiHttp/Watch.antt =====
-- What a host of `wasi:http` does for the client, as far as an observer can tell: the request under
-- construction, and the requests that were handed over to be sent.
use acme_wasm.Prelude.{
  ℕ, ◌≤◌, ◌<◌, ◌≡◌, ◌≢◌, Option, none, List, [], ◌∷◌, ◌++◌, length, Bytes, Text, ok, err,
}
use acme_wasm.WasiHttp.{Scheme}
use acme_wasm.WasiHttp.Host.{Method, get, Act, Reply, Wasi}

pub record Draft : Type 0 where
  pub method : Method
  pub scheme : Option Scheme
  pub authority : Option Text
  pub path : Option Text
  pub headers : List (Text × Bytes)
  pub body : Bytes

abbrev pub blank : Draft
blank = record {
  method = get;
  scheme = none;
  authority = none;
  path = none;
  headers = [];
  body = [];
}

-- `permitted` is the answer of the last `check_write`; `left` bounds the chunks still to be read.
pub record Watch (W : Type 0) : Type 0 where
  pub draft : W → Draft
  pub sent : W → List Draft
  pub permitted : W → ℕ
  pub left : W → ℕ

module _ {W : Type 0} (watch : Watch W) where
  -- The request under construction, when `s` have been sent.
  pub record Drafted (s : List Draft) (d : Draft) (w : W) : Type 0 where
    pub drafting : watch.draft w ≡ d
    pub sending : watch.sent w ≡ s

  -- A call without errors changes the draft.
  pub record Sets {A : Type 0} (act : Act W A) (f : Draft → Draft) : Type 0 where
    pub at : (w : W) → Drafted (watch.sent w) (f (watch.draft w)) (act w).1

  -- A call changes the draft; if it fails, it has sent nothing either.
  abbrev pub On : {A E : Type 0} → (Draft → Draft) → W → Reply A E × W → Type 0
  On f w (ok a, v) = Drafted (watch.sent w) (f (watch.draft w)) v
  On f w (err e, v) = watch.sent v ≡ watch.sent w

  pub record Effect {A E : Type 0} (act : Act W (Reply A E)) (f : Draft → Draft) : Type 0 where
    pub at : (w : W) → On f w (act w)

  -- A request that is handed over is sent as drafted.
  abbrev pub Sends : {A E : Type 0} → W → Reply A E × W → Type 0
  Sends w (ok a, v) = watch.sent v ≡ watch.sent w ++ watch.draft w ∷ []
  Sends w (err e, v) = watch.sent v ≡ watch.sent w

abbrev pub same : Draft → Draft
same d = d

abbrev pub with_header : Text → Bytes → Draft → Draft
with_header name value d = record d { headers = d.headers ++ (name, value) ∷ [] }

abbrev pub with_body : Bytes → Draft → Draft
with_body bytes d = record d { body = d.body ++ bytes }

-- A host that does what `wasi:http` and `wasi:io` document. After a wait, an output stream permits a
-- write of at least one byte, unless it fails, and a future response is there; a write within the
-- permit is taken whole; each chunk read leaves fewer to be read.
pub record Faithful (wasi : Wasi) (watch : Watch wasi.World) : Type 0 where
  pub new_fields : Sets watch wasi.new_fields (λ d. blank)
  pub append :
      (h : wasi.Fields) (name : Text) (value : Bytes)
      → Effect watch (wasi.append h name value) (with_header name value)
  pub new_request : (h : wasi.Fields) → Sets watch (wasi.new_request h) same
  pub set_method :
      (r : wasi.OutgoingRequest) (m : Method)
      → Effect watch (wasi.set_method r m) (λ d. record d { method = m })
  pub set_scheme :
      (r : wasi.OutgoingRequest) (x : Option Scheme)
      → Effect watch (wasi.set_scheme r x) (λ d. record d { scheme = x })
  pub set_authority :
      (r : wasi.OutgoingRequest) (x : Option Text)
      → Effect watch (wasi.set_authority r x) (λ d. record d { authority = x })
  pub set_path_with_query :
      (r : wasi.OutgoingRequest) (x : Option Text)
      → Effect watch (wasi.set_path_with_query r x) (λ d. record d { path = x })
  pub body : (r : wasi.OutgoingRequest) → Effect watch (wasi.body r) same
  pub output_stream : (b : wasi.OutgoingBody) → Effect watch (wasi.output_stream b) same
  pub subscribe_output : (s : wasi.OutputStream) → Sets watch (wasi.subscribe_output s) same
  pub block : (p : wasi.Pollable) → Sets watch (wasi.block p) same
  pub check_write : (s : wasi.OutputStream) → Effect watch (wasi.check_write s) same
  pub permits :
      (s : wasi.OutputStream) (u w v : wasi.World) (n : ℕ)
      → wasi.check_write s (wasi.block (wasi.subscribe_output s u).0 w).1 ≡ (ok n, v)
      → (1 ≤ n) × (watch.permitted v ≡ n)
  pub write :
      (s : wasi.OutputStream) (chunk : Bytes) (w : wasi.World)
      → length chunk ≤ watch.permitted w
      → On watch (with_body chunk) w (wasi.write s chunk w)
  pub flush : (s : wasi.OutputStream) → Effect watch (wasi.flush s) same
  pub finish : (b : wasi.OutgoingBody) → Effect watch (wasi.finish b) same
  pub handle : (r : wasi.OutgoingRequest) (w : wasi.World) → Sends watch w (wasi.handle r w)
  pub drop_pollable : (p : wasi.Pollable) → Sets watch (wasi.drop_pollable p) same
  pub drop_output_stream : (s : wasi.OutputStream) → Sets watch (wasi.drop_output_stream s) same
  pub try_get : (f : wasi.FutureResponse) → Sets watch (wasi.try_get f) same
  pub subscribe_future : (f : wasi.FutureResponse) → Sets watch (wasi.subscribe_future f) same
  pub arrives :
      (f : wasi.FutureResponse) (u w : wasi.World)
      → (wasi.try_get f (wasi.block (wasi.subscribe_future f u).0 w).1).0 ≢ none
  pub status : (r : wasi.IncomingResponse) → Sets watch (wasi.status r) same
  pub headers : (r : wasi.IncomingResponse) → Sets watch (wasi.headers r) same
  pub entries : (h : wasi.Fields) → Sets watch (wasi.entries h) same
  pub drop_fields : (h : wasi.Fields) → Sets watch (wasi.drop_fields h) same
  pub drop_incoming : (r : wasi.IncomingResponse) → Sets watch (wasi.drop_incoming r) same
  pub drop_future : (f : wasi.FutureResponse) → Sets watch (wasi.drop_future f) same
  pub consume : (r : wasi.IncomingResponse) → Sets watch (wasi.consume r) same
  pub input_stream : (b : wasi.IncomingBody) → Sets watch (wasi.input_stream b) same
  pub subscribe_input : (s : wasi.InputStream) → Sets watch (wasi.subscribe_input s) same
  pub read : (s : wasi.InputStream) (n : ℕ) → Sets watch (wasi.read s n) same
  pub waits : (p : wasi.Pollable) (w : wasi.World) → watch.left (wasi.block p w).1 ≤ watch.left w
  pub reads :
      (s : wasi.InputStream) (n : ℕ) (w v : wasi.World) (chunk : Bytes)
      → wasi.read s n w ≡ (ok chunk, v)
      → watch.left v < watch.left w
