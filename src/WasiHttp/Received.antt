-- ===== src/WasiHttp/Received.antt =====
-- After the request of crates/http-client/src/lib.rs was sent, its response is read to the end.
use acme_wasm.Prelude.{
  ℕ, zero, suc, ◌*◌, ◌<◌, ◌≡◌, refl, ap, ◌∙◌, inr, Option, none, some, List, [], ◌++◌, map, arith,
  Bytes, Text, text, ok, err,
}
use acme_wasm.Core.Program.{attempt, pure, ◌>>=◌, Step}
use acme_wasm.Core.Program.Triples.{Ends, Triple, Ends-continue, Triple-bind}
use acme_wasm.Core.Transport.{HttpResponse}
use acme_wasm.WasiHttp.Host.{
  StreamError, last_operation_failed, closed, Act, Reply, Wasi, run, call,
}
use acme_wasm.WasiHttp.Client.{refused, decoded, chunk_or, read_loop, read_response}
use acme_wasm.WasiHttp.Watch.{Draft, Watch, Sets, same, Faithful}
use acme_wasm.WasiHttp.Draws.{Sent, AtMost, After, run-After, call-After}

abbrev response_of : ℕ → List (Text × Text) → Bytes → HttpResponse
response_of status headers body = record { status = status; headers = headers; body = body }

module _ (wasi : Wasi) (watch : Watch wasi.World) (faithful : Faithful wasi watch) (s : List Draft)
    (final : Draft) where
  -- Sent, with fewer chunks left than the fuel.
  abbrev Reading : ℕ → wasi.World → Type 0
  Reading fuel w = Sent wasi watch s final w × (watch.left w < fuel)

  abbrev Chunk : ℕ → Option Bytes → wasi.World → Type 0
  Chunk fuel none w = Sent wasi watch s final w
  Chunk fuel (some b) w = Reading fuel w

  on_read :
      (fuel : ℕ) (w : wasi.World) (o : Reply Bytes StreamError × wasi.World)
      → ((chunk : Bytes) → o.0 ≡ ok chunk → watch.left o.1 < fuel)
      → Sent wasi watch s final o.1
      → Ends ⊥ (Chunk fuel) (AtMost wasi watch s final) (attempt (chunk_or wasi o.0) o.1)
  on_read fuel w (ok chunk, v) less h = (h, less chunk refl)
  on_read fuel w (err closed, v) less h = h
  on_read fuel w (err (last_operation_failed x), v) less h = inr h

  on_Chunk :
      (fuel : ℕ) (stream : wasi.InputStream) (p : wasi.Pollable) (body : Bytes)
      (chunk : Option Bytes)
      → ((bytes : Bytes)
          → Triple ⊥
              (Reading fuel)
              (λ _. Sent wasi watch s final)
              (AtMost wasi watch s final)
              (read_loop wasi fuel stream p (body ++ bytes)))
      → Triple ⊥
          (Chunk fuel chunk)
          (λ _. Sent wasi watch s final)
          (AtMost wasi watch s final)
          (elim chunk [
            | some bytes ↦ read_loop wasi fuel stream p (body ++ bytes)
            | none ↦ pure body
          ])
  on_Chunk fuel stream p body none again = record { at = λ w h. h }
  on_Chunk fuel stream p body (some bytes) again = again bytes

  read_loop-After :
      (fuel : ℕ) (stream : wasi.InputStream) (p : wasi.Pollable) (body : Bytes)
      → Triple ⊥
          (Reading fuel)
          (λ _. Sent wasi watch s final)
          (AtMost wasi watch s final)
          (read_loop wasi fuel stream p body)
  unfolding read_loop
  read_loop-After zero stream p body = record { at = λ w h. absurd (omega (arith, h.1)) }
  read_loop-After (suc fuel) stream p body = record {
    at = λ w h.
        let v = (wasi.block p w).1 in
        let o = wasi.read stream (64 * 1024) v in
        Ends-continue (attempt (chunk_or wasi o.0) o.1) _
          (on_read fuel v o
            (λ chunk e. omega (
              arith,
              h.1,
              faithful.waits p w,
              faithful.reads stream (64 * 1024) v o.1 chunk (ap (λ r. (r, o.1)) e),
            ))
            (((faithful.read stream (64 * 1024)).at v).sending
              ∙ ((faithful.block p).at w).sending
              ∙ h.0))
          λ chunk.
            on_Chunk fuel stream p body chunk
              λ bytes. read_loop-After fuel stream p (body ++ bytes);
  }

  module _ (fuel : ℕ) (bounded : (w : wasi.World) → watch.left w < fuel) where
    pub and_then-After :
        {A B : Type 0} (act : Act wasi.World A) (f : A → Step wasi.World B)
        → Sets watch act same
        → ((a : A) → After wasi watch s final (f a))
        → After wasi watch s final (run act >>= f)
    and_then-After act f sets k = Triple-bind (run act) f (run-After wasi watch s final act sets) k

    -- The part of `read_response` that reads the body.
    read_body-After :
        (status : ℕ) (headers : List (Text × Text)) (incoming_body : wasi.IncomingBody)
        → After wasi watch s final (
            call
              (refused (text "incoming body stream already taken"))
              (wasi.input_stream incoming_body)
            >>= λ stream. run (wasi.subscribe_input stream) >>= λ pollable.
                read_loop wasi fuel stream pollable [] >>= λ body.
                pure (response_of status headers body))
    read_body-After status headers incoming_body =
        Triple-bind _ _
          (call-After wasi watch s final (refused (text "incoming body stream already taken"))
            (wasi.input_stream incoming_body) (faithful.input_stream incoming_body))
          λ stream.
            and_then-After (wasi.subscribe_input stream) _ (faithful.subscribe_input stream)
              λ pollable.
                Triple-bind (read_loop wasi fuel stream pollable [])
                  (λ body. pure (response_of status headers body))
                  (record {
                    at = λ w h. (read_loop-After fuel stream pollable []).at w (h, bounded w);
                  })
                  λ body. record { at = λ w h. h }

    pub read_response-After :
        (incoming : wasi.IncomingResponse)
        → After wasi watch s final (read_response wasi fuel incoming)
    unfolding read_response
    read_response-After incoming =
        and_then-After (wasi.status incoming) _ (faithful.status incoming) λ status.
          and_then-After (wasi.headers incoming) _ (faithful.headers incoming) λ headers_handle.
            and_then-After (wasi.entries headers_handle) _ (faithful.entries headers_handle)
              λ raw_headers.
                and_then-After (wasi.drop_fields headers_handle) _
                  (faithful.drop_fields headers_handle)
                  λ _.
                    Triple-bind _ _
                      (call-After wasi watch s final
                        (refused (text "incoming response body already consumed"))
                        (wasi.consume incoming) (faithful.consume incoming))
                      λ incoming_body.
                        and_then-After (wasi.drop_incoming incoming) _
                          (faithful.drop_incoming incoming)
                          λ _. read_body-After status (map decoded raw_headers) incoming_body
