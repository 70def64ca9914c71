-- ===== src/WasiHttp/Client.antt =====
-- crates/http-client/src/lib.rs: one round trip over `wasi:http`. The calls of `drop` are in it; the
-- handles that go out of scope on a return are closed by the host, which the model leaves out.
use acme_wasm.Prelude.{
  ℕ, zero, suc, ◌*◌, min, Option, none, some, [], ◌++◌, map, ◌==◌, if◌then◌else◌, length, take,
  drop, is_empty, Bytes, Text, text, from_utf8_lossy, Result, ok, err, map_err,
}
use acme_wasm.Core.Error.{AcmeError, transport}
use acme_wasm.Core.Transport.{HttpResponse}
use acme_wasm.Core.Program.{out_of_fuel, Step, pure, attempt, ◌>>=◌, ◌>>◌}
use acme_wasm.WasiHttp.{parse_url}
use acme_wasm.WasiHttp.Host.{Reply, Method, get, head, post, StreamError, closed, Wasi, run, call}

-- `JoseBody`
pub record JoseBody : Type 0 where
  pub content_type : Text
  pub bytes : Bytes

abbrev pub failed : Text → Text → AcmeError
failed what e = transport (what ++ text ": " ++ e)

abbrev pub refused : Text → Unit {0} → AcmeError
refused what _ = transport what

-- `http_response`, whose header values are read with `from_utf8_lossy`
abbrev pub decoded : Text × Bytes → Text × Text
decoded (name, value) = (name, from_utf8_lossy value)

module _ (wasi : Wasi) where
  abbrev pub stream_failed : Text → StreamError → AcmeError
  stream_failed what e = failed what (wasi.debug_stream_error e)

  -- The loop of `write_all`: the fuel bounds its rounds.
  unfoldable pub write_loop : ℕ → wasi.OutputStream → wasi.Pollable → Bytes → Step wasi.World Unit
  write_loop zero stream pollable bytes = λ w. out_of_fuel
  write_loop (suc fuel) stream pollable bytes = if is_empty bytes then pure tt else do
    run (wasi.block pollable)
    permit ← call (stream_failed (text "check_write")) (wasi.check_write stream)
    if permit == 0 then write_loop fuel stream pollable bytes else do
      call (stream_failed (text "write"))
          (wasi.write stream (take (min (length bytes) permit) bytes))
      write_loop fuel stream pollable (drop (min (length bytes) permit) bytes)

  unfoldable pub write_all : ℕ → wasi.OutgoingBody → Bytes → Step wasi.World Unit
  unfolding write_loop
  write_all fuel outgoing_body bytes = if is_empty bytes then pure tt else do
    stream ←
        call (refused (text "outgoing body stream already taken"))
          (wasi.output_stream outgoing_body)
    pollable ← run (wasi.subscribe_output stream)
    write_loop fuel stream pollable bytes
    call (stream_failed (text "flush")) (wasi.flush stream)
    run (wasi.block pollable)
    run (wasi.drop_pollable pollable)
    run (wasi.drop_output_stream stream)

  -- A read of the body: a chunk, the end, or an error.
  abbrev pub chunk_or : Result Bytes StreamError → Result (Option Bytes) AcmeError
  chunk_or (ok chunk) = ok (some chunk)
  chunk_or (err closed) = ok none
  chunk_or (err e) = err (stream_failed (text "body read") e)

  -- The loop of `read_response`.
  unfoldable pub read_loop : ℕ → wasi.InputStream → wasi.Pollable → Bytes → Step wasi.World Bytes
  read_loop zero stream pollable body = λ w. out_of_fuel
  read_loop (suc fuel) stream pollable body = do
    run (wasi.block pollable)
    result ← run (wasi.read stream (64 * 1024))
    chunk ← attempt (chunk_or result)
    elim chunk [ some bytes ↦ read_loop fuel stream pollable (body ++ bytes) | none ↦ pure body ]

  unfoldable pub read_response : ℕ → wasi.IncomingResponse → Step wasi.World HttpResponse
  unfolding read_loop
  read_response fuel incoming = do
    status ← run (wasi.status incoming)
    headers_handle ← run (wasi.headers incoming)
    raw_headers ← run (wasi.entries headers_handle)
    run (wasi.drop_fields headers_handle)
    incoming_body ←
        call (refused (text "incoming response body already consumed")) (wasi.consume incoming)
    run (wasi.drop_incoming incoming)
    stream ←
        call (refused (text "incoming body stream already taken")) (wasi.input_stream incoming_body)
    pollable ← run (wasi.subscribe_input stream)
    body ← read_loop fuel stream pollable []
    pure (record { status = status; headers = map decoded raw_headers; body = body })

  -- `get` on the future, after a wait if it is not ready. The `expect` on a future that is not ready
  -- after the wait has no result.
  unfoldable pub awaited :
      wasi.FutureResponse
      → Option (Reply (Reply wasi.IncomingResponse Text) Unit)
      → Step wasi.World (Reply (Reply wasi.IncomingResponse Text) Unit)
  awaited future (some r) = pure r
  awaited future none = do
    pollable ← run (wasi.subscribe_future future)
    run (wasi.block pollable)
    again ← run (wasi.try_get future)
    elim again [ some r ↦ pure r | none ↦ λ w. out_of_fuel ]

  unfoldable pub dispatch_and_read : ℕ → wasi.OutgoingRequest → Step wasi.World HttpResponse
  unfolding awaited read_response
  dispatch_and_read fuel request = do
    future ← call (failed (text "outgoing_handler::handle")) (wasi.handle request)
    first ← run (wasi.try_get future)
    taken ← awaited future first
    result ← attempt (map_err (refused (text "future-incoming-response already taken")) taken)
    incoming ← attempt (map_err (failed (text "response error")) result)
    run (wasi.drop_future future)
    read_response fuel incoming

  -- The header of a body.
  unfoldable pub append_content_type : wasi.Fields → Option JoseBody → Step wasi.World Unit
  append_content_type headers none = pure tt
  append_content_type headers (some b) =
      call (failed (text "append content-type"))
        (wasi.append headers (text "content-type") b.content_type)

  unfoldable pub write_body : ℕ → wasi.OutgoingBody → Option JoseBody → Step wasi.World Unit
  unfolding write_all
  write_body fuel outgoing_body none = pure tt
  write_body fuel outgoing_body (some b) = write_all fuel outgoing_body b.bytes

  unfoldable pub round_trip : ℕ → Method → Text → Option JoseBody → Step wasi.World HttpResponse
  unfolding append_content_type write_body dispatch_and_read
  round_trip fuel method url body = do
    (scheme, authority, path_with_query) ← attempt (parse_url url)
    headers ← run wasi.new_fields
    call (failed (text "append host header")) (wasi.append headers (text "host") authority)
    append_content_type headers body
    request ← run (wasi.new_request headers)
    call (refused (text "wasi:http set_method rejected value")) (wasi.set_method request method)
    call (refused (text "wasi:http set_scheme rejected value"))
        (wasi.set_scheme request (some scheme))
    call (refused (text "wasi:http set_authority rejected value"))
        (wasi.set_authority request (some authority))
    call (refused (text "wasi:http set_path_with_query rejected value"))
        (wasi.set_path_with_query request (some path_with_query))
    outgoing_body ← call (refused (text "outgoing-request body already taken")) (wasi.body request)
    write_body fuel outgoing_body body
    call (failed (text "finish outgoing body")) (wasi.finish outgoing_body)
    dispatch_and_read fuel request

  -- `WasiHttpClient`
  unfoldable pub head_request : ℕ → Text → Step wasi.World HttpResponse
  unfolding round_trip
  head_request fuel url = round_trip fuel head url none

  unfoldable pub get_request : ℕ → Text → Step wasi.World HttpResponse
  unfolding round_trip
  get_request fuel url = round_trip fuel get url none

  unfoldable pub post_jose : ℕ → Text → Bytes → Step wasi.World HttpResponse
  unfolding round_trip
  post_jose fuel url body =
      round_trip fuel post url
        (some (record { content_type = text "application/jose+json"; bytes = body }))
