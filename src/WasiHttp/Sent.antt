-- ===== src/WasiHttp/Sent.antt =====
-- A round trip of crates/http-client/src/lib.rs sends one request, and ends.
use acme_wasm.Prelude.{
  ℕ, ◌<◌, refl, ap, ◌∙◌, ◌≢◌, inl, inr, Option, none, some, List, [], ◌∷◌, ◌++◌, length, Text, text,
  Result, ok, err, map_err,
}
use acme_wasm.Core.Program.{out_of_fuel, attempt, pure}
use acme_wasm.Core.Program.Triples.{Ends, Triple, Triple-bind, Triple-attempt}
use acme_wasm.Core.Error.{AcmeError}
use acme_wasm.WasiHttp.{Scheme}
use acme_wasm.WasiHttp.Host.{Method, Reply, Wasi, run, returned, call}
use acme_wasm.WasiHttp.Client.{JoseBody, failed, refused, awaited, dispatch_and_read}
use acme_wasm.WasiHttp.Watch.{Draft, Watch, Drafted, Sends, Faithful}
use acme_wasm.WasiHttp.Draws.{Sent, AtMost, After, run-After}
use acme_wasm.WasiHttp.Received.{and_then-After, read_response-After}

-- The request for the parts of a URL.
abbrev pub request_of : Method → Scheme × Text × Text → Option JoseBody → Draft
request_of method (scheme, authority, path) none = record {
  method = method;
  scheme = some scheme;
  authority = some authority;
  path = some path;
  headers = (text "host", authority) ∷ [];
  body = [];
}
request_of method (scheme, authority, path) (some b) = record {
  method = method;
  scheme = some scheme;
  authority = some authority;
  path = some path;
  headers = (text "host", authority) ∷ (text "content-type", b.content_type) ∷ [];
  body = b.bytes;
}

abbrev pub body_length : Option JoseBody → ℕ
body_length none = 0
body_length (some b) = length b.bytes

module _ (wasi : Wasi) (watch : Watch wasi.World) (faithful : Faithful wasi watch) (s : List Draft)
    (final : Draft) where
  module _ (fuel : ℕ) (bounded : (w : wasi.World) → watch.left w < fuel) where
    on_again :
        (r : Option (Reply (Reply wasi.IncomingResponse Text) Unit))
        → r ≢ none
        → After wasi watch s final (elim r [ some r ↦ pure r | none ↦ λ w. out_of_fuel ])
    on_again (some r) there = record { at = λ w h. h }
    on_again none there = absurd (there refl)

    awaited-After :
        (future : wasi.FutureResponse)
        (first : Option (Reply (Reply wasi.IncomingResponse Text) Unit))
        → After wasi watch s final (awaited wasi future first)
    unfolding awaited
    awaited-After future (some r) = record { at = λ w h. h }
    awaited-After future none = record {
      at = λ w h.
          let p = (wasi.subscribe_future future w).0 in
          let v = (wasi.block p (wasi.subscribe_future future w).1).1 in
          (on_again (wasi.try_get future v).0
              (faithful.arrives future w (wasi.subscribe_future future w).1)).at
            (wasi.try_get future v).1
            (((faithful.try_get future).at v).sending
              ∙ ((faithful.block p).at (wasi.subscribe_future future w).1).sending
              ∙ ((faithful.subscribe_future future).at w).sending
              ∙ h);
    }

    attempt-After : {A : Type 0} (r : Result A AcmeError) → After wasi watch s final (attempt r)
    attempt-After r = Triple-attempt r (λ a w e h. h) λ w h. inr h

    on_handled :
        (w : wasi.World) (o : Reply wasi.FutureResponse Text × wasi.World)
        → Sends watch w o
        → Drafted watch s final w
        → Ends ⊥
            (λ _. Sent wasi watch s final)
            (AtMost wasi watch s final)
            (returned (failed (text "outgoing_handler::handle")) o)
    on_handled w (ok f, v) e h =
        e ∙ ap (λ d. watch.sent w ++ d ∷ []) h.drafting ∙ ap (λ l. l ++ final ∷ []) h.sending
    on_handled w (err x, v) e h = inl (e ∙ h.sending)

    pub dispatch_and_read-Triple :
        (request : wasi.OutgoingRequest)
        → Triple ⊥
            (Drafted watch s final)
            (λ _. Sent wasi watch s final)
            (AtMost wasi watch s final)
            (dispatch_and_read wasi fuel request)
    unfolding dispatch_and_read
    dispatch_and_read-Triple request =
        Triple-bind (call (failed (text "outgoing_handler::handle")) (wasi.handle request)) _
          (record {
            at = λ w h. on_handled w (wasi.handle request w) (faithful.handle request w) h;
          })
          λ future.
            Triple-bind (run (wasi.try_get future)) _
              (run-After wasi watch s final (wasi.try_get future) (faithful.try_get future))
              λ first.
                Triple-bind (awaited wasi future first) _ (awaited-After future first) λ taken.
                  Triple-bind _ _
                    (attempt-After
                      (map_err (refused (text "future-incoming-response already taken")) taken))
                    λ result.
                      Triple-bind _ _
                        (attempt-After (map_err (failed (text "response error")) result))
                        λ incoming.
                          and_then-After wasi watch faithful s final fuel bounded
                            (wasi.drop_future future) _ (faithful.drop_future future)
                            λ _.
                              read_response-After wasi watch faithful s final fuel bounded incoming
