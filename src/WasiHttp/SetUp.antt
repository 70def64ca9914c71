-- ===== src/WasiHttp/SetUp.antt =====
-- The request of a round trip of crates/http-client/src/lib.rs, from its fields to its body.
use mathlib.Core.Path
use acme_wasm.Prelude.{ℕ, ◌<◌, ◌≡◌, refl, ◌∙◌, Option, none, some, List, Text, text}
use acme_wasm.Core.Program.{◌>>=◌, ◌>>◌}
use acme_wasm.Core.Program.Triples.{Triple, Triple-bind}
use acme_wasm.WasiHttp.{Scheme}
use acme_wasm.WasiHttp.Host.{Method, Act, Reply, Wasi, run, call}
use acme_wasm.WasiHttp.Client.{
  JoseBody, failed, refused, dispatch_and_read, append_content_type, write_body,
}
use acme_wasm.WasiHttp.Watch.{
  Draft, blank, Watch, Drafted, Effect, same, with_header, with_body, Faithful,
}
use acme_wasm.WasiHttp.Draws.{Sent, AtMost, Draws, call-Draws}
use acme_wasm.WasiHttp.Requests.{write_all-Draws}
use acme_wasm.WasiHttp.Sent.{request_of, body_length, dispatch_and_read-Triple}

-- The draft when the header of the body is there, and when the body is.
abbrev pub headed : Option JoseBody → Draft → Draft
headed none d = d
headed (some b) d = with_header (text "content-type") b.content_type d

abbrev pub filled : Option JoseBody → Draft → Draft
filled none d = d
filled (some b) d = with_body b.bytes d

abbrev pub addressed : Method → Scheme × Text × Text → Draft → Draft
addressed method (scheme, authority, path) d = record d {
  method = method;
  scheme = some scheme;
  authority = some authority;
  path = some path;
}

abbrev pub hosted : Scheme × Text × Text → Draft
hosted parts = with_header (text "host") parts.1 blank

abbrev pub drafted : Method → Scheme × Text × Text → Option JoseBody → Draft
drafted method parts body = filled body (addressed method parts (headed body (hosted parts)))

pub drafted_lem :
    (method : Method) (parts : Scheme × Text × Text) (body : Option JoseBody)
    → drafted method parts body ≡ request_of method parts body
drafted_lem method parts none = refl
drafted_lem method parts (some b) = refl

module _ (wasi : Wasi) (watch : Watch wasi.World) (faithful : Faithful wasi watch) (fuel : ℕ)
    (bounded : (w : wasi.World) → watch.left w < fuel) (s : List Draft) (final : Draft) where
  pub append_content_type-Draws :
      (h : wasi.Fields) (body : Option JoseBody) (d : Draft)
      → Draws wasi watch s final d (headed body d) (append_content_type wasi h body)
  unfolding append_content_type
  append_content_type-Draws h none d = record { at = λ w x. x }
  append_content_type-Draws h (some b) d =
      call-Draws wasi watch s final (failed (text "append content-type"))
        (wasi.append h (text "content-type") b.content_type)
        (with_header (text "content-type") b.content_type) d
        (faithful.append h (text "content-type") b.content_type)

  write_body-Draws :
      (outgoing_body : wasi.OutgoingBody) (body : Option JoseBody) (d : Draft)
      → body_length body < fuel
      → Draws wasi watch s final d (filled body d) (write_body wasi fuel outgoing_body body)
  unfolding write_body
  write_body-Draws outgoing_body none d enough = record { at = λ w x. x }
  write_body-Draws outgoing_body (some b) d enough =
      write_all-Draws wasi watch faithful s final fuel outgoing_body d b.bytes enough

  pub new_fields-Triple :
      Triple ⊥
        (λ w. watch.sent w ≡ s)
        (λ _. Drafted watch s blank)
        (AtMost wasi watch s final)
        (run wasi.new_fields)
  new_fields-Triple = record {
    at = λ w h. record {
      drafting = (faithful.new_fields.at w).drafting;
      sending = (faithful.new_fields.at w).sending ∙ h;
    };
  }

  module _ (method : Method) (parts : Scheme × Text × Text) (body : Option JoseBody)
      (enough : body_length body < fuel) (is_final : drafted method parts body ≡ final) where
    -- The request is filled and handed over.
    filled-Triple :
        (request : wasi.OutgoingRequest) (outgoing_body : wasi.OutgoingBody)
        → Triple ⊥
            (Drafted watch s (addressed method parts (headed body (hosted parts))))
            (λ _. Sent wasi watch s final)
            (AtMost wasi watch s final)
            (write_body wasi fuel outgoing_body body
              >> (call (failed (text "finish outgoing body")) (wasi.finish outgoing_body)
                  >> dispatch_and_read wasi fuel request))
    filled-Triple request outgoing_body =
        Triple-bind (write_body wasi fuel outgoing_body body) _
          (write_body-Draws outgoing_body body (addressed method parts (headed body (hosted parts)))
            enough)
          λ _.
            Triple-bind (call (failed (text "finish outgoing body")) (wasi.finish outgoing_body)) _
              (call-Draws wasi watch s final (failed (text "finish outgoing body"))
                (wasi.finish outgoing_body) same (drafted method parts body)
                (faithful.finish outgoing_body))
              λ _.
                Path.subst⁻¹
                  (λ d.
                    Triple ⊥ (Drafted watch s d) (λ _. Sent wasi watch s final)
                      (AtMost wasi watch s final) (dispatch_and_read wasi fuel request))
                  is_final
                  (dispatch_and_read-Triple wasi watch faithful s final fuel bounded request)

    setter-Draws :
        (what : Text) (act : Act wasi.World (Reply Unit Unit)) (f : Draft → Draft) (d : Draft)
        → Effect watch act f
        → Draws wasi watch s final d (f d) (call (refused what) act)
    setter-Draws what act f d effect = call-Draws wasi watch s final (refused what) act f d effect

    pub set_up-Triple :
        (request : wasi.OutgoingRequest)
        → Triple ⊥
            (Drafted watch s (headed body (hosted parts)))
            (λ _. Sent wasi watch s final)
            (AtMost wasi watch s final)
            (call
                (refused (text "wasi:http set_method rejected value"))
                (wasi.set_method request method)
              >> (call
                    (refused (text "wasi:http set_scheme rejected value"))
                    (wasi.set_scheme request (some parts.0))
                  >> (call
                        (refused (text "wasi:http set_authority rejected value"))
                        (wasi.set_authority request (some parts.1))
                      >> (call
                            (refused (text "wasi:http set_path_with_query rejected value"))
                            (wasi.set_path_with_query request (some parts.2))
                          >> (call
                                (refused (text "outgoing-request body already taken"))
                                (wasi.body request)
                              >>= λ outgoing_body.
                                  (write_body wasi fuel outgoing_body body
                                    >> (call
                                          (failed (text "finish outgoing body"))
                                          (wasi.finish outgoing_body)
                                        >> dispatch_and_read wasi fuel request)))))))
    set_up-Triple request =
        Triple-bind _ _
          (setter-Draws (text "wasi:http set_method rejected value")
            (wasi.set_method request method) (λ d. record d { method = method })
            (headed body (hosted parts)) (faithful.set_method request method))
          λ _.
            Triple-bind _ _
              (setter-Draws (text "wasi:http set_scheme rejected value")
                (wasi.set_scheme request (some parts.0)) (λ d. record d { scheme = some parts.0 })
                (record (headed body (hosted parts)) { method = method })
                (faithful.set_scheme request (some parts.0)))
              λ _.
                Triple-bind _ _
                  (setter-Draws (text "wasi:http set_authority rejected value")
                    (wasi.set_authority request (some parts.1))
                    (λ d. record d { authority = some parts.1 })
                    (record (headed body (hosted parts)) { method = method; scheme = some parts.0 })
                    (faithful.set_authority request (some parts.1)))
                  λ _.
                    Triple-bind _ _
                      (setter-Draws (text "wasi:http set_path_with_query rejected value")
                        (wasi.set_path_with_query request (some parts.2))
                        (λ d. record d { path = some parts.2 })
                        (record (headed body (hosted parts)) {
                          method = method;
                          scheme = some parts.0;
                          authority = some parts.1;
                        })
                        (faithful.set_path_with_query request (some parts.2)))
                      λ _.
                        Triple-bind _ _
                          (call-Draws wasi watch s final
                            (refused (text "outgoing-request body already taken"))
                            (wasi.body request) same
                            (addressed method parts (headed body (hosted parts)))
                            (faithful.body request))
                          λ outgoing_body. filled-Triple request outgoing_body
