-- ===== src/WasiHttp/RoundTrip.antt =====
-- The whole round trip of crates/http-client/src/lib.rs.
use acme_wasm.Prelude.{
  ℕ, ◌<◌, ◌≡◌, refl, sym, ap, ◌∙◌, inl, Option, some, List, [], ◌∷◌, ◌++◌, Text, text, ok, ok_inj,
}
use acme_wasm.Core.Program.{attempt, ◌>>=◌, ◌>>◌}
use acme_wasm.Core.Program.Triples.{Ends, Triple, Triple-bind, Triple-attempt}
use acme_wasm.WasiHttp.{Scheme, parse_url}
use acme_wasm.WasiHttp.Host.{Method, Wasi, run, call}
use acme_wasm.WasiHttp.Client.{
  JoseBody, failed, refused, dispatch_and_read, append_content_type, write_body, round_trip,
}
use acme_wasm.WasiHttp.Watch.{Draft, blank, Watch, same, with_header, Faithful}
use acme_wasm.WasiHttp.Draws.{Sent, AtMost, run-Draws, call-Draws}
use acme_wasm.WasiHttp.Sent.{request_of, body_length}
use acme_wasm.WasiHttp.SetUp.{
  headed, hosted, drafted, drafted_lem, append_content_type-Draws, new_fields-Triple, set_up-Triple,
}

module _ (wasi : Wasi) (watch : Watch wasi.World) (faithful : Faithful wasi watch) (fuel : ℕ)
    (bounded : (w : wasi.World) → watch.left w < fuel) (s : List Draft) (final : Draft) where
  module _ (method : Method) (parts : Scheme × Text × Text) (body : Option JoseBody)
      (enough : body_length body < fuel) (is_final : drafted method parts body ≡ final) where
    -- What follows the split of the URL.
    after_parse-Triple :
        Triple ⊥
          (λ w. watch.sent w ≡ s)
          (λ _. Sent wasi watch s final)
          (AtMost wasi watch s final)
          (run wasi.new_fields >>= λ headers.
            (call (failed (text "append host header")) (wasi.append headers (text "host") parts.1)
              >> (append_content_type wasi headers body
                  >> (run (wasi.new_request headers) >>= λ request.
                      (call
                          (refused (text "wasi:http set_method rejected value"))
                          (wasi.set_method request method)
                        >> (call
                              (refused (text "wasi:http set_scheme rejected value"))
                              (wasi.set_scheme request (some parts.0))
                            >> (call
                                  (refused (text "wasi:http set_authority rejected value"))
                                  (wasi.set_authority request (some parts.1))
                                >> (call
                                      (refused
                                        (text "wasi:http set_path_with_query rejected value"))
                                      (wasi.set_path_with_query request (some parts.2))
                                    >> (call
                                          (refused (text "outgoing-request body already taken"))
                                          (wasi.body request)
                                        >>= λ outgoing_body.
                                            (write_body wasi fuel outgoing_body body
                                              >> (call
                                                    (failed (text "finish outgoing body"))
                                                    (wasi.finish outgoing_body)
                                                  >> dispatch_and_read wasi fuel request)))))))))))
    after_parse-Triple =
        Triple-bind (run wasi.new_fields) _
          (new_fields-Triple wasi watch faithful fuel bounded s final)
          λ headers.
            Triple-bind _ _
              (call-Draws wasi watch s final (failed (text "append host header"))
                (wasi.append headers (text "host") parts.1) (with_header (text "host") parts.1)
                blank (faithful.append headers (text "host") parts.1))
              λ _.
                Triple-bind (append_content_type wasi headers body) _
                  (append_content_type-Draws wasi watch faithful fuel bounded s final headers body
                    (hosted parts))
                  λ _.
                    Triple-bind (run (wasi.new_request headers)) _
                      (run-Draws wasi watch s final (wasi.new_request headers) same
                        (headed body (hosted parts)) (faithful.new_request headers))
                      λ request.
                        set_up-Triple wasi watch faithful fuel bounded s final method parts body
                          enough is_final request

  round_trip-Triple :
      (method : Method) (url : Text) (parts : Scheme × Text × Text) (body : Option JoseBody)
      → parse_url url ≡ ok parts
      → body_length body < fuel
      → request_of method parts body ≡ final
      → Triple ⊥
          (λ w. watch.sent w ≡ s)
          (λ _. Sent wasi watch s final)
          (AtMost wasi watch s final)
          (round_trip wasi fuel method url body)
  unfolding round_trip
  round_trip-Triple method url parts body parsed enough is_final =
      Triple-bind (attempt (parse_url url)) _
        (Triple-attempt {Q = λ p w. (p ≡ parts) × (watch.sent w ≡ s)} (parse_url url)
          (λ p w e h. (ok_inj (sym e ∙ parsed), h)) λ w h. inl h)
        λ p. record {
          at = λ w h.
              (after_parse-Triple method p body enough (
                  ap (λ q. drafted method q body) h.0
                  ∙ drafted_lem method parts body
                  ∙ is_final)).at
                w h.1;
        }

-- If the host does what the interfaces document, and each response comes in fewer chunks than the
-- fuel, which also exceeds the length of the body, then a round trip to a URL that parses ends: when
-- it returns a response, exactly one request was sent, with the method, the URL's scheme, authority
-- and path, the `host` header, the content type of the body if there is one, and all bytes of the
-- body in order; when it fails, that request or none was sent.
pub round_trip-Sent :
    (wasi : Wasi) (watch : Watch wasi.World) (fuel : ℕ) (method : Method) (url : Text)
    (parts : Scheme × Text × Text) (body : Option JoseBody) (w : wasi.World)
    → Faithful wasi watch
    → ((v : wasi.World) → watch.left v < fuel)
    → parse_url url ≡ ok parts
    → body_length body < fuel
    → Ends ⊥
        (λ response v. watch.sent v ≡ watch.sent w ++ request_of method parts body ∷ [])
        (AtMost wasi watch (watch.sent w) (request_of method parts body))
        (round_trip wasi fuel method url body w)
round_trip-Sent wasi watch fuel method url parts body w faithful bounded parsed enough =
    (round_trip-Triple wasi watch faithful fuel bounded (watch.sent w)
        (request_of method parts body) method url parts body parsed enough refl).at
      w refl
