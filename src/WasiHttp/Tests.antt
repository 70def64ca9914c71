-- ===== src/WasiHttp/Tests.antt =====
-- A URL of a local server, and requests to it.
use acme_wasm.Prelude.{strip_prefix, ◌≡◌, refl, true, false, some, [], ◌∷◌, ◌++◌, arith, text, ok}
use acme_wasm.WasiHttp.{http, parse_url}
use acme_wasm.WasiHttp.Laws.{prefix_of, parse_url-append}
use acme_wasm.Core.Program.{done}
use acme_wasm.Core.Program.Triples.{Ends}
use acme_wasm.WasiHttp.Host.{post}
use acme_wasm.WasiHttp.Client.{JoseBody, read_loop, round_trip}
use acme_wasm.WasiHttp.Watch.{blank}
use acme_wasm.WasiHttp.Sent.{request_of}
use acme_wasm.WasiHttp.Draws.{AtMost}
use acme_wasm.WasiHttp.RoundTrip.{round_trip-Sent}
use acme_wasm.WasiHttp.Reads.{nothing_left, a_chunk, read_loop-Delivers}
use acme_wasm.WasiHttp.Sample.{Sim, sim, watch, left_bounded, sim-Faithful}

parse_url-append_example :
    (parse_url (prefix_of http ++ (text "localhost:14000" ++ b'/' ∷ text "dir"))
      ≡ ok (http, text "localhost:14000", b'/' ∷ text "dir"))
    × (parse_url (prefix_of http ++ text "localhost:14000")
        ≡ ok (http, text "localhost:14000", text "/"))
unfolding text
parse_url-append_example = parse_url-append http (text "localhost:14000") (text "dir") refl refl

abbrev body : JoseBody
body = record { content_type = text "application/jose+json"; bytes = text "signed" }

abbrev idle : Sim
idle = record { draft = blank; sent = []; pending = false }

abbrev ready : Sim
ready = record { draft = blank; sent = []; pending = true }

new_order : parse_url (text "http://ca/new-order") ≡ ok (http, text "ca", text "/new-order")
unfolding parse_url text strip_prefix
new_order = refl

round_trip-Sent_example :
    Ends ⊥
      (λ response v.
        watch.sent v ≡ request_of post (http, text "ca", text "/new-order") (some body) ∷ [])
      (AtMost sim watch [] (request_of post (http, text "ca", text "/new-order") (some body)))
      (round_trip sim 9 post (text "http://ca/new-order") (some body) idle)
unfolding text
round_trip-Sent_example =
    round_trip-Sent sim watch 9 post (text "http://ca/new-order")
      (http, text "ca", text "/new-order") (some body) idle sim-Faithful left_bounded new_order
      (omega arith)

read_loop-Delivers_example :
    read_loop sim 9 tt tt [] ready ≡ done (text "hi" ++ []) (record ready { pending = false })
read_loop-Delivers_example =
    read_loop-Delivers sim tt tt (text "hi" ∷ []) 9 [] ready (record ready { pending = false })
      (a_chunk (text "hi") [] ready (record ready { pending = false })
        (record ready { pending = false }) refl
        (nothing_left (record ready { pending = false }) (record ready { pending = false }) refl))
      (omega arith)
