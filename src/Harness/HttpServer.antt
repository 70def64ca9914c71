-- ===== src/Harness/HttpServer.antt =====
-- crates/testing/src/http_server.rs: one connection of the HTTP-01 responder, and its solver. The
-- world is the map of the server and whatever else there is.
pub mod Words
pub mod Entries
pub mod Threads
pub mod Laws
mod Tests
use acme_wasm.Prelude.{
  ℕ, ◌/◌, Bool, true, false, not, ◌&&◌, ◌||◌, Option, none, some, List, [], ◌∷◌, ◌++◌, map,
  if◌then◌else◌, length, drop, Bytes, Text, text, ◌is◌, strip_prefix, before, decimal, from_utf8,
  ok,
}
use acme_wasm.Core.Challenge.{ChallengeReady, ChallengeSolver}
use acme_wasm.Core.Records.Challenge.{http01}
use acme_wasm.Harness.HttpServer.Words.{split_whitespace, split_lines}

abbrev pub TokenMap : Type 0
TokenMap = List (Text × Text)

-- `HashMap::get`
unfoldable pub lookup : Text → TokenMap → Option Text
lookup token [] = none
lookup token ((k, v) ∷ map) = if k is token then some v else lookup token map

-- `HashMap::insert`, which replaces the value of a key
unfoldable pub insert : Text → Text → TokenMap → TokenMap
insert token body [] = (token, body) ∷ []
insert token body ((k, v) ∷ map) =
    let rest = insert token body map in if k is token then (token, body) ∷ map else (k, v) ∷ rest

-- `HashMap::remove`; a key occurs once
unfoldable pub remove : Text → TokenMap → TokenMap
remove token [] = []
remove token ((k, v) ∷ map) =
    let rest = remove token map in if k is token then rest else (k, v) ∷ rest

abbrev pub crlf : Text
crlf = 13 ∷ 10 ∷ []

-- The bytes that `write_response` writes.
unfoldable pub write_response : ℕ → Text → Bytes → Bytes
write_response status reason body =
    text "HTTP/1.1 "
    ++ decimal status
    ++ text " "
    ++ reason
    ++ crlf
    ++ text "Content-Type: application/octet-stream"
    ++ crlf
    ++ text "Content-Length: "
    ++ decimal (length body)
    ++ crlf
    ++ text "Connection: close"
    ++ crlf
    ++ crlf
    ++ body

abbrev pub not_found : Bytes
not_found = write_response 404 (text "Not Found") []

-- `next().unwrap_or("")`
abbrev next_word : List Text → Text × List Text
next_word [] = ([], [])
next_word (w ∷ ws) = (w, ws)

-- What is served for a path.
unfoldable pub look_up : Option Text → TokenMap → Bytes
unfolding write_response lookup
look_up none map = not_found
look_up (some token) map = elim (lookup token map) [
  | some body ↦ write_response 200 (text "OK") body
  | none ↦ not_found
]

-- The dispatch on the words of the request line.
unfoldable pub dispatch_words : List Text → TokenMap → Bytes
unfolding look_up write_response
dispatch_words words map =
    let (method, rest) = next_word words in
    let (path, _) = next_word rest in
    if not (method is text "GET")
    then write_response 405 (text "Method Not Allowed") []
    else look_up (strip_prefix (text "/.well-known/acme-challenge/") path) map

unfoldable pub dispatch : Text → TokenMap → Bytes
unfolding split_whitespace dispatch_words
dispatch request_line map = dispatch_words (split_whitespace request_line) map

-- `read_line` fails on a line that is not UTF-8.
abbrev readable : Bytes → Bool
readable line = elim (from_utf8 line) [ some s ↦ true | none ↦ false ]

-- The loop that drains the headers: whether all lines up to the empty one could be read.
unfoldable pub drain : List Bytes → Bool
drain [] = true
drain (header ∷ lines) =
    let rest = drain lines in
    if not (readable header)
    then false
    else if header is crlf || header is 10 ∷ []
    then true
    else rest

-- The connection, after its lines: the response, unless a line could not be read.
unfoldable pub respond_to : List Bytes → TokenMap → Option Bytes
unfolding drain dispatch
respond_to [] map = some (dispatch [] map)
respond_to (request_line ∷ lines) map =
    if readable request_line && drain lines then some (dispatch request_line map) else none

unfoldable pub handle_connection : Bytes → TokenMap → Option Bytes
unfolding split_lines respond_to
handle_connection request map = respond_to (split_lines request) map

module _ {V : Type 0} where
  -- `Http01Ready`
  abbrev pub http01_ready : Text → ChallengeReady (TokenMap × V)
  http01_ready token = record {
    self_check = λ w. (ok tt, w);
    drop = λ (map, v). (remove token map, v);
  }

  -- `Http01SolverAdapter`
  abbrev pub http01_solver : ChallengeSolver (TokenMap × V)
  http01_solver = record {
    kind = http01;
    arm = λ identifier key_authorization (map, v).
        let token = before b'.' key_authorization in
        (ok (http01_ready token), (insert token key_authorization map, v));
  }
