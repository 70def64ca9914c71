-- ===== src/Harness/HttpServer/Threads.antt =====
-- The HTTP-01 responder of crates/testing/src/http_server.rs with its threads: what a probe is
-- answered, however connections and the caller's edits interleave.
use acme_wasm.Prelude.{
  ◌≡◌, ap, ◌∙◌, ◌≢◌, true, false, not, Option, none, some, ◌++◌, map, any, All, Bytes, Text, text,
}
use acme_wasm.Harness.Accept.{Server, Run}
use acme_wasm.Harness.Accept.Laws.{Run-Kept}
use acme_wasm.Harness.HttpServer.{
  TokenMap, lookup, insert, remove, write_response, not_found, look_up, drain, handle_connection,
}
use acme_wasm.Harness.HttpServer.Words.{split_lines, visible}
use acme_wasm.Harness.HttpServer.Entries.{lookup-insert-other, lookup-remove-other}
use acme_wasm.Harness.HttpServer.Laws.{probe, well_known, probe-token}

abbrev pub HttpServer : Type 0
HttpServer = Server TokenMap Bytes (Option Bytes)

-- `Http01Server::insert` and `Http01Server::remove`, of tokens other than this one
pub data Edit (token : Text) (map : TokenMap) : TokenMap → Type 0 where
  inserts : (other body : Text) → token ≢ other → Edit token map (insert other body map)
  removes : (other : Text) → token ≢ other → Edit token map (remove other map)

Edit-lookup :
    (token : Text) (old new : TokenMap) → Edit token old new → lookup token new ≡ lookup token old
Edit-lookup token old _ (inserts other body apart) = lookup-insert-other token other body old apart
Edit-lookup token old _ (removes other apart) = lookup-remove-other token other old apart

-- What a token's probe is answered, by its entry.
abbrev pub reply_for : Option Text → Bytes
reply_for none = not_found
reply_for (some body) = write_response 200 (text "OK") body

-- A request for the token's path, with headers that can be read, has that answer.
abbrev pub Answers : Text → Option Text → Bytes × Option Bytes → Type 0
Answers token entry (request, response) =
    (rest : Bytes)
    → drain (split_lines rest) ≡ true
    → request ≡ probe (well_known ++ token) rest
    → response ≡ some (reply_for entry)

look_up-reply_for :
    (token : Text) (entry : Option Text) (map : TokenMap)
    → lookup token map ≡ entry
    → look_up (some token) map ≡ reply_for entry
unfolding look_up
look_up-reply_for token none map e =
    ap
      (λ o. elim o as (λ _. Bytes) [
        | some body ↦ write_response 200 (text "OK") body
        | none ↦ not_found
      ])
      e
look_up-reply_for token (some body) map e =
    ap
      (λ o. elim o as (λ _. Bytes) [
        | some body ↦ write_response 200 (text "OK") body
        | none ↦ not_found
      ])
      e

-- For a token of visible ASCII characters: while the caller edits other tokens' entries only, and
-- however the connections and the edits interleave, every probe of the token is answered by the
-- entry that it had at the beginning, 200 with its body, or 404 if there was none.
pub Run-Answers :
    (token : Text) (entry : Option Text) (server last : HttpServer)
    → any (λ c. not (visible c)) token ≡ false
    → Run handle_connection (Edit token) server last
    → lookup token server.shared ≡ entry
    → All (Answers token entry) server.served
    → (lookup token last.shared ≡ entry) × All (Answers token entry) last.served
Run-Answers token entry server last seen run found so_far =
    Run-Kept handle_connection (Edit token) (λ map. lookup token map ≡ entry) (Answers token entry)
      (λ old new edit e. Edit-lookup token old new edit ∙ e)
      (λ request map e rest drained asked.
        ap (λ r. handle_connection r map) asked
        ∙ probe-token token rest map seen drained
        ∙ ap some (look_up-reply_for token entry map e))
      server last run (found, so_far)
