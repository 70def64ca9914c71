-- ===== src/Harness/HttpServer/Tests.antt =====
-- A probe of the sample account's challenge.
use mathlib.Core.List.{Perm}
use acme_wasm.Prelude.{
  is_iff, ℕ, ◌≡◌, refl, ◌≢◌, true, some, [], ◌∷◌, ◌++◌, All, Bytes, Text, text, ◌is◌, from_utf8,
}
use acme_wasm.Http01.{respond}
use acme_wasm.Harness.Accept.{
  connection, spawned, bound, Incoming, ended, load_flag, spawn_one, drop_server, loads, spawns,
  changes, handles, Run, ends, then_run,
}
use acme_wasm.Harness.Accept.Laws.{requests, held_or_taken, Run-drop_server}
use acme_wasm.Harness.HttpServer.{TokenMap, drain, insert, lookup, handle_connection}
use acme_wasm.Harness.HttpServer.Threads.{HttpServer, Edit, inserts, Answers, Run-Answers}
use acme_wasm.Harness.HttpServer.Words.{split_lines}
use acme_wasm.Harness.HttpServer.Laws.{Serves, respond-Serves, probe, well_known}
use acme_wasm.Core.Records.Order.{Identifier}
use acme_wasm.Core.Sample.{crates, account_key}

abbrev host : Text
host = text "Host: x" ++ 13 ∷ 10 ∷ 13 ∷ 10 ∷ []

abbrev others : TokenMap
others = (text "other", text "other.thumb") ∷ []

abbrev world : TokenMap × ℕ
world = (others, 5)

abbrev identifier : Identifier
identifier = record { kind = text "dns"; value = text "example.org" }

drained : drain (split_lines host) ≡ true
unfolding drain split_lines from_utf8 text ◌is◌
drained = refl

respond-Serves_example :
    Serves identifier
      (text "tok-1")
      (respond crates (text "tok-1") account_key).path
      (respond crates (text "tok-1") account_key).body
      host
      world
unfolding text
respond-Serves_example =
    respond-Serves crates (text "tok-1") account_key identifier host world refl refl drained

-- The probe of a token that is armed, over another one that is not.
abbrev asked : Bytes
asked = probe (well_known ++ text "other") host

start : HttpServer
start = bound others

-- A connection is taken, another token is armed, and the connection is answered.
abbrev checked_one : HttpServer
checked_one = load_flag (connection asked) start

abbrev taken_one : HttpServer
taken_one = spawn_one (connection asked) checked_one

abbrev armed : HttpServer
armed = record taken_one { shared = insert (text "t") (text "t.x") taken_one.shared }

abbrev last : HttpServer
last = record armed {
  in_flight = [];
  served = armed.served ++ (asked, handle_connection asked armed.shared) ∷ [];
}

apart : text "other" ≢ text "t"
unfolding text ◌is◌
apart e =
    let same : (text "other" is text "t") ≡ true = (is_iff (text "other") (text "t")).1 e in
    absurd cc

run : Run handle_connection (Edit (text "other")) start last
unfolding start bound load_flag spawn_one spawned
run = then_run start checked_one last (loads (connection asked) refl) (
    then_run checked_one taken_one last (spawns (connection asked) refl) (
      then_run taken_one armed last (changes armed.shared (inserts (text "t") (text "t.x") apart))
        (then_run armed last last (handles [] [] asked refl) (ends last))))

Run-Answers_example :
    (lookup (text "other") last.shared ≡ some (text "other.thumb"))
    × All (Answers (text "other") (some (text "other.thumb"))) last.served
unfolding start bound lookup text ◌is◌
Run-Answers_example =
    Run-Answers (text "other") (some (text "other.thumb")) start last refl run refl tt

-- The server is dropped after the flag was loaded; the connection is taken, then the loop ends.
abbrev raced : HttpServer
raced = drop_server checked_one

abbrev spawned_late : HttpServer
spawned_late = spawn_one (connection asked) raced

abbrev closed : HttpServer
closed = load_flag (connection asked) spawned_late

race : Run handle_connection (Edit (text "other")) raced closed
unfolding start bound load_flag drop_server spawn_one
race =
    then_run raced spawned_late closed (spawns (connection asked) refl)
      (then_run spawned_late closed closed (loads (connection asked) refl) (ends closed))

Run-drop_server_example :
    Perm (held_or_taken closed) (held_or_taken checked_one)
    × ((item : Incoming Bytes) → (load_flag item closed).loop ≡ ended)
Run-drop_server_example =
    Run-drop_server handle_connection (Edit (text "other")) checked_one closed race

-- One connection is in flight, though none was at the drop.
race_taken : (requests raced ≡ []) × (requests closed ≡ asked ∷ [])
unfolding start bound load_flag drop_server spawn_one spawned
race_taken = (refl, refl)
