-- ===== src/Harness/Pebble/Spawn/Tests.antt =====
-- A machine without docker, and the harness of crates/testing/src/lib.rs on it.
use acme_wasm.Prelude.{
  join, ℕ, ◌+◌, ◌≡◌, refl, List, [], ◌∷◌, ◌++◌, arith, Bytes, Text, text, ok, err,
}
use acme_wasm.Core.Polling.{Ticks}
use acme_wasm.Harness.Pebble.Host.{spawn, Reqwest, Host, errs}
use acme_wasm.Harness.Pebble.Docker.{finished, run_compose_binary, or_standalone, run_compose}
use acme_wasm.Harness.Pebble.Spawn.{spawn_harness, brought_up, clean_up, or_up, up}
use acme_wasm.Harness.Pebble.Spawn.Cleanup.{Cleaned, spawn_harness-Cleaned}

-- The time, and the directories that were removed.
abbrev World : Type 0
World = ℕ × List Text

bare_reqwest : Reqwest World
bare_reqwest = record {
  Builder = Text;
  Certificate = Bytes;
  Client = Text;
  builder = λ agent. agent;
  from_pem = λ pem. ok pem;
  add_root_certificate = λ builder cert. builder;
  build = λ builder. ok builder;
  get = λ client url timeout w. (err (text "refused"), w);
  post_json = λ url body w. (err (text "refused"), w);
}

bare : Host World
bare = record {
  output = λ program args w. (err (text "not found"), w);
  temp_dir = λ w. (ok (text "/tmp/x"), w);
  remove_dir = λ dir w. (w.0, dir ∷ w.1);
  join_path = λ dir file. dir ++ text "/" ++ file;
  write = λ path contents w. (ok tt, w);
  eprintln = λ message w. w;
  clock = record { now = λ w. (w.0, w); sleep = λ d w. (w.0 + d, w.1) };
  debug_duration = λ d. text "60s";
  package_version = text "0.1.0";
  reqwest = bare_reqwest;
}

bare-Ticks : Ticks (λ w. w.0) bare.clock
unfolding bare
bare-Ticks = record {
  reads = λ w. omega arith;
  goes_on = λ w. omega arith;
  sleeps = λ d w. omega arith;
}

spawn_harness-Cleaned_example : Cleaned bare (text "/tmp/x") (spawn_harness bare 60001 (0, []))
unfolding bare bare_reqwest
spawn_harness-Cleaned_example =
    spawn_harness-Cleaned bare (λ w. w.0) bare-Ticks (λ client url w. omega arith) 60001
      (text "/tmp/x") (0, []) refl (omega arith)

-- The directory is removed.
bare_run :
    spawn_harness bare 60001 (0, [])
    ≡ errs (spawn (text "docker-compose  up -d") (text "not found")) (0, text "/tmp/x" ∷ [])
unfolding spawn_harness brought_up clean_up up or_up run_compose or_standalone run_compose_binary
    finished bare text join
bare_run = refl
