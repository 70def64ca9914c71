-- ===== src/Harness/Pebble/Tests.antt =====
-- A machine on which Pebble comes up after a second, and the harness on it.
use acme_wasm.Prelude.{
  ℕ, from_utf8, zero, suc, ◌+◌, ◌≡◌, refl, none, some, List, [], ◌∷◌, ◌++◌, arith, ltb,
  if◌then◌else◌, length, All, Bytes, Text, text, ◌is◌, join, pos, Result, ok, err,
}
use acme_wasm.Core.Certificate.Pem.{position, split_pem_chain}
use acme_wasm.Core.Polling.{Ticks, Onward}
use acme_wasm.Harness.Pebble.Host.{Output, Reqwest, Host, returns}
use acme_wasm.Harness.Pebble.Tar.{extract_first_tar_file}
use acme_wasm.Harness.Pebble.Tar.Laws.{entry, extract_first_tar_file-entry}
use acme_wasm.Harness.Pebble.Hosts.{docker_host, host_ip}
use acme_wasm.Harness.Pebble.Hosts.Laws.{
  hosts_line, HostsEntry, hosts_file, address_of, Plain, host_ip-hosts_file,
}
use acme_wasm.Harness.Pebble.Docker.{pebble_container}
use acme_wasm.Harness.Pebble.Trust.{
  certs_from, or_whole, split_pem_certs, trusted, built, reqwest_client_trusting,
}
use acme_wasm.Harness.Pebble.Trust.Laws.{split_pem_certs-split_pem_chain}
use acme_wasm.Harness.Pebble.Directory.{failure_of, judge, wait_loop, wait_for_directory}
use acme_wasm.Harness.Pebble.Directory.Laws.{Waited, wait_for_directory-Waited}
use acme_wasm.Harness.Pebble.Spawn.{PebbleHarness, spawn_harness}
use acme_wasm.Harness.Pebble.Spawn.Laws.{
  directory, Works, harness_of, Spawned, spawn_harness-Spawned,
}

abbrev zeros : ℕ → Bytes
zeros zero = []
zeros (suc n) = 0 ∷ zeros n

length-zeros : (n : ℕ) → length (zeros n) ≡ n
length-zeros zero = refl
length-zeros (suc n) = omega (arith, length-zeros n)

abbrev entries : List HostsEntry
entries =
    record { ip = text "127.0.0.1"; names = text "localhost" ∷ [] }
    ∷ record { ip = text "10.0.0.1"; names = text "gw" ∷ docker_host ∷ [] }
    ∷ []

abbrev ca : Bytes
ca = text "-----BEGIN CERTIFICATE-----a-----END CERTIFICATE-----"

-- the archive of a file
archive : Bytes → Bytes
archive file = entry (zeros 124) (length file) (zeros 376) ++ (file ++ [])

printed : Bytes → Result Output Text
printed stdout = ok (record { code = some (pos 0); stdout = stdout; stderr = [] })

-- `docker cp` copies the two files, and all else prints nothing.
answer : List Text → Result Output Text
answer (command ∷ path ∷ rest) =
    if path is (pebble_container ++ text ":" ++ text "/etc/hosts")
    then printed (archive (hosts_file entries))
    else if path is (pebble_container ++ text ":" ++ text "/test/certs/pebble.minica.pem")
    then printed (archive ca)
    else printed []
answer _ = printed []

-- A certificate and a client are what they were made from; the world is the time.
reqwest : Reqwest ℕ
reqwest = record {
  Builder = Text;
  Certificate = Bytes;
  Client = Text;
  builder = λ agent. agent;
  from_pem = λ pem. ok pem;
  add_root_certificate = λ builder cert. builder;
  build = λ builder. ok builder;
  get = λ client url timeout time. (
    if ltb time 1000
        then err (text "refused")
        else ok (record { status = 200; status_text = text "200 OK"; text_body = none }),
    time,
  );
  post_json = λ url body time.
      (ok (record { status = 200; status_text = text "200 OK"; text_body = none }), time);
}

host : Host ℕ
host = record {
  output = λ program args time. (answer args, time);
  temp_dir = λ time. (ok (text "/tmp/x"), time);
  remove_dir = λ dir time. time;
  join_path = λ dir file. dir ++ text "/" ++ file;
  write = λ path contents time. (ok tt, time);
  eprintln = λ message time. time;
  clock = record { now = λ time. (time, time); sleep = λ d time. time + d };
  debug_duration = λ d. text "60s";
  package_version = text "0.1.0";
  reqwest = reqwest;
}

ticks : Ticks (λ time. time) host.clock
unfolding host
ticks = record { reads = λ w. omega arith; goes_on = λ w. omega arith; sleeps = λ d w. omega arith }

onward :
    (client : host.reqwest.Client) → Onward (λ time. time) (host.reqwest.get client directory 2000)
unfolding host reqwest
onward client w = omega arith

client : host.reqwest.Client
unfolding host reqwest
client = text "acme-testing/0.1.0"

extract_first_tar_file-entry_example :
    extract_first_tar_file (entry (zeros 124) 1 (zeros 376) ++ (7 ∷ 8 ∷ [])) ≡ some (7 ∷ [])
extract_first_tar_file-entry_example =
    extract_first_tar_file-entry (zeros 124) (zeros 376) (7 ∷ 8 ∷ []) 1 (length-zeros 124)
      (length-zeros 376) (omega arith)

entries-Plain : All Plain entries
unfolding text
entries-Plain =
    (((refl, refl), ((refl, refl), tt)), (((refl, refl), ((refl, refl), ((refl, refl), tt))), tt))

host_ip-hosts_file_example : host_ip (hosts_file entries) ≡ some (text "10.0.0.1")
unfolding address_of text ◌is◌
host_ip-hosts_file_example = host_ip-hosts_file entries entries-Plain

-- The CA's client can be built.
trusts : reqwest_client_trusting host ca ≡ some (ok client)
unfolding reqwest_client_trusting split_pem_certs certs_from position trusted built host reqwest
    text ◌is◌ client
trusts = refl

wait_for_directory-Waited_example :
    Waited host client directory 60000 60000 0 (wait_for_directory host 60001 directory ca 60000 0)
unfolding host
wait_for_directory-Waited_example =
    wait_for_directory-Waited host client directory (λ time. time) ticks (onward client) 60001 ca
      60000 0 trusts (omega arith)

-- It takes three rounds.
wait_run : wait_for_directory host 5 directory ca 60000 0 ≡ returns tt 1000
unfolding wait_for_directory wait_loop judge failure_of reqwest_client_trusting split_pem_certs
    certs_from position trusted built host reqwest text ◌is◌
wait_run = refl

works : Works host (text "/tmp/x") ca entries (text "10.0.0.1")
unfolding host answer printed archive text ◌is◌ address_of join hosts_file hosts_line
works = record {
  makes_dir = λ w. refl;
  writes = λ w. refl;
  up_stdout = [];
  starts = record { stderr = []; answers = λ w. refl };
  has_ca = record {
    front = zeros 124;
    back = zeros 376;
    padding = [];
    front_ok = refl;
    back_ok = refl;
    small = omega arith;
    exits = record { stderr = []; answers = λ w. refl };
  };
  ca_nonempty = refl;
  has_hosts = record {
    front = zeros 124;
    back = zeros 376;
    padding = [];
    front_ok = refl;
    back_ok = refl;
    small = omega arith;
    exits = record { stderr = []; answers = λ w. refl };
  };
  plain = entries-Plain;
  listed = refl;
}

abbrev harness : PebbleHarness
harness = harness_of host (text "/tmp/x") ca (text "10.0.0.1")

spawn_harness-Spawned_example : Spawned host client harness (spawn_harness host 60001 0)
spawn_harness-Spawned_example =
    spawn_harness-Spawned host works client (λ time. time) ticks (onward client) 60001 0 trusts
      (omega arith)

split_pem_certs-split_pem_chain_example :
    (blocks : List Bytes) × (split_pem_chain ca ≡ some blocks)
    × (split_pem_certs ca ≡ some (or_whole ca blocks))
unfolding from_utf8 text
split_pem_certs-split_pem_chain_example = split_pem_certs-split_pem_chain ca ca refl
