-- ===== src/Harness/TlsServer/Tests.antt =====
-- The solver armed for the sample account.
use acme_wasm.Prelude.{ℕ, refl, none, some, [], ◌∷◌, ◌++◌, All, Bytes, text, ok}
use acme_wasm.Core.Challenge.{compute_key_authorization}
use acme_wasm.Core.Records.Order.{Identifier}
use acme_wasm.TlsAlpn01.{responder_cert_from_key_authorization}
use acme_wasm.TlsAlpn01.Sample.{toy, decode, digests, key, responder, toy-Reads}
use acme_wasm.Harness.TlsServer.{
  Rustls, Slot, install, tls_ready, installed, with_responder, tls_arm, tls_solver,
}
use acme_wasm.Harness.Accept.{
  connection, spawned, bound, load_flag, spawn_one, loads, spawns, changes, handles, Run, ends,
  then_run,
}
use acme_wasm.Harness.TlsServer.Threads.{
  Offer, TlsServer, handle_tls_connection, Swap, installs, Refuses, Run-Refuses,
}
use acme_wasm.Harness.TlsServer.Laws.{Presents, tls_arm-Presents}

abbrev keys : Rustls
keys = record { SigningKey = Bytes; any_ecdsa_type = λ b. ok b }

abbrev identifier : Identifier
identifier = record { kind = text "dns"; value = text "example.org" }

abbrev before_arming : Slot keys × ℕ
before_arming = (none, 0)

abbrev armed : Slot keys × ℕ
armed = (some (record { chain = responder.cert_der ∷ []; key = responder.key_der }), 1)

tls_arm-Presents_example :
    Presents keys digests toy decode
      (text "example.org")
      (digests.sha256 (compute_key_authorization digests (text "token") key))
      (tls_ready keys)
      armed
unfolding tls_solver tls_arm responder_cert_from_key_authorization with_responder install installed
tls_arm-Presents_example =
    tls_arm-Presents keys digests toy decode identifier (text "token") key (tls_ready keys)
      before_arming armed toy-Reads (λ b. refl) refl

-- A client of HTTP/2 connects, then a certificate is installed, and the handshake is made.
abbrev offer : Offer
offer = some (text "h2" ∷ [])

start : TlsServer keys
start = bound none

abbrev checked_one : TlsServer keys
checked_one = load_flag (connection offer) start

abbrev taken_one : TlsServer keys
taken_one = spawn_one (connection offer) checked_one

abbrev loaded : TlsServer keys
loaded = record taken_one { shared = (install keys (text "cert") (text "key") taken_one.shared).1 }

abbrev shaken : TlsServer keys
shaken = record loaded {
  in_flight = [];
  served = loaded.served ++ (offer, handle_tls_connection keys offer loaded.shared) ∷ [];
}

run : Run (handle_tls_connection keys) (Swap keys) start shaken
unfolding start bound load_flag spawn_one spawned
run = then_run start checked_one shaken (loads (connection offer) refl) (
    then_run checked_one taken_one shaken (spawns (connection offer) refl) (
      then_run taken_one loaded shaken (changes loaded.shared (installs (text "cert") (text "key")))
        (then_run loaded shaken shaken (handles [] [] offer refl) (ends shaken))))

Run-Refuses_example : All (Refuses keys) shaken.served
unfolding start bound
Run-Refuses_example = Run-Refuses keys start shaken run tt
