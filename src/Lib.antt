-- ===== src/Lib.antt =====
-- A model of acme-wasm, an ACME (RFC 8555) client in Rust, with proofs.
--
-- crates/core is the client. A certificate is issued by one call (lib.rs): it fetches the
-- directory, creates an account, creates an order, proves each authorization of the order by a
-- challenge that a solver arms, finalizes the order with a certificate request, and downloads the
-- certificate. Each request after the account's creation is a POST signed with the account key
-- (account.rs, jws.rs) that spends a nonce of the pool (nonce.rs); each response refills the pool.
--
-- Around it stand the challenge crates, which compute what to publish for a challenge
-- (crates/challenge-http-01, crates/challenge-dns-01, crates/challenge-tls-alpn-01), a DNS provider
-- for the Cloudflare API (crates/dns-providers/cloudflare), an HTTP client on `wasi:http`
-- (crates/http-client), which can stand behind the trait that the client takes, and the servers and
-- solvers of the integration tests (crates/testing), which publish what the challenge crates compute.
--
-- Core.Program is the shape of the stateful code of the client: a program takes the state, which is
-- the nonce pool of the account and the world outside (network, clock, solvers), and ends well, with
-- an error (`?`), or out of fuel, which only the poll loops of the client, the loops of the WASI
-- client, and its `expect` on a response that is not there can do. Core.Program.Keeps holds the
-- rules for invariants, Core.Program.Yields those for returned values, Core.Program.Triples those for
-- conditions before and after. `Step` is the same shape over any state.
--
--   Prelude                texts are the bytes of UTF-8; tests, lists, `Result`
--   Core.Json              `serde_json::Value`
--   Core.Error             error.rs: AcmeError, ProblemDocument, problem_from_response; the texts of
--                          errors are in Core.Error.Display
--   Core.Transport         transport.rs: HttpResponse, the HttpClient trait; `check` is `ok`;
--                          Core.Transport.Reqwest is ReqwestTransport
--   Core.Records           the data types of directory.rs, account.rs, order.rs, challenge.rs and
--                          authorization.rs, with their statuses
--   Core.Crates            everything that the code calls outside the repository
--   Core.Nonce             nonce.rs; `pop_front`, `got` and `push_all` are parts of `get`, `absorb`
--   Core.Jws, Core.Csr     jws.rs, csr.rs; Core.Csr.Keys has the key generators
--   Core.Directory, Core.Account, Core.Order, Core.Authorization   the operations of those files
--                          (an account's nonce source is the ReplayNonceStore, the only one that
--                          the crate builds)
--   Core.Clock             `Instant::now` and `thread::sleep`
--   Core.Challenge         challenge.rs; `owning` drops the armed challenge on each way out
--   Core.Certificate       certificate.rs; the split of a PEM chain is in Core.Certificate.Pem
--   Core.Issue             lib.rs
--   Core.Requests, Core.Polling   rules for signed requests and for poll loops
--   Core.Flow              what the parts of lib.rs keep, the whole flow keeps
--   Core.Nonce.Ledger      an observer of the nonces received and the requests sent
--   Core.Sample and the modules called Tests   a small server, and runs on it
--   Http01                 crates/challenge-http-01/src/lib.rs
--   Dns01                  crates/challenge-dns-01/src/lib.rs; Dns01.Provider is provider.rs, whose
--                          MockDnsProvider is `mock_upsert` and `mock_delete` on a list of records
--   Cloudflare             crates/dns-providers/cloudflare/src/lib.rs; Cloudflare.Transport is
--                          transport.rs; `resolve_in`, `cached_or` and `fetch_zone` are parts of
--                          `resolve_zone_id`, `delete_record` is what `delete_txt` does with a
--                          well-formed handle; Cloudflare.Mock is the MockTransport of transport.rs,
--                          whose child Requests is what the provider sends it, and
--                          Cloudflare.Script a script for it
--   TlsAlpn01              crates/challenge-tls-alpn-01/src/lib.rs; `build` and `sign_at` are parts of
--                          `responder_cert_from_key_authorization`
--   WasiHttp               crates/http-client/src/lib.rs: `parse_url`; WasiHttp.Host is the host's
--                          interfaces, WasiHttp.Client the round trip, WasiHttp.Watch an observer
--   Protocol               crates/protocol/src: types.rs, solver.rs and orchestrator.rs
--   Harness                crates/testing/src: HttpServer is http_server.rs, TlsServer tls_server.rs,
--                          Accept the accept loop that both have, as steps that interleave (the
--                          load of the flag, `load_flag`, and the rest of a round, `spawn_one`, apart),
--                          DnsProvider dns_provider.rs, and Pebble lib.rs: in Pebble.Host what the
--                          harness calls and how its runs end, in Pebble.Docker the commands, in
--                          Pebble.Tar and Pebble.Hosts the readers of what they print, in
--                          Pebble.Trust the client's roots, in Pebble.Directory the wait, in
--                          Pebble.Spawn `spawn` (`brought_up` is its part before the wait) and `Drop`,
--                          and in Pebble.Admin the admin calls
--
-- Numbers: statuses and lengths are natural numbers that no operation takes near a machine bound;
-- times are milliseconds. Fuel: the poll loops take the fuel of their caller, and one more than the
-- timeout in milliseconds is enough, since a round that is not the last sleeps; the split of a PEM
-- chain takes one more than the length of the text, since each block moves the cursor on. The loops of
-- the WASI client take one more than the bytes to write, or the chunks to read. The harness splits a
-- PEM bundle and waits for the directory on fuel of the same measures; its `usize` has 64 bits.
--
-- Not modelled: the inside of reqwest, docker and sockets; the generated bindings; cryptography, serde,
-- base64 and rcgen, which are parameters (Core.Crates); the derived `Debug` texts; a poisoned mutex
-- and the panics of `Instant` arithmetic; the timeouts of the test servers and the TLS
-- handshake;
-- the handles of `wasi:http` that go out of scope on a return, which the host closes; and the
-- integration tests.
mod Prelude
pub mod Core
pub mod Http01
pub mod Dns01
pub mod TlsAlpn01
pub mod Cloudflare
pub mod WasiHttp
pub mod Harness
pub mod Protocol
