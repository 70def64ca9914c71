-- ===== src/Harness.antt =====
-- crates/testing/src: the servers that answer a CA's validation probes, and the solvers that arm them.
pub mod Accept
pub mod HttpServer
pub mod TlsServer
pub mod DnsProvider
pub mod Pebble
