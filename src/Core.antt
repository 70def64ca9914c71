-- ===== src/Core.antt =====
-- crates/core: the plain ACME client.
pub mod Json
pub mod Error
pub mod Transport
pub mod Records
pub mod Crates
pub mod Program
pub mod Nonce
pub mod Jws
pub mod Directory
pub mod Account
pub mod Order
pub mod Authorization
pub mod Clock
pub mod Challenge
pub mod Csr
pub mod Certificate
pub mod Issue
pub mod Requests
pub mod Polling
pub mod Flow
pub mod Sample
mod Tests
