-- ===== src/Core/Records.antt =====
-- The objects of RFC 8555 that crates/core deserializes, one child for each source file.
pub mod Directory
pub mod Account
pub mod Order
pub mod Challenge
pub mod Authorization
