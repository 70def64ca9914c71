-- ===== src/Core/Records/Directory.antt =====
-- The data of crates/core/src/directory.rs.
use acme_wasm.Prelude.{Bool, Option, List, Text}
use acme_wasm.Core.Json.{Members}

pub record Meta : Type 0 where
  pub terms_of_service : Option Text
  pub website : Option Text
  pub caa_identities : List Text
  pub external_account_required : Bool
  pub extra : Members

pub record Directory : Type 0 where
  pub new_nonce : Text
  pub new_account : Text
  pub new_order : Text
  pub new_authz : Option Text
  pub revoke_cert : Text
  pub key_change : Text
  pub renewal_info : Option Text
  pub meta : Meta
