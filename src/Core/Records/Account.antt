-- ===== src/Core/Records/Account.antt =====
-- The data of crates/core/src/account.rs that comes from the CA.
use acme_wasm.Prelude.{Bool, Option, List, Text}
use acme_wasm.Core.Json.{Value}

pub record AccountRecord : Type 0 where
  pub status : Text
  pub contact : List Text
  pub terms_of_service_agreed : Option Bool
  pub orders : Option Text
  pub external_account_binding : Option Value
