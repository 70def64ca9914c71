-- ===== src/Core/Authorization.antt =====
-- crates/core/src/authorization.rs: reading an authorization.
use acme_wasm.Prelude.{[], Text}
use acme_wasm.Core.Transport.{HttpClient, check}
use acme_wasm.Core.Records.Authorization.{Authorization}
use acme_wasm.Core.Crates.{Crates, from_json}
use acme_wasm.Core.Program.{Program, attempt, ◌>>=◌}
use acme_wasm.Core.Account.{Account, post_kid}

module _ (c : Crates) {W : Type 0} where
  unfoldable pub fetch : Text → Account c W → HttpClient W → Program W Authorization
  fetch url account client = do
    response ← post_kid c account url [] client
    response ← attempt (check c.problem_from_slice response)
    attempt (from_json (c.authorization_from_slice response.body))
