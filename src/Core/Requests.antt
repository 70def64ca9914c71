-- ===== src/Core/Requests.antt =====
-- Every authenticated request of crates/core goes by `post_kid`: what `post_kid` keeps, the requests
-- built on it keep.
use acme_wasm.Prelude.{List, Bytes, Text}
use acme_wasm.Core.Transport.{HttpClient}
use acme_wasm.Core.Records.Order.{Identifier}
use acme_wasm.Core.Crates.{Crates}
use acme_wasm.Core.Program.{State}
use acme_wasm.Core.Program.Keeps.{Keeps, keeps_rules}
use acme_wasm.Core.Account.{Account, post_kid}
use acme_wasm.Core.Order
use acme_wasm.Core.Authorization
use acme_wasm.Core.Certificate

module _ (c : Crates) {W : Type 0} {Cut : Type 0} {P : State W → Type 0} (client : HttpClient W)
    (account : Account c W)
    (posts : (url : Text) (payload : Bytes)
      → Keeps Cut P (post_kid c account url payload client)) where
  pub create-Keeps : (ids : List Identifier) → Keeps Cut P (Order.create c account ids client)
  unfolding Order.create
  create-Keeps ids = search (keeps_rules, posts) depth 9

  pub refresh-Keeps : (url : Text) → Keeps Cut P (Order.refresh c account url client)
  unfolding Order.refresh
  refresh-Keeps url = search (keeps_rules, posts) depth 9

  pub fetch-Keeps : (url : Text) → Keeps Cut P (Authorization.fetch c url account client)
  unfolding Authorization.fetch
  fetch-Keeps url = search (keeps_rules, posts) depth 9

  pub download-Keeps : (url : Text) → Keeps Cut P (Certificate.download c url account client)
  unfolding Certificate.download
  download-Keeps url = search (keeps_rules, posts) depth 9
