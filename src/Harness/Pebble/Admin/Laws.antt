-- ===== src/Harness/Pebble/Admin/Laws.antt =====
-- The two clients of the DNS server's admin calls in crates/testing/src: the harness of lib.rs and the
-- provider of dns_provider.rs.
use acme_wasm.Prelude.{
  ℕ, ◌≡◌, refl, inl, inr, Bool, true, false, ◌++◌, Bool-cases, Text, text, Result, ok, err,
}
use acme_wasm.Core.Transport.{is_success}
use acme_wasm.Core.Json.{Value, string, object, member, end}
use acme_wasm.Harness.DnsProvider as Provider
use acme_wasm.Harness.Pebble.Host.{Host}
use acme_wasm.Harness.Pebble.Spawn.{PebbleHarness}
use acme_wasm.Harness.Pebble.Admin.{posted, post_admin, set_txt, clear_txt}

abbrev pub is_ok : {A E : Type 0} → Result A E → Bool
is_ok (ok a) = true
is_ok (err e) = false

-- The same success or failure, and the same effect.
pub record Alike {W A B E F : Type 0} (r : Result A E × W) (s : Result B F × W) : Type 0 where
  pub success : is_ok r.0 ≡ is_ok s.0
  pub effect : r.1 ≡ s.1

module _ {W : Type 0} (host : Host W) (harness : PebbleHarness) where
  -- The provider on the harness's server.
  abbrev pub server : Provider.ChallTestSrv W
  server = record { base_url = harness.challtestsrv_dns_url; send = host.reqwest.post_json }

  posted-admin_result :
      (url : Text) (answer : Result Provider.AdminResponse Text × W)
      → Alike (posted host harness url answer) (Provider.admin_result server url answer)
  unfolding posted Provider.admin_result
  posted-admin_result url (err e, w) = record { success = refl; effect = refl }
  posted-admin_result url (ok resp, w) = elim (Bool-cases (is_success resp.status)) [
    | inl e ↦ rw e (record { success = refl; effect = refl })
    | inr e ↦ rw e (record { success = refl; effect = refl })
  ]

  post_admin-admin_post :
      (path : Text) (body : Value) (w : W)
      → Alike (post_admin host harness path body w) (Provider.admin_post server path body w)
  unfolding post_admin Provider.admin_post
  post_admin-admin_post path body w =
      posted-admin_result (harness.challtestsrv_dns_url ++ path)
        (host.reqwest.post_json (harness.challtestsrv_dns_url ++ path) body w)

  handle_for-Alike :
      (id : Text) {A E : Type 0} (r : Result A E × W) (s : Result (Unit {0}) _ × W)
      → Alike r s
      → Alike r (Provider.handle_for server id s)
  unfolding Provider.handle_for
  handle_for-Alike id r (err e, w) h = record { success = h.success; effect = h.effect }
  handle_for-Alike id r (ok a, w) h = record { success = h.success; effect = h.effect }

  -- To publish and to clear a TXT record, the harness and the provider send the same request, and
  -- both succeed or both fail; the provider clears by the handle that it returned for the name.
  pub set_txt-clear_txt-Alike :
      (name value : Text) (ttl_seconds : ℕ) (w : W)
      → Alike (set_txt host harness name value w) (Provider.set_txt server name value ttl_seconds w)
        × Alike
            (clear_txt host harness name w)
            (Provider.clear_txt server (record { id = Provider.fqdn name }) w)
  unfolding set_txt clear_txt Provider.set_txt Provider.clear_txt
  set_txt-clear_txt-Alike name value ttl_seconds w =
      let host_member = string (Provider.fqdn name) in
      let set =
        object (member (text "host") host_member (member (text "value") (string value) end)) in
      let clear = object (member (text "host") host_member end) in
      (
        handle_for-Alike (Provider.fqdn name) (post_admin host harness (text "/set-txt") set w)
            (Provider.admin_post server (text "/set-txt") set w)
            (post_admin-admin_post (text "/set-txt") set w),
        post_admin-admin_post (text "/clear-txt") clear w,
      )
