-- ===== src/Harness/Pebble/Admin.antt =====
-- The admin calls of `PebbleHarness` in crates/testing/src/lib.rs.
pub mod Laws
use acme_wasm.Prelude.{not, List, ◌++◌, if◌then◌else◌, Text, text, pos, Result, ok, err}
use acme_wasm.Core.Json.{Value, string, object, member, end, array, strings}
use acme_wasm.Core.Transport.{is_success}
use acme_wasm.Harness.DnsProvider.{AdminResponse, fqdn, or_empty}
use acme_wasm.Harness.Pebble.Host.{HarnessError, non_zero_exit, http, Host, Call}
use acme_wasm.Harness.Pebble.Spawn.{PebbleHarness}

module _ {W : Type 0} (host : Host W) (harness : PebbleHarness) where
  -- What `post_admin` makes of the answer.
  unfoldable pub posted : Text → Result AdminResponse Text × W → Result (Unit {0}) HarnessError × W
  posted url (err e, w) = (err (http e), w)
  posted url (ok resp, w) =
      if not (is_success resp.status)
      then (
        err (non_zero_exit (text "POST " ++ url) (pos resp.status) (or_empty resp.text_body)),
        w,
      )
      else (ok tt, w)

  unfoldable pub post_admin : Text → Value → Call W (Unit {0})
  unfolding posted
  post_admin path body w =
      let url = harness.challtestsrv_dns_url ++ path in
      posted url (host.reqwest.post_json url body w)

  unfoldable pub set_default_ipv4 : Text → Call W (Unit {0})
  unfolding post_admin
  set_default_ipv4 ip =
      post_admin (text "/set-default-ipv4") (object (member (text "ip") (string ip) end))

  unfoldable pub add_a : Text → List Text → Call W (Unit {0})
  unfolding post_admin fqdn
  add_a name addresses = post_admin (text "/add-a") (
      object (
        member (text "host") (string (fqdn name))
          (member (text "addresses") (array (strings addresses)) end)))

  unfoldable pub clear_a : Text → Call W (Unit {0})
  unfolding post_admin fqdn
  clear_a name =
      post_admin (text "/clear-a") (object (member (text "host") (string (fqdn name)) end))

  unfoldable pub set_txt : Text → Text → Call W (Unit {0})
  unfolding post_admin fqdn
  set_txt name value = post_admin (text "/set-txt") (
      object (member (text "host") (string (fqdn name)) (member (text "value") (string value) end)))

  unfoldable pub clear_txt : Text → Call W (Unit {0})
  unfolding post_admin fqdn
  clear_txt name =
      post_admin (text "/clear-txt") (object (member (text "host") (string (fqdn name)) end))
