-- ===== src/Harness/DnsProvider.antt =====
-- crates/testing/src/dns_provider.rs: the provider behind `pebble-challtestsrv`, and the solver on top
-- of any DNS provider.
mod Laws
mod Tests
use acme_wasm.Prelude.{
  ℕ, Bool, false, not, Option, none, some, [], ◌∷◌, ◌++◌, ◌==◌, if◌then◌else◌, drop, Text, text,
  Result, ok, err,
}
use acme_wasm.Core.Error.{AcmeError}
use acme_wasm.Core.Error as Errors
use acme_wasm.Core.Json.{Value, string, object, member, end}
use acme_wasm.Core.Transport.{is_success}
use acme_wasm.Core.Crates.{Crates}
use acme_wasm.Core.Challenge.{ChallengeReady, ChallengeSolver}
use acme_wasm.Core.Records.Challenge.{dns01}
use acme_wasm.Core.Records.Order.{Identifier}
use acme_wasm.Dns01.{record_name, Dns01Record}
use acme_wasm.Dns01.Provider.{
  RecordHandle, DnsProviderError, rejected, transport, zone_not_found, propagation_timeout,
  DnsProvider,
}

-- `name.ends_with('.')`
unfoldable pub ends_with_dot : Text → Bool
ends_with_dot [] = false
ends_with_dot (c ∷ []) = c == b'.'
ends_with_dot (c ∷ d ∷ s) = ends_with_dot (d ∷ s)

unfoldable pub fqdn : Text → Text
unfolding ends_with_dot
fqdn name = if ends_with_dot name then name else name ++ text "."

-- An answer of `reqwest`, with the `{}` text of its status; `none` for a body that cannot be read.
pub record AdminResponse : Type 0 where
  pub status : ℕ
  pub status_text : Text
  pub text_body : Option Text

-- `ChallTestSrvProvider`, with the client's `post(url).json(body).send()`
pub record ChallTestSrv (W : Type 0) : Type 0 where
  pub base_url : Text
  pub send : Text → Value → W → Result AdminResponse Text × W

abbrev pub or_empty : Option Text → Text
or_empty none = []
or_empty (some s) = s

module _ {W : Type 0} (server : ChallTestSrv W) where
  -- What `post` makes of the answer.
  unfoldable pub admin_result :
      Text → Result AdminResponse Text × W → Result (Unit {0}) DnsProviderError × W
  admin_result url (err e, w) = (err (transport e), w)
  admin_result url (ok resp, w) =
      if not (is_success resp.status)
      then (
        err (
            rejected (
              text "challtestsrv "
              ++ url
              ++ text " "
              ++ 0xE2 ∷ 0x86 ∷ 0x92 ∷ []
              ++ text " "
              ++ resp.status_text
              ++ text ": "
              ++ or_empty resp.text_body)),
        w,
      )
      else (ok tt, w)

  unfoldable pub admin_post : Text → Value → W → Result (Unit {0}) DnsProviderError × W
  unfolding admin_result
  admin_post path body w =
      admin_result (server.base_url ++ path) (server.send (server.base_url ++ path) body w)

  -- The handle for a record that was set.
  unfoldable pub handle_for :
      Text → Result (Unit {0}) DnsProviderError × W → Result RecordHandle DnsProviderError × W
  handle_for host (err e, w) = (err e, w)
  handle_for host (ok _, w) = (ok (record { id = host }), w)

  unfoldable pub set_txt : Text → Text → ℕ → W → Result RecordHandle DnsProviderError × W
  unfolding admin_post handle_for fqdn
  set_txt name value ttl_seconds w = handle_for (fqdn name) (
      admin_post (text "/set-txt")
        (object
          (member (text "host") (string (fqdn name)) (member (text "value") (string value) end)))
        w)

  unfoldable pub clear_txt : RecordHandle → W → Result (Unit {0}) DnsProviderError × W
  unfolding admin_post
  clear_txt handle w =
      admin_post (text "/clear-txt") (object (member (text "host") (string handle.id) end)) w

  -- `DnsProvider for ChallTestSrvProvider`
  unfoldable pub challtestsrv_provider : DnsProvider W
  unfolding set_txt clear_txt
  challtestsrv_provider = record { upsert_txt = set_txt; delete_txt = clear_txt }

-- the `Display` of `DnsProviderError`
abbrev shown_error : DnsProviderError → Text
shown_error (rejected e) = text "provider rejected request: " ++ e
shown_error (transport e) = text "provider transport error: " ++ e
shown_error (zone_not_found e) = text "provider does not manage zone for `" ++ e ++ text "`"
shown_error (propagation_timeout e) =
    text "timed out waiting for TXT `" ++ e ++ text "` to propagate"

module _ (c : Crates) {W : Type 0} (provider : DnsProvider W) where
  -- `DnsReady`
  unfoldable pub dns_ready : RecordHandle → ChallengeReady W
  dns_ready handle = record {
    self_check = λ w. (ok tt, w);
    drop = λ w. (provider.delete_txt handle w).1;
  }

  -- What follows `upsert_txt`.
  unfoldable pub published :
      Result RecordHandle DnsProviderError × W → Result (ChallengeReady W) AcmeError × W
  unfolding dns_ready
  published (err e, w) = (err (Errors.transport (text "dns provider upsert: " ++ shown_error e)), w)
  published (ok handle, w) = (ok (dns_ready handle), w)

  unfoldable pub dns_arm : Identifier → Text → W → Result (ChallengeReady W) AcmeError × W
  unfolding published
  dns_arm identifier key_authorization w =
      let rec : Dns01Record = record {
        name = record_name identifier.value;
        value = c.b64url (c.sha256 key_authorization);
        ttl_seconds = 60;
      } in
      published (provider.upsert_txt rec.name rec.value rec.ttl_seconds w)

  -- `DnsSolverAdapter`
  unfoldable pub dns_solver : ChallengeSolver W
  unfolding dns_arm
  dns_solver = record { kind = dns01; arm = dns_arm }
