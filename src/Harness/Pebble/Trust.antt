-- ===== src/Harness/Pebble/Trust.antt =====
-- `split_pem_certs` and `reqwest_client_trusting` of crates/testing/src/lib.rs.
pub mod Laws
use mathlib.Core.Option
use acme_wasm.Prelude.{
  ℕ, zero, suc, ◌+◌, ◌-◌, Option, none, some, List, [], ◌∷◌, ◌++◌, map, length, take, drop, Bytes,
  text, Result, ok, err, map_err,
}
use acme_wasm.Core.Certificate.Pem.{begin_marker, end_marker, position}
use acme_wasm.Harness.Pebble.Host.{HarnessError, http, Host}

-- the `while let` loop, on fuel: each round but the last moves the cursor on
unfoldable pub certs_from : ℕ → Bytes → ℕ → Option (List Bytes)
unfolding position
certs_from zero pem cursor = none
certs_from (suc fuel) pem cursor = elim (position begin_marker (drop cursor pem)) [
  | none ↦ some []
  | some at ↦ elim (position end_marker (drop (at + cursor) pem)) [
    | none ↦ some []
    | some off ↦
        let end_off = at + cursor + off + length end_marker in
        let block = take (end_off - (at + cursor)) (drop (at + cursor) pem) ++ 10 ∷ [] in
        Option.map (λ out. block ∷ out) (certs_from fuel pem end_off)
  ]
]

-- Without a block, the input is the only certificate.
abbrev pub or_whole : Bytes → List Bytes → List Bytes
or_whole pem [] = pem ∷ []
or_whole pem (block ∷ blocks) = block ∷ blocks

-- `none` would mean that the fuel ran out.
unfoldable pub split_pem_certs : Bytes → Option (List Bytes)
unfolding certs_from
split_pem_certs pem = Option.map (or_whole pem) (certs_from (length pem + 1) pem 0)

module _ {W : Type 0} (host : Host W) where
  -- the `for` loop
  unfoldable pub trusted :
      host.reqwest.Builder → List Bytes → Result host.reqwest.Builder HarnessError
  trusted builder [] = ok builder
  trusted builder (cert_pem ∷ rest) = elim (host.reqwest.from_pem cert_pem) [
    | err e ↦ err (http e)
    | ok cert ↦ trusted (host.reqwest.add_root_certificate builder cert) rest
  ]

  unfoldable pub built :
      Result host.reqwest.Builder HarnessError → Result host.reqwest.Client HarnessError
  built (err e) = err e
  built (ok builder) = map_err http (host.reqwest.build builder)

  unfoldable pub reqwest_client_trusting : Bytes → Option (Result host.reqwest.Client HarnessError)
  unfolding trusted built split_pem_certs
  reqwest_client_trusting pem =
      Option.map
        (λ certs.
          built
            (trusted (host.reqwest.builder (text "acme-testing/" ++ host.package_version)) certs))
        (split_pem_certs pem)
