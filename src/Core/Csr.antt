-- ===== src/Core/Csr.antt =====
-- crates/core/src/csr.rs: the certificate request. The key generators are in a child.
pub mod Keys
pub mod Laws
mod Tests
use acme_wasm.Prelude.{
  List, [], ◌∷◌, ◌++◌, if◌then◌else◌, Bytes, Text, text, ◌is◌, Result, ok, err, map_err, map_ok,
  and_then,
}
use acme_wasm.Core.Error.{bad_csr, AcmeError}
use acme_wasm.Core.Records.Order.{Identifier}
use acme_wasm.Core.Crates.{Crates}

pub record CertificateKey (c : Crates) : Type 0 where
  pub key_pair : c.KeyPair

-- the closure under `map`: the name of a `dns` identifier
unfoldable pub dns_name : Identifier → Result Text AcmeError
dns_name id =
    if id.kind is text "dns"
    then ok id.value
    else err (bad_csr (text "unsupported identifier type: " ++ id.kind))

-- `collect::<Result<_>>()` stops at the first error.
unfoldable pub dns_names : List Identifier → Result (List Text) AcmeError
unfolding dns_name
dns_names [] = ok []
dns_names (id ∷ ids) = and_then (dns_name id) (λ n. map_ok (λ ns. n ∷ ns) (dns_names ids))

module _ (c : Crates) where
  unfoldable pub build_csr : CertificateKey c → List Identifier → Result Bytes AcmeError
  unfolding dns_names
  build_csr private_key [] = err (bad_csr (text "no identifiers"))
  build_csr private_key (id ∷ ids) = and_then (dns_names (id ∷ ids)) λ names.
      and_then (map_err (λ e. bad_csr (text "csr params: " ++ e)) (c.params_new names)) λ params.
        map_err (λ e. bad_csr (text "csr sign: " ++ e))
          (c.serialize_request params private_key.key_pair)
