-- ===== src/Core/Csr/Tests.antt =====
-- A request for one name.
use acme_wasm.Prelude.{◌≡◌, refl, ◌≢◌, List, [], ◌∷◌, map, All, Text, text, ◌is◌, join, ok}
use acme_wasm.Core.Records.Order.{dns}
use acme_wasm.Core.Csr.{dns_name, dns_names, build_csr}
use acme_wasm.Core.Csr.Laws.{value_of, IsDns, build_csr-eq-ok}
use acme_wasm.Core.Sample.{crates, certificate_key}

csr_run : build_csr crates certificate_key (dns (text "a") ∷ []) ≡ ok (text "a")
unfolding build_csr dns_names dns_name dns text ◌is◌ join
csr_run = refl

build_csr-eq-ok_example :
    ((dns (text "a") ∷ []) ≢ [])
    × All IsDns (dns (text "a") ∷ [])
    × (params : List Text) × (crates.params_new (map value_of (dns (text "a") ∷ [])) ≡ ok params)
    × (crates.serialize_request params certificate_key.key_pair ≡ ok (text "a"))
build_csr-eq-ok_example =
    build_csr-eq-ok crates certificate_key (dns (text "a") ∷ []) (text "a") csr_run
