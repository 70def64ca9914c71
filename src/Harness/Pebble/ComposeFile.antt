-- ===== src/Harness/Pebble/ComposeFile.antt =====
-- `COMPOSE_YAML` of crates/testing/src/lib.rs: the compose file of Pebble and its DNS server.
use acme_wasm.Prelude.{List, [], ◌∷◌, ◌++◌, Text, text, join}

abbrev em_dash : Text
em_dash = 0xE2 ∷ 0x80 ∷ 0x94 ∷ []

compose_lines : List Text
compose_lines =
    text "services:"
    ∷ text "  pebble:"
    ∷ text "    image: ghcr.io/letsencrypt/pebble:latest"
    ∷ text "    container_name: acme-testing-pebble"
    ∷ text "    command:"
    ∷ text "      - -config"
    ∷ text "      - test/config/pebble-config.json"
    ∷ text "      - -dnsserver"
    ∷ text "      - challtestsrv:8053"
    ∷ text "    environment:"
    ∷ text "      PEBBLE_VA_NOSLEEP: \"1\""
    ∷ text "      PEBBLE_WFE_NONCEREJECT: \"0\""
    ∷ text "    ports:"
    ∷ text "      - \"14000:14000\""
    ∷ text "      - \"15000:15000\""
    ∷ text "    depends_on:"
    ∷ text "      - challtestsrv"
    ∷ text "    extra_hosts:"
    ∷ text "      - \"host.docker.internal:host-gateway\""
    ∷ text "    networks:"
    ∷ text "      - acmenet"
    ∷ []
    ∷ text "  challtestsrv:"
    ∷ text "    image: ghcr.io/letsencrypt/pebble-challtestsrv:latest"
    ∷ text "    container_name: acme-testing-challtestsrv"
    ∷ (text "    # `-dnsserver :8053` " ++ em_dash ++ text " the mock DNS server Pebble queries.")
    ∷ (text "    # `-management :8055` " ++ em_dash ++ text " HTTP admin API the harness POSTs to.")
    ∷ text "    # Everything else (`-http01`, `-https01`, `-tlsalpn01`, `-doh`) is"
    ∷ text "    # disabled with an empty string so challtestsrv doesn't collide with"
    ∷ text "    # ports the test's own responders bind on the host."
    ∷ text "    command:"
    ∷ text "      - -defaultIPv4"
    ∷ text "      - \"\""
    ∷ text "      - -defaultIPv6"
    ∷ text "      - \"\""
    ∷ text "      - -management"
    ∷ text "      - :8055"
    ∷ text "      - -dnsserver"
    ∷ text "      - :8053"
    ∷ text "      - -http01"
    ∷ text "      - \"\""
    ∷ text "      - -https01"
    ∷ text "      - \"\""
    ∷ text "      - -tlsalpn01"
    ∷ text "      - \"\""
    ∷ text "      - -doh"
    ∷ text "      - \"\""
    ∷ text "    ports:"
    ∷ text "      - \"8055:8055\""
    ∷ text "    extra_hosts:"
    ∷ text "      - \"host.docker.internal:host-gateway\""
    ∷ text "    networks:"
    ∷ text "      - acmenet"
    ∷ []
    ∷ text "networks:"
    ∷ text "  acmenet:"
    ∷ text "    driver: bridge"
    ∷ []

unfoldable pub compose_yaml : Text
unfolding compose_lines
compose_yaml = join (10 ∷ []) compose_lines ++ 10 ∷ []
