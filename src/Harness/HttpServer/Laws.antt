-- ===== src/Harness/HttpServer/Laws.antt =====
-- While the solver of crates/testing/src/http_server.rs is armed, the server answers the probe.
use acme_wasm.Prelude.{
  ℕ, ◌≡◌, refl, sym, ap, ◌∙◌, ◌≢◌, Bool, true, false, not, ◌&&◌, none, some, [], ◌∷◌, ◌++◌,
  append_assoc, arith, leb, ◌==◌, if◌then◌else◌, drop, any, any-append, any-weaken, Bytes, Text,
  text, ◌is◌, strip_prefix, strip_prefix-append, before, before-append, from_utf8-ascii, ok,
}
use acme_wasm.Core.Crates.{Crates}
use acme_wasm.Core.Jws.{AccountKey, key_thumbprint}
use acme_wasm.Core.Challenge.{ChallengeReady, compute_key_authorization}
use acme_wasm.Core.Records.Order.{Identifier}
use acme_wasm.Http01.{respond, path, response_body}
use acme_wasm.Harness.HttpServer.{
  TokenMap, lookup, insert, remove, write_response, not_found, look_up, dispatch_words, dispatch,
  readable, drain, respond_to, handle_connection, http01_ready, http01_solver,
}
use acme_wasm.Harness.HttpServer.Words.{
  emit, split_whitespace, split_lines, visible, split_whitespace-append, split_lines-append,
}
use acme_wasm.Harness.HttpServer.Entries.{lookup-insert, lookup-remove, lookup-remove-insert}

-- The head of a probe.
abbrev pub protocol : Text
protocol = text "HTTP/1.1" ++ 13 ∷ []

-- A GET request for a path, and what follows its first line.
abbrev pub request_line : Text → Text
request_line path = text "GET" ++ 32 ∷ (path ++ 32 ∷ protocol)

abbrev pub probe : Text → Bytes → Bytes
probe path rest = request_line path ++ 10 ∷ rest

module _ (target rest : Text) (seen : any (λ c. not (visible c)) target ≡ false) where
  no_newline : any (λ c. c == 10) (request_line target) ≡ false
  unfolding text
  no_newline =
      any-append (λ c. c == 10) target (32 ∷ protocol)
        (any-weaken (λ c. not (visible c)) (λ c. c == 10) target (λ c h. ground (arith, h)) seen)
        refl

  ascii : any (λ c. not (leb c 0x7F)) (request_line target ++ 10 ∷ []) ≡ false
  unfolding text
  ascii =
      any-append (λ c. not (leb c 0x7F)) (request_line target) (10 ∷ [])
        (any-append (λ c. not (leb c 0x7F)) target (32 ∷ protocol)
          (any-weaken (λ c. not (visible c)) (λ c. not (leb c 0x7F)) target
            (λ c h. ground (arith, h)) seen)
          refl)
        refl

  -- The words of the request line.
  words :
      split_whitespace (request_line target ++ 10 ∷ [])
      ≡ text "GET" ∷ emit target (split_whitespace (protocol ++ 10 ∷ []))
  unfolding text
  words =
      ap (λ l. split_whitespace (text "GET" ++ 32 ∷ l))
        (append_assoc target (32 ∷ protocol) (10 ∷ []))
      ∙ split_whitespace-append (text "GET") target (protocol ++ 10 ∷ []) refl seen

  readable-request_line : readable (request_line target ++ 10 ∷ []) ≡ true
  readable-request_line =
      ap (λ o. elim o as (λ _. Bool) [ some s ↦ true | none ↦ false ])
        (from_utf8-ascii (request_line target ++ 10 ∷ []) ascii)

  handle_connection-probe :
      (m : TokenMap)
      → drain (split_lines rest) ≡ true
      → handle_connection (probe target rest) m ≡ some (dispatch (request_line target ++ 10 ∷ []) m)
  unfolding handle_connection respond_to
  handle_connection-probe m drained =
      ap (λ lines. respond_to lines m) (split_lines-append (request_line target) rest no_newline)
      ∙ ap
          (λ b.
            if b && drain (split_lines rest)
            then some (dispatch (request_line target ++ 10 ∷ []) m)
            else none)
          readable-request_line
      ∙ ap (λ b. if b then some (dispatch (request_line target ++ 10 ∷ []) m) else none) drained

  -- The request is looked up by its path.
  pub handle_connection-path :
      (m : TokenMap) (c : ℕ) (s : Text)
      → target ≡ c ∷ s
      → drain (split_lines rest) ≡ true
      → handle_connection (probe target rest) m
        ≡ some (look_up (strip_prefix (text "/.well-known/acme-challenge/") target) m)
  unfolding dispatch dispatch_words text ◌is◌
  handle_connection-path m c s shape drained =
      handle_connection-probe m drained
      ∙ ap (λ ws. some (dispatch_words ws m))
          (words ∙ ap (λ t. text "GET" ∷ emit t (split_whitespace (protocol ++ 10 ∷ []))) shape)
      ∙ ap (λ t. some (look_up (strip_prefix (text "/.well-known/acme-challenge/") t) m))
          (sym shape)

abbrev pub well_known : Text
well_known = text "/.well-known/acme-challenge/"

-- What the probe of a token is answered.
pub probe-token :
    (token rest : Text) (m : TokenMap)
    → any (λ c. not (visible c)) token ≡ false
    → drain (split_lines rest) ≡ true
    → handle_connection (probe (well_known ++ token) rest) m ≡ some (look_up (some token) m)
unfolding text
probe-token token rest m seen drained =
    handle_connection-path (well_known ++ token) rest
      (any-append (λ c. not (visible c)) well_known token refl seen) m b'/'
      (drop 1 (well_known ++ token)) refl drained
    ∙ ap (λ p. some (look_up p m)) (strip_prefix-append well_known token)

-- The solver, armed in `w` for a response, leads to `v` and can be torn down from there.
pub record Serves {V : Type 0} (identifier : Identifier) (token path body rest : Text)
    (w : TokenMap × V) : Type 0 where
  pub ready : ChallengeReady (TokenMap × V)
  pub armed : TokenMap × V
  pub arms : http01_solver.arm identifier body w ≡ (ok ready, armed)
  pub answers :
      handle_connection (probe path rest) armed.0 ≡ some (write_response 200 (text "OK") body)
  pub torn_down : handle_connection (probe path rest) (ready.drop armed).0 ≡ some not_found
  pub others : (other : Text) → other ≢ token → lookup other (ready.drop armed).0 ≡ lookup other w.0

-- For a token of visible ASCII characters without a dot, and headers that can be read: after the
-- solver was armed with the body that challenge-http-01 gives, a GET of the path that it gives is
-- answered 200 with that body, and after the handle was dropped, 404; the entries for other tokens
-- are then as they were before.
pub respond-Serves :
    {V : Type 0} (c : Crates) (token : Text) (key : AccountKey c) (identifier : Identifier)
    (rest : Text) (w : TokenMap × V)
    → any (λ b. b == b'.') token ≡ false
    → any (λ b. not (visible b)) token ≡ false
    → drain (split_lines rest) ≡ true
    → Serves identifier token (respond c token key).path (respond c token key).body rest w
unfolding respond path response_body compute_key_authorization look_up text
respond-Serves c token key identifier rest w plain seen drained =
    let body = compute_key_authorization c token key in
    let short : before b'.' body ≡ token =
      ap (before b'.') (append_assoc token (b'.' ∷ []) (key_thumbprint c key))
      ∙ before-append b'.' token (key_thumbprint c key) plain in
    record {
      ready = http01_ready token;
      armed = (insert token body w.0, w.1);
      arms = ap (λ t. (ok (http01_ready t), (insert t body w.0, w.1))) short;
      answers =
          probe-token token rest (insert token body w.0) seen drained
          ∙ ap
              (λ o. some (elim o as (λ _. Bytes) [
                | some b ↦ write_response 200 (text "OK") b
                | none ↦ not_found
              ]))
              (lookup-insert token body w.0);
      torn_down =
          probe-token token rest (remove token (insert token body w.0)) seen drained
          ∙ ap
              (λ o. some (elim o as (λ _. Bytes) [
                | some b ↦ write_response 200 (text "OK") b
                | none ↦ not_found
              ]))
              (lookup-remove token (insert token body w.0));
      others = λ other apart. lookup-remove-insert other token body w.0 apart;
    }
