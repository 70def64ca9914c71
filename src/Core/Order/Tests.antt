-- ===== src/Core/Order/Tests.antt =====
-- Orders of the sample server.
use acme_wasm.Prelude.{
  ℕ, ◌+◌, ◌≡◌, ◌↔◌, ◌⊎◌, inr, refl, none, [], ◌∷◌, text, ◌is◌, to_lower, eq_ignore_ascii_case, ok,
}
use acme_wasm.Core.Transport.{HttpResponse, HttpClient, header, headers_all, check}
use acme_wasm.Core.Program.{State, done, fails}
use acme_wasm.Core.Nonce
use acme_wasm.Core.Nonce.{refill, pop_front, pop, push_all, got, absorb, absorb_pool, is_pool_empty}
use acme_wasm.Core.Jws.{sign_jws_with_kid, sign_jws_inner, sign_bytes, alg}
use acme_wasm.Core.Account.{post_kid}
use acme_wasm.Core.Order.{create, order_payload}
use acme_wasm.Core.Order.Laws.{Created, create-eq-done}
use acme_wasm.Core.Order.Failures.{no_location, Rejected, unlocated, create-eq-fails_iff}
use acme_wasm.Core.Sample.{order, crates, client, account, begin}

abbrev after_create : State ℕ
after_create = record { pool = text "n1" ∷ []; world = 2 }

created : create crates account [] client begin ≡ done order after_create
unfolding create post_kid Nonce.get refill pop_front pop push_all got absorb absorb_pool
    is_pool_empty headers_all header eq_ignore_ascii_case to_lower text ◌is◌ sign_jws_with_kid
    sign_jws_inner sign_bytes alg check
created = refl

create-eq-done_example : Created crates account client [] begin order after_create
create-eq-done_example = create-eq-done crates account client [] order begin after_create created

-- a server that refuses orders, with a problem
abbrev refusal : HttpResponse
refusal = record {
  status = 403;
  headers = (text "Content-Type", text "application/problem+json") ∷ [];
  body = [];
}

abbrev refusing : HttpClient ℕ
refusing = record {
  head = client.head;
  get = client.get;
  post_jose = λ url body w. (ok refusal, w + 1);
}

refused_post :
    post_kid crates account account.directory.new_order
      (crates.value_bytes (order_payload []))
      refusing
      begin
    ≡ done refusal (record { pool = []; world = 2 })
unfolding create post_kid Nonce.get refill pop_front pop push_all got absorb absorb_pool
    is_pool_empty headers_all header eq_ignore_ascii_case to_lower text ◌is◌ sign_jws_with_kid
    sign_jws_inner sign_bytes alg check
refused_post = refl

no_header : header refusal (text "Location") ≡ none
unfolding header eq_ignore_ascii_case to_lower text ◌is◌
no_header = refl

abbrev after_refusal : State ℕ
after_refusal = record { pool = []; world = 2 }

create-eq-fails_iff_example :
    (create crates account [] refusing begin ≡ fails no_location after_refusal) ↔ (
      (post_kid crates account account.directory.new_order
          (crates.value_bytes (order_payload []))
          refusing
          begin
        ≡ fails no_location after_refusal)
      ⊎ ((response : HttpResponse) × (post_kid crates account account.directory.new_order
              (crates.value_bytes (order_payload []))
              refusing
              begin
            ≡ done response after_refusal)
          × Rejected crates response no_location))
create-eq-fails_iff_example =
    create-eq-fails_iff crates account refusing [] begin after_refusal no_location

-- The problem of the refusal is not reported.
refused_create : create crates account [] refusing begin ≡ fails no_location after_refusal
refused_create = create-eq-fails_iff_example.1 (inr (refusal, refused_post, unlocated no_header))
