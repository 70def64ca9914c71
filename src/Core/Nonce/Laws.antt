-- ===== src/Core/Nonce/Laws.antt =====
-- What the nonce pool promises: a queue, which the network fills only when it is empty.
use acme_wasm.Prelude.{
  ◌≡◌, refl, ◌∙◌, ◌≢◌, ◌↔◌, ◌⊎◌, inl, inr, true, false, not, List, [], ◌∷◌, ◌++◌, append-nil,
  append_assoc, arith, is_empty, retain, Text, text, Result, ok, err,
}
use acme_wasm.Core.Error.{AcmeError}
use acme_wasm.Core.Transport.{HttpResponse, headers_all, is_success}
use acme_wasm.Core.Program.{State, done, fails, out_of_fuel}
use acme_wasm.Core.Nonce.{ReplayNonceStore, missing_nonce, bad_status, push_all, absorb_pool, get}

-- The nonces that a response brings, in order.
abbrev pub fresh : HttpResponse → List Text
fresh r = retain (λ v. not (is_empty v)) (headers_all r (text "Replay-Nonce"))

push_all-append :
    (pool vs : List Text) → push_all pool vs ≡ pool ++ retain (λ v. not (is_empty v)) vs
unfolding push_all
push_all-append pool [] = rw append-nil refl
push_all-append pool ([] ∷ vs) = push_all-append pool vs
push_all-append pool ((c ∷ v) ∷ vs) =
    push_all-append (pool ++ (c ∷ v) ∷ []) vs ∙ append_assoc pool ((c ∷ v) ∷ []) _

-- Absorbing a response appends its nonces, in order, and drops the empty values.
pub absorb_pool-append :
    (r : HttpResponse) (pool : List Text) → absorb_pool r pool ≡ pool ++ fresh r
unfolding absorb_pool
absorb_pool-append r pool = push_all-append pool (headers_all r (text "Replay-Nonce"))

module _ {W : Type 0} (store : ReplayNonceStore W) where
  pub get_cached :
      (n : Text) (s : State W) {rest : List Text}
      → s.pool ≡ n ∷ rest
      → get store s ≡ done n (record s { pool = rest })
  unfolding get
  get_cached n s h = ground arith

  -- the answer to the HEAD request on an empty pool
  abbrev pub fetched : State W → Result HttpResponse AcmeError × W
  fetched s = store.transport.head store.new_nonce_url s.world

  pub get_refilled :
      (s : State W) (r : HttpResponse) (w : W)
      → s.pool ≡ []
      → fetched s ≡ (ok r, w)
      → is_success r.status ≡ true
      → (fresh r ≡ [] → get store s ≡ fails missing_nonce (record { pool = []; world = w }))
        × ((n : Text) (rest : List Text)
            → fresh r ≡ n ∷ rest
            → get store s ≡ done n (record { pool = rest; world = w }))
  unfolding get
  get_refilled s r w h f g = (
    λ e. ground (arith, absorb_pool-append r []),
    λ n rest e. ground (arith, absorb_pool-append r []),
  )

  -- How a nonce comes about: from the front of the pool with the world untouched, or as the first
  -- nonce of a successful HEAD response, whose other nonces are the new pool.
  abbrev pub Got : State W → Text → State W → Type 0
  Got s n t =
      ((s.pool ≡ n ∷ t.pool) × (s.world ≡ t.world))
      ⊎ ((r : HttpResponse) × (s.pool ≡ [])
          × (fetched s ≡ (ok r, t.world))
          × (is_success r.status ≡ true)
          × (fresh r ≡ n ∷ t.pool))

  get_on :
      (p : List Text) (s : State W)
      → s.pool ≡ p
      → (n : Text) (t : State W) → get store s ≡ done n t
      → Got s n t
  unfolding get
  get_on (m ∷ p) s h n t e = inl (ground arith)
  get_on [] s h n t e = inr (go (fetched s) refl)
    where
      go :
          (f : Result HttpResponse AcmeError × W)
          → fetched s ≡ f
          → (r : HttpResponse) × (s.pool ≡ [])
            × (fetched s ≡ (ok r, t.world))
            × (is_success r.status ≡ true)
            × (fresh r ≡ n ∷ t.pool)
      go (ok r, w) q = (
        r,
        h,
        ground (arith, absorb_pool-append r []),
        ground (arith, absorb_pool-append r []),
        ground (arith, absorb_pool-append r []),
      )
      go (err x, w) q = ground arith

  -- `get` returns a nonce exactly in one of these two ways.
  pub get-eq-done_iff :
      (s : State W) (n : Text) (t : State W) → (get store s ≡ done n t) ↔ Got s n t
  get-eq-done_iff s n t = (
    get_on s.pool s refl n t,
    λ g. elim g [
      | inl (p, w) ↦ rw (get_cached n s p) (ground arith)
      | inr (r, p, f, success, q) ↦ (get_refilled s r t.world p f success).1 n t.pool q
    ],
  )

  -- Why `get` fails: the pool was empty, and the HEAD request failed, or answered outside 2xx, or
  -- brought no nonce. The pool is still empty then.
  abbrev pub Failed : State W → AcmeError → State W → Type 0
  Failed s e t =
      (s.pool ≡ [])
      × (t.pool ≡ [])
      × ((fetched s ≡ (err e, t.world))
          ⊎ ((r : HttpResponse) × (fetched s ≡ (ok r, t.world))
              × (((is_success r.status ≡ false) × (e ≡ bad_status r.status))
                  ⊎ ((is_success r.status ≡ true) × (fresh r ≡ []) × (e ≡ missing_nonce)))))

  get_fails_on :
      (p : List Text) (s : State W)
      → s.pool ≡ p
      → (f : Result HttpResponse AcmeError × W) → fetched s ≡ f
      → (e : AcmeError) (t : State W) → get store s ≡ fails e t
      → Failed s e t
  unfolding get
  get_fails_on (m ∷ p) s h f q e t g = ground arith
  get_fails_on [] s h (err x, w) q e t g = ground arith
  get_fails_on [] s h (ok r, w) q e t g = (
    h,
    ground (arith, absorb_pool-append r []),
    inr (r, ground arith, ground (arith, absorb_pool-append r [])),
  )

  pub get-eq-fails :
      (s : State W) (e : AcmeError) (t : State W) → get store s ≡ fails e t → Failed s e t
  get-eq-fails s e t h = get_fails_on s.pool s refl (fetched s) refl e t h

  -- The loop-free `get` always ends.
  pub get-ends : (s : State W) → get store s ≢ out_of_fuel
  unfolding get
  get-ends s h = ground arith
