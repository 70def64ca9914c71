-- ===== src/Core/Nonce/Queue.antt =====
-- The pool over any history of responses and requests: a queue of nonces that are not empty.
use acme_wasm.Prelude.{
  ◌≡◌, refl, sym, ap, ◌∙◌, inl, inr, false, not, List, [], ◌∷◌, ◌++◌, append-nil, append_assoc,
  is_empty, retain, All, All-append, Text, text, Result, ok, err,
}
use acme_wasm.Core.Error.{AcmeError}
use acme_wasm.Core.Transport.{HttpResponse, headers_all}
use acme_wasm.Core.Program.{State, done}
use acme_wasm.Core.Nonce.{ReplayNonceStore, absorb_pool, get}
use acme_wasm.Core.Nonce.Laws.{fresh, absorb_pool-append, fetched, get-eq-done_iff}

abbrev pub fresh_of : {W : Type 0} → Result HttpResponse AcmeError × W → List Text
fresh_of (ok r, w) = fresh r
fresh_of (err e, w) = []

module _ {W : Type 0} (store : ReplayNonceStore W) where
  -- the nonces that a `get` brings in from the network
  abbrev pub fetched_by : List Text → State W → List Text
  fetched_by [] s = fresh_of (fetched store s)
  fetched_by (n ∷ p) s = []

  -- A history from one state to another: the nonces received from the CA and the nonces handed
  -- out, each in order. The world may change between two calls.
  pub data History : State W → List Text → List Text → State W → Type 0 where
    start : (s : State W) → History s [] [] s
    absorbed :
        {s t : State W} {received given : List Text} (r : HttpResponse)
        → History s received given t
        → History s (received ++ fresh r) given (record t { pool = absorb_pool r t.pool })
    obtained :
        {s t u : State W} {received given : List Text} {n : Text}
        → History s received given t
        → get store t ≡ done n u
        → History s (received ++ fetched_by t.pool t) (given ++ n ∷ []) u
    elsewhere :
        {s t : State W} {received given : List Text} (w : W)
        → History s received given t
        → History s received given (record t { world = w })

  get-conserves :
      (t : State W) {n : Text} {u : State W}
      → get store t ≡ done n u
      → t.pool ++ fetched_by t.pool t ≡ n ∷ u.pool
  get-conserves t {n} {u} h = elim ((get-eq-done_iff store t n u).0 h) [
    | inl (p, w) ↦ rw (p, append-nil) refl
    | inr (r, p, f, success, q) ↦ rw (p, f) q
  ]

  -- Over any history of absorbed responses and obtained nonces, the nonces handed out, followed by
  -- the pool, are the first pool followed by the nonces received: first in, first out, and each nonce
  -- received is handed out at most once.
  pub History-conserves :
      {s t : State W} {received given : List Text}
      → History s received given t
      → s.pool ++ received ≡ given ++ t.pool
  History-conserves (start s) = append-nil s.pool
  History-conserves {s} (absorbed {t} {received} {given} r h) = rw absorb_pool-append (
      sym (append_assoc s.pool received (fresh r))
      ∙ ap (λ l. l ++ fresh r) (History-conserves h)
      ∙ append_assoc given t.pool (fresh r))
  History-conserves {s} (obtained {t} {u} {received} {given} {n} h g) =
      sym (append_assoc s.pool received (fetched_by t.pool t))
      ∙ ap (λ l. l ++ fetched_by t.pool t) (History-conserves h)
      ∙ append_assoc given t.pool (fetched_by t.pool t)
      ∙ ap (λ l. given ++ l) (get-conserves t g)
      ∙ sym (append_assoc given (n ∷ []) u.pool)
  History-conserves (elsewhere w h) = History-conserves h

-- No nonce in the pool is empty.
abbrev pub IsValid : List Text → Type 0
IsValid = All (λ n. is_empty n ≡ false)

retain-IsValid : (vs : List Text) → IsValid (retain (λ v. not (is_empty v)) vs)
retain-IsValid [] = tt
retain-IsValid ([] ∷ vs) = retain-IsValid vs
retain-IsValid ((c ∷ v) ∷ vs) = (refl, retain-IsValid vs)

pub absorb_pool-IsValid :
    (r : HttpResponse) (pool : List Text) → IsValid pool → IsValid (absorb_pool r pool)
absorb_pool-IsValid r pool h = rw absorb_pool-append (
    All-append (λ n. is_empty n ≡ false) pool (fresh r) h
      (retain-IsValid (headers_all r (text "Replay-Nonce"))))

-- From a valid pool `get` returns a nonce that is not empty, and leaves a valid pool.
pub get-IsValid :
    {W : Type 0} (store : ReplayNonceStore W) (s t : State W) (n : Text)
    → IsValid s.pool
    → get store s ≡ done n t
    → (is_empty n ≡ false) × IsValid t.pool
get-IsValid store s t n v h = elim ((get-eq-done_iff store s n t).0 h) [
  | inl (p, w) ↦ rw p at v
  | inr (r, p, f, success, q) ↦ rw q at (retain-IsValid (headers_all r (text "Replay-Nonce")))
]
