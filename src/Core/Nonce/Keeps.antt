-- ===== src/Core/Nonce/Keeps.antt =====
-- A property of the world outside is kept by the operations of the pool, if the HEAD request keeps
-- it; so it is by a signed POST, if the request itself keeps it too.
use acme_wasm.Prelude.{Option, none, some, List, [], ◌∷◌, Text, Result}
use acme_wasm.Core.Error.{AcmeError}
use acme_wasm.Core.Transport.{HttpResponse, HttpClient}
use acme_wasm.Core.Program.{State, Program, throw, io}
use acme_wasm.Core.Program.Keeps.{
  Post, Keeps, Keeps-pure, Keeps-throw, Keeps-io, Keeps-bind, keeps_rules,
}
use acme_wasm.Core.Nonce.{
  ReplayNonceStore, missing_nonce, new, absorb, is_pool_empty, pop, pop_front, refill, got, get,
}

abbrev pub OfWorld : {W : Type 0} → (W → Type 0) → State W → Type 0
OfWorld P s = P s.world

-- An action keeps a property of the world.
abbrev pub Quiet : {W A : Type 0} → (W → Type 0) → (W → A × W) → Type 0
Quiet {W} P act = (w : W) → P w → P (act w).1

module _ {W : Type 0} (Cut : Type 0) (P : W → Type 0) where
  pub Keeps-Quiet :
      {A : Type 0} (act : W → Result A AcmeError × W) → Quiet P act → Keeps Cut (OfWorld P) (io act)
  Keeps-Quiet act q = Keeps-io act (record { at = λ s h. q s.world h })

  pub absorb-Keeps : (r : HttpResponse) → Keeps Cut (OfWorld P) (absorb r)
  unfolding absorb
  absorb-Keeps r = record { at = λ s h. h }

  pub new-Keeps : (url : Text) (client : HttpClient W) → Keeps Cut (OfWorld P) (new url client)
  unfolding new
  new-Keeps url client = record { at = λ s h. h }

  is_pool_empty-Keeps : Keeps Cut (OfWorld P) is_pool_empty
  unfolding is_pool_empty
  is_pool_empty-Keeps = record { at = λ s h. h }

  pop_on : (p : List Text) (s : State W) → P s.world → Post Cut (OfWorld P) (pop p s)
  unfolding pop
  pop_on [] s h = h
  pop_on (n ∷ p) s h = h

  pop_front-Keeps : Keeps Cut (OfWorld P) pop_front
  unfolding pop_front
  pop_front-Keeps = record { at = λ s h. pop_on s.pool s h }

  got-Keeps :
      (o : Option Text) (m : Program W Text)
      → Keeps Cut (OfWorld P) m
      → Keeps Cut (OfWorld P) (got o m)
  unfolding got
  got-Keeps (some n) m k = Keeps-pure n
  got-Keeps none m k = k

  refill-Keeps :
      (store : ReplayNonceStore W)
      → Quiet P (store.transport.head store.new_nonce_url)
      → Keeps Cut (OfWorld P) (refill store)
  unfolding refill
  refill-Keeps store q =
      search (keeps_rules, Keeps-Quiet, absorb-Keeps, is_pool_empty-Keeps, q) depth 12

  pub get-Keeps :
      (store : ReplayNonceStore W)
      → Quiet P (store.transport.head store.new_nonce_url)
      → Keeps Cut (OfWorld P) (get store)
  unfolding get
  get-Keeps store q = Keeps-bind pop_front _ pop_front-Keeps λ first. got-Keeps first _ (
      Keeps-bind (refill store) _ (refill-Keeps store q) λ _.
        Keeps-bind pop_front _ pop_front-Keeps
          λ second. got-Keeps second (throw missing_nonce) (Keeps-throw missing_nonce))
