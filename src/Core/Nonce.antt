-- ===== src/Core/Nonce.antt =====
-- crates/core/src/nonce.rs: the pool of replay nonces, a first-in-first-out queue.
pub mod Laws
pub mod Queue
pub mod Keeps
pub mod Ledger
pub mod Bookkeeping
mod Tests
use acme_wasm.Prelude.{
  ℕ, Bool, not, Option, none, some, List, [], ◌∷◌, ◌++◌, if◌then◌else◌, is_empty, Text, text,
  decimal,
}
use acme_wasm.Core.Error.{AcmeError, transport, missing_field}
use acme_wasm.Core.Transport.{HttpResponse, headers_all, is_success, HttpClient}
use acme_wasm.Core.Program.{State, Outcome, done, Program, pure, throw, io, ◌>>=◌, ◌>>◌}

-- `ReplayNonceStore` without its pool, which is in the state.
pub record ReplayNonceStore (W : Type 0) : Type 0 where
  pub new_nonce_url : Text
  pub transport : HttpClient W

abbrev missing_nonce : AcmeError
missing_nonce = missing_field (text "Replay-Nonce on newNonce response")

abbrev bad_status : ℕ → AcmeError
bad_status status = transport (text "newNonce HEAD returned status " ++ decimal status)

-- the loop of `absorb`: every value that is not empty goes to the back
unfoldable pub push_all : List Text → List Text → List Text
push_all pool [] = pool
push_all pool (value ∷ values) =
    push_all (if not (is_empty value) then pool ++ value ∷ [] else pool) values

unfoldable pub absorb_pool : HttpResponse → List Text → List Text
unfolding push_all
absorb_pool response pool = push_all pool (headers_all response (text "Replay-Nonce"))

module _ {W : Type 0} where
  -- `ReplayNonceStore::new`: the pool of the new store is empty.
  unfoldable pub new : Text → HttpClient W → Program W (ReplayNonceStore W)
  new new_nonce_url client s =
      done (record { new_nonce_url = new_nonce_url; transport = client }) (record s { pool = [] })

  unfoldable pub absorb : HttpResponse → Program W Unit
  absorb response s = done tt (record s { pool = absorb_pool response s.pool })

  unfoldable pub clear : Program W Unit
  clear s = done tt (record s { pool = [] })

  unfoldable pub is_pool_empty : Program W Bool
  is_pool_empty s = done (is_empty s.pool) s

  unfoldable pub pop : List Text → State W → Outcome (State W) (Option Text)
  pop [] s = done none s
  pop (n ∷ pool) s = done (some n) (record s { pool = pool })

  unfoldable pub pop_front : Program W (Option Text)
  unfolding pop
  pop_front s = pop s.pool s

  unfoldable pub refill : ReplayNonceStore W → Program W Unit
  unfolding absorb is_pool_empty
  refill store = do
    response ← io (store.transport.head store.new_nonce_url)
    if not (is_success response.status) then throw (bad_status response.status) else do
      absorb response
      empty ← is_pool_empty
      if empty then throw missing_nonce else pure tt

  unfoldable pub got : Option Text → Program W Text → Program W Text
  got (some n) otherwise = pure n
  got none otherwise = otherwise

  unfoldable pub get : ReplayNonceStore W → Program W Text
  unfolding pop_front refill got
  get store = do
    first ← pop_front
    got first (do refill store; second ← pop_front; got second (throw missing_nonce))
