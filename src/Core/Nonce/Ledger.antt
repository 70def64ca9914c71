-- ===== src/Core/Nonce/Ledger.antt =====
-- Where the nonces of signed requests come from. A ledger observes the world: the nonces in the CA's
-- answers to HEAD and POST requests, and the bodies of the POST requests sent.
use mathlib.Core.Path
use acme_wasm.Prelude.{
  ◌≡◌, sym, ap, ◌∙◌, Option, List, [], ◌∷◌, ◌++◌, append-nil, append_assoc, Bytes, Text, ok,
}
use acme_wasm.Core.Json.{Value}
use acme_wasm.Core.Transport.{HttpResponse, HttpClient}
use acme_wasm.Core.Crates.{Crates}
use acme_wasm.Core.Program.{State}
use acme_wasm.Core.Jws.{AccountKey, sign_jws_inner}
use acme_wasm.Core.Nonce.Laws.{fresh}
use acme_wasm.Core.Nonce.Queue.{fresh_of}

pub record Ledger (W : Type 0) : Type 0 where
  pub received : W → List Text
  pub posted : W → List Bytes

-- The ledger keeps its record of what the client does.
pub record Observes {W : Type 0} (ledger : Ledger W) (client : HttpClient W) : Type 0 where
  pub heads :
      (url : Text) (w : W)
      → (ledger.received (client.head url w).1 ≡ ledger.received w ++ fresh_of (client.head url w))
        × (ledger.posted (client.head url w).1 ≡ ledger.posted w)
  pub gets :
      (url : Text) (w : W)
      → (ledger.received (client.get url w).1 ≡ ledger.received w)
        × (ledger.posted (client.get url w).1 ≡ ledger.posted w)
  pub posts :
      (url : Text) (body : Bytes) (w : W)
      → (ledger.received (client.post_jose url body w).1
          ≡ ledger.received w ++ fresh_of (client.post_jose url body w))
        × (ledger.posted (client.post_jose url body w).1 ≡ ledger.posted w ++ body ∷ [])

-- The request was signed with this nonce in its protected header.
pub record Carries (c : Crates) (jws : Bytes) (nonce : Text) : Type 0 where
  pub payload : Bytes
  pub url : Text
  pub jwk : Option Value
  pub kid : Option Text
  pub key : AccountKey c
  pub signed : sign_jws_inner c payload url nonce jwk kid key ≡ ok jws

-- The requests, in order, and the nonces that are used up, in order: each request carries one of the
-- nonces, and no nonce is for two requests. A nonce may also be dropped.
pub data Spent (c : Crates) : List Bytes → List Text → Type 0 where
  nothing : Spent c [] []
  dropped :
      (posts : List Bytes) (used : List Text) (n : Text)
      → Spent c posts used
      → Spent c posts (used ++ n ∷ [])
  spent :
      (posts : List Bytes) (used : List Text) (jws : Bytes) (n : Text)
      → Spent c posts used
      → Carries c jws n
      → Spent c (posts ++ jws ∷ []) (used ++ n ∷ [])

module _ (c : Crates) {W : Type 0} (ledger : Ledger W) where
  -- The nonces received are those used up, then `held`.
  pub record Holds (held : List Text) (w : W) : Type 0 where
    pub used : List Text
    pub split : ledger.received w ≡ used ++ held
    pub spending : Spent c (ledger.posted w) used

  -- What is not used up is in the pool.
  abbrev pub Accounts : State W → Type 0
  Accounts s = Holds s.pool s.world

  -- The nonce `n` was taken from the pool, for the next request.
  abbrev pub Pending : Text → State W → Type 0
  Pending n s = Holds (n ∷ s.pool) s.world

  -- The nonces of the response are still to be absorbed.
  abbrev pub Awaiting : HttpResponse → State W → Type 0
  Awaiting r s = Holds (s.pool ++ fresh r) s.world

  pub drop_all :
      (posts : List Bytes) (used ns : List Text) → Spent c posts used → Spent c posts (used ++ ns)
  drop_all posts used [] h = Path.subst (Spent c posts) (sym (append-nil used)) h
  drop_all posts used (n ∷ ns) h =
      Path.subst (Spent c posts) (append_assoc used (n ∷ []) ns)
        (drop_all posts (used ++ n ∷ []) ns (dropped posts used n h))

  -- All that is held may be given up.
  pub give_up : (held : List Text) (w : W) → Holds held w → Holds [] w
  give_up held w h = record {
    used = h.used ++ held;
    split = h.split ∙ sym (append-nil (h.used ++ held));
    spending = drop_all (ledger.posted w) h.used held h.spending;
  }

  -- The front may be given up.
  pub skip : (n : Text) (held : List Text) (w : W) → Holds (n ∷ held) w → Holds held w
  skip n held w h = record {
    used = h.used ++ n ∷ [];
    split = h.split ∙ sym (append_assoc h.used (n ∷ []) held);
    spending = dropped (ledger.posted w) h.used n h.spending;
  }

  -- The world may change where the ledger does not look, and receive more nonces.
  pub receive :
      (held more : List Text) (w v : W)
      → ledger.received v ≡ ledger.received w ++ more
      → ledger.posted v ≡ ledger.posted w
      → Holds held w
      → Holds (held ++ more) v
  receive held more w v e f h = record {
    used = h.used;
    split = e ∙ ap (λ l. l ++ more) h.split ∙ append_assoc h.used held more;
    spending = Path.subst⁻¹ (λ posts. Spent c posts h.used) f h.spending;
  }

  -- An action that brings the nonces `more` in.
  pub received_by :
      {A : Type 0} (act : W → A × W) (more : A × W → List Text) (held : List Text) (w : W)
      (out : A × W)
      → (ledger.received (act w).1 ≡ ledger.received w ++ more (act w))
        × (ledger.posted (act w).1 ≡ ledger.posted w)
      → act w ≡ out
      → Holds held w
      → Holds (held ++ more out) out.1
  received_by act more held w out (r, p) e h =
      Path.subst (λ o. Holds (held ++ more o) o.1) e (receive held (more (act w)) w (act w).1 r p h)
