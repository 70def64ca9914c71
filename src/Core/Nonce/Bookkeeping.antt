-- ===== src/Core/Nonce/Bookkeeping.antt =====
-- The operations of crates/core/src/nonce.rs, and a signed request, keep the account of the ledger.
use mathlib.Core.Path
use acme_wasm.Prelude.{
  ◌≡◌, refl, sym, ap, ◌∙◌, inl, inr, List, [], ◌∷◌, ◌++◌, append-nil, append_assoc, Bytes, Text,
  Result, ok, err,
}
use acme_wasm.Core.Error.{AcmeError}
use acme_wasm.Core.Transport.{HttpResponse, HttpClient}
use acme_wasm.Core.Program.Keeps.{Keeps}
use acme_wasm.Core.Program.Triples.{Ends, Triple, Triple-bind, Triple-Keeps}
use acme_wasm.Core.Crates.{Crates}
use acme_wasm.Core.Program.{
  State, Outcome, done, fails, out_of_fuel, Program, settle, io, ◌>>=◌, ◌>>◌,
}
use acme_wasm.Core.Nonce.{ReplayNonceStore, new, absorb, get}
use acme_wasm.Core.Nonce.Ledger.{
  Ledger, Observes, Carries, Spent, spent, Holds, Accounts, Pending, Awaiting, give_up, received_by,
}
use acme_wasm.Core.Nonce.Laws.{
  fresh, absorb_pool-append, fetched, Got, get-eq-done_iff, Failed, get-eq-fails, get-ends,
}
use acme_wasm.Core.Nonce.Queue.{fresh_of}

module _ (c : Crates) {W : Type 0} (ledger : Ledger W) where
  module _ (Cut : Type 0) (store : ReplayNonceStore W)
      (observes : Observes ledger store.transport) where
    fetched_receive :
        (s : State W) (out : Result HttpResponse AcmeError × W)
        → fetched store s ≡ out
        → (Accounts c ledger) s
        → (Holds c ledger) (s.pool ++ fresh_of out) out.1
    fetched_receive s out e h =
        (received_by c ledger) (store.transport.head store.new_nonce_url) fresh_of s.pool s.world
          out (observes.heads store.new_nonce_url s.world) e h

    Got-Pending :
        (s t : State W) (n : Text)
        → (Accounts c ledger) s
        → Got store s n t
        → (Pending c ledger) n t
    Got-Pending s t n h (inl (p, w)) =
        Path.subst (λ l. (Holds c ledger) l t.world) p (Path.subst ((Holds c ledger) s.pool) w h)
    Got-Pending s t n h (inr (r, p, f, success, q)) =
        Path.subst (λ l. (Holds c ledger) l t.world) (ap (λ l. l ++ fresh r) p ∙ q)
          (fetched_receive s (ok r, t.world) f h)

    failed_Accounts :
        (s t : State W) (e : AcmeError)
        → (Accounts c ledger) s
        → Failed store s e t
        → (Accounts c ledger) t
    failed_Accounts s t e h (p, q, inl f) =
        Path.subst (λ l. (Holds c ledger) l t.world) (ap (λ l. l ++ []) p ∙ sym q)
          (fetched_receive s (err e, t.world) f h)
    failed_Accounts s t e h (p, q, inr (r, f, _)) =
        Path.subst (λ l. (Holds c ledger) l t.world) (sym q)
          ((give_up c ledger) (s.pool ++ fresh r) t.world (fetched_receive s (ok r, t.world) f h))

    get_ends :
        (s : State W) (o : Outcome (State W) Text)
        → get store s ≡ o
        → (Accounts c ledger) s
        → Ends Cut (Pending c ledger) (Accounts c ledger) o
    get_ends s (done n t) e h = Got-Pending s t n h ((get-eq-done_iff store s n t).0 e)
    get_ends s (fails x t) e h = failed_Accounts s t x h (get-eq-fails store s x t e)
    get_ends s out_of_fuel e h = absurd (get-ends store s e)

    pub get-Triple :
        Triple Cut (Accounts c ledger) (Pending c ledger) (Accounts c ledger) (get store)
    get-Triple = record { at = λ s h. get_ends s (get store s) refl h }

  pub new-Accounts :
      (Cut : Type 0) (url : Text) (client : HttpClient W)
      → Keeps Cut (Accounts c ledger) (new url client)
  unfolding new
  new-Accounts Cut url client = record { at = λ s h. (give_up c ledger) s.pool s.world h }

  absorb-Triple :
      (Cut : Type 0) (r : HttpResponse)
      → Triple Cut ((Awaiting c ledger) r) (λ _. (Accounts c ledger)) (Accounts c ledger) (absorb r)
  unfolding absorb
  absorb-Triple Cut r = record {
    at = λ s h. Path.subst (λ l. (Holds c ledger) l s.world) (sym (absorb_pool-append r s.pool)) h;
  }

  module _ (Cut : Type 0) (client : HttpClient W) (observes : Observes ledger client) (jws : Bytes)
      (n : Text) (carries : Carries c jws n) where
    -- The request spends the nonce.
    spend :
        (url : Text) (held : List Text) (w : W) (out : Result HttpResponse AcmeError × W)
        → client.post_jose url jws w ≡ out
        → (Holds c ledger) (n ∷ held) w
        → (Holds c ledger) (held ++ fresh_of out) out.1
    spend url held w out e h =
        Path.subst (λ o. (Holds c ledger) (held ++ fresh_of o) o.1) e
          (record {
            used = h.used ++ n ∷ [];
            split =
                (observes.posts url jws w).0
                ∙ ap (λ l. l ++ fresh_of (client.post_jose url jws w)) h.split
                ∙ ap (λ l. l ++ fresh_of (client.post_jose url jws w))
                    (sym (append_assoc h.used (n ∷ []) held))
                ∙ append_assoc (h.used ++ n ∷ []) held (fresh_of (client.post_jose url jws w));
            spending =
                Path.subst⁻¹ (λ posts. Spent c posts (h.used ++ n ∷ []))
                  (observes.posts url jws w).1
                  (spent (ledger.posted w) h.used jws n h.spending carries);
          })

    post_ends :
        (url : Text) (s : State W) (out : Result HttpResponse AcmeError × W)
        → client.post_jose url jws s.world ≡ out
        → (Pending c ledger) n s
        → Ends Cut (Awaiting c ledger) (Accounts c ledger) (settle s.pool out)
    post_ends url s (ok r, w) e h = spend url s.pool s.world (ok r, w) e h
    post_ends url s (err x, w) e h =
        Path.subst (λ l. (Holds c ledger) l w) (append-nil s.pool)
          (spend url s.pool s.world (err x, w) e h)

    post-Triple :
        (url : Text)
        → Triple Cut
            ((Pending c ledger) n)
            (Awaiting c ledger)
            (Accounts c ledger)
            (io (client.post_jose url jws))
    post-Triple url = record {
      at = λ s h. post_ends url s (client.post_jose url jws s.world) refl h;
    }

    -- A request is sent, and its answer absorbed.
    pub send-Triple :
        {B : Type 0} (url : Text) (f : HttpResponse → Program W B)
        → ((r : HttpResponse) → Keeps Cut (Accounts c ledger) (f r))
        → Triple Cut
            ((Pending c ledger) n)
            (λ _. (Accounts c ledger))
            (Accounts c ledger)
            (io (client.post_jose url jws) >>= λ r. (absorb r >> f r))
    send-Triple url f k =
        Triple-bind (io (client.post_jose url jws)) _ (post-Triple url)
          λ r. Triple-bind (absorb r) _ (absorb-Triple Cut r) λ _. Triple-Keeps (f r) (k r)
