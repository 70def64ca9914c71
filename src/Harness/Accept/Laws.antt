-- ===== src/Harness/Accept/Laws.antt =====
-- What every interleaving of the servers' threads in crates/testing/src keeps.
use mathlib.Core.Path
use mathlib.Core.List.{Perm, perm_middle}
use mathlib.Core.List.Perm
use acme_wasm.Prelude.{
  sym, map, map-append, append_assoc, append-nil, ◌≡◌, refl, ap, Bool, true, false, List, [], ◌∷◌,
  ◌++◌, if◌then◌else◌, All, All-append,
}
use acme_wasm.Harness.Accept.{
  Server, Incoming, spawned, load_flag, drop_server, Step, loads, spawns, spawn_one, Loop, checked,
  ended, connection, refused, changes, handles, drops, Run, ends, then_run,
}

module _ {Shared Request Response : Type 0} (handle : Request → Shared → Response)
    (Change : Shared → Shared → Type 0) (P : Shared → Type 0) (Q : Request × Response → Type 0)
    (changed : (old new : Shared) → Change old new → P old → P new)
    (answered : (request : Request) (shared : Shared)
      → P shared
      → Q (request, handle request shared)) where
  -- What the shared state keeps and the answers have.
  abbrev pub Kept : Server Shared Request Response → Type 0
  Kept server = P server.shared × All Q server.served

  load_flag-Kept :
      (item : Incoming Request) (server : Server Shared Request Response)
      → Kept server
      → Kept (load_flag item server)
  unfolding load_flag
  load_flag-Kept item server kept = on_flag server.shutdown
    where
      on_flag :
          (b : Bool)
          → Kept
              (if b then record server { loop = ended } else record server { loop = checked item })
      on_flag true = kept
      on_flag false = kept

  Step-Kept :
      (server next : Server Shared Request Response)
      → Step handle Change server next
      → Kept server
      → Kept next
  unfolding drop_server spawn_one
  Step-Kept server _ (loads item on) kept = load_flag-Kept item server kept
  Step-Kept server _ (spawns item on) kept = kept
  Step-Kept server _ (changes shared change) kept =
      (changed server.shared shared change kept.0, kept.1)
  Step-Kept server _ (handles earlier later request found) kept = (
    kept.0,
    All-append Q server.served ((request, handle request server.shared) ∷ []) kept.1
        (answered request server.shared kept.0, tt),
  )
  Step-Kept server _ drops kept = kept

  pub Run-Kept :
      (server last : Server Shared Request Response)
      → Run handle Change server last
      → Kept server
      → Kept last
  Run-Kept server _ (ends _) kept = kept
  Run-Kept server last (then_run _ next _ step rest) kept =
      Run-Kept next last rest (Step-Kept server next step kept)

-- The connections that a server has taken: in flight, or served.
abbrev pub requests :
    {Shared Request Response : Type 0} → Server Shared Request Response → List Request
requests server = server.in_flight ++ map (λ x. x.0) server.served

-- The connection that the accept loop has past the check of the flag.
abbrev pub held : {Request : Type 0} → Loop Request → List Request
held (checked (connection request)) = request ∷ []
held _ = []

abbrev pub held_or_taken :
    {Shared Request Response : Type 0} → Server Shared Request Response → List Request
held_or_taken server = held server.loop ++ requests server

spawned-Perm :
    {Request : Type 0} (item : Incoming Request) (in_flight rest : List Request)
    → Perm (spawned item in_flight ++ rest) (held (checked item) ++ (in_flight ++ rest))
unfolding spawned
spawned-Perm refused in_flight rest = Perm.rfl
spawned-Perm (connection request) in_flight rest =
    rw (append_assoc in_flight (request ∷ []) rest) (perm_middle in_flight rest)

served-Perm :
    {Request : Type 0} (earlier later done : List Request) (request : Request)
    → Perm ((earlier ++ later) ++ (done ++ request ∷ [])) ((earlier ++ request ∷ later) ++ done)
served-Perm earlier later done request =
    Perm.trans
      (Perm.trans
        (Path.subst (Perm ((earlier ++ later) ++ (done ++ request ∷ [])))
          (sym (append_assoc (earlier ++ later) done (request ∷ []))) Perm.rfl)
        (perm_middle {a = request} ((earlier ++ later) ++ done) []))
      (rw append-nil (Perm.symm (Perm.append_right done (perm_middle earlier later))))

module _ {Shared Request Response : Type 0} (handle : Request → Shared → Response)
    (Change : Shared → Shared → Type 0) where
  load_flag-shutdown :
      (item : Incoming Request) (server : Server Shared Request Response)
      → server.shutdown ≡ true
      → load_flag item server ≡ record server { loop = ended }
  unfolding load_flag
  load_flag-shutdown item server down =
      ap (λ b. if b then record server { loop = ended } else record server { loop = checked item })
        down

  -- After the drop, up to order.
  abbrev pub Closed : Server Shared Request Response → Server Shared Request Response → Type 0
  Closed server last = (last.shutdown ≡ true) × Perm (held_or_taken last) (held_or_taken server)

  Step-Closed :
      (server next : Server Shared Request Response)
      → Step handle Change server next
      → server.shutdown ≡ true
      → Closed server next
  unfolding drop_server spawn_one
  Step-Closed server _ (loads item on) down =
      Path.subst (Closed server) (sym (load_flag-shutdown item server down)) (
        down,
        Path.subst (λ l. Perm (requests server) (held l ++ requests server)) (sym on) Perm.rfl,
      )
  Step-Closed server _ (spawns item on) down = (
    down,
    Path.subst
        (λ l.
          Perm (spawned item server.in_flight ++ map (λ x. x.0) server.served)
            (held l ++ requests server))
        (sym on) (spawned-Perm item server.in_flight _),
  )
  Step-Closed server _ (changes shared change) down = (down, Perm.rfl)
  Step-Closed server _ (handles earlier later request found) down = (
    down,
    Perm.append_left (held server.loop) (
        rw
          (
            found,
            map-append (λ x. x.0) server.served ((request, handle request server.shared) ∷ []),
          )
          (served-Perm earlier later (map (λ x. x.0) server.served) request)),
  )
  Step-Closed server _ drops down = (refl, Perm.rfl)

  Run-Closed :
      (server last : Server Shared Request Response)
      → Run handle Change server last
      → server.shutdown ≡ true
      → Closed server last
  Run-Closed server _ (ends _) down = (down, Perm.rfl)
  Run-Closed server last (then_run _ next _ step rest) down =
      let first = Step-Closed server next step down in
      let after = Run-Closed next last rest first.0 in (after.0, Perm.trans after.1 first.1)

  -- However the threads interleave from the drop on, also when it falls between the load of the flag
  -- and the start of a thread: the connections in flight or served, with the one that the loop has past
  -- the load, are those at the drop, up to order, so that none but that one is taken any more; and the
  -- next load of the flag ends the loop.
  pub Run-drop_server :
      (server last : Server Shared Request Response)
      → Run handle Change (drop_server server) last
      → Perm (held_or_taken last) (held_or_taken server)
        × ((item : Incoming Request) → (load_flag item last).loop ≡ ended)
  unfolding drop_server
  Run-drop_server server last run =
      let (down, same) = Run-Closed (drop_server server) last run refl in
      (same, λ item. ap (λ s. s.loop) (load_flag-shutdown item last down))
