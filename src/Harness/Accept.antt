-- ===== src/Harness/Accept.antt =====
-- The accept loops of crates/testing/src/http_server.rs and tls_server.rs, which are the same: one
-- thread takes connections until it sees the flag of the shutdown, and each connection is handled on
-- a thread of its own, over what the server shares with its caller. A handler locks it once, so it
-- takes effect in one step; steps of different threads interleave, also between the load of the flag
-- and the start of a thread.
pub mod Laws
use acme_wasm.Prelude.{◌≡◌, Bool, true, false, List, [], ◌∷◌, ◌++◌, if◌then◌else◌}

-- One item of `listener.incoming()`.
pub data Incoming (Request : Type 0) : Type 0 where
  connection : Request → Incoming Request
  refused : Incoming Request

-- Where the loop is: before the next item, past the check of the flag with an item, or after `break`.
pub data Loop (Request : Type 0) : Type 0 where
  waits : Loop Request
  checked : Incoming Request → Loop Request
  ended : Loop Request

-- `shared` is behind the mutex; `in_flight` are the connections whose threads have not ended.
pub record Server (Shared Request Response : Type 0) : Type 0 where
  pub shared : Shared
  pub shutdown : Bool
  pub loop : Loop Request
  pub in_flight : List Request
  pub served : List (Request × Response)

-- `continue` on an error, and a thread for a connection
unfoldable pub spawned : {Request : Type 0} → Incoming Request → List Request → List Request
spawned refused in_flight = in_flight
spawned (connection request) in_flight = in_flight ++ request ∷ []

module _ {Shared Request Response : Type 0} where
  -- `bind_on`, after the socket is bound
  unfoldable pub bound : Shared → Server Shared Request Response
  bound shared = record {
    shared = shared;
    shutdown = false;
    loop = waits;
    in_flight = [];
    served = [];
  }

  -- The first half of a round: the flag is loaded, and it decides whether the loop goes on.
  unfoldable pub load_flag :
      Incoming Request → Server Shared Request Response → Server Shared Request Response
  load_flag item server =
      if server.shutdown
      then record server { loop = ended }
      else record server { loop = checked item }

  -- The second half: the item that the flag let pass is handed to a thread.
  unfoldable pub spawn_one :
      Incoming Request → Server Shared Request Response → Server Shared Request Response
  unfolding spawned
  spawn_one item server = record server { loop = waits; in_flight = spawned item server.in_flight }

  -- `Drop`: the flag is set; the connection that then unsticks the loop is one more item.
  unfoldable pub drop_server : Server Shared Request Response → Server Shared Request Response
  drop_server server = record server { shutdown = true }

module _ {Shared Request Response : Type 0} (handle : Request → Shared → Response)
    (Change : Shared → Shared → Type 0) where
  -- One step of the accept loop, of the caller, of a connection's thread, or of the drop.
  pub data Step (server : Server Shared Request Response)
      : Server Shared Request Response → Type 0 where
    loads : (item : Incoming Request) → server.loop ≡ waits → Step server (load_flag item server)
    spawns :
        (item : Incoming Request) → server.loop ≡ checked item → Step server (spawn_one item server)
    changes :
        (shared : Shared)
        → Change server.shared shared
        → Step server (record server { shared = shared })
    handles :
        (earlier later : List Request) (request : Request)
        → server.in_flight ≡ earlier ++ request ∷ later
        → Step server (record server {
          in_flight = earlier ++ later;
          served = server.served ++ (request, handle request server.shared) ∷ [];
        })
    drops : Step server (drop_server server)

  -- Any number of steps, in any order.
  pub data Run : Server Shared Request Response → Server Shared Request Response → Type 0 where
    ends : (server : Server Shared Request Response) → Run server server
    then_run :
        (server next last : Server Shared Request Response)
        → Step server next
        → Run next last
        → Run server last
