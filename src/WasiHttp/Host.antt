-- ===== src/WasiHttp/Host.antt =====
-- The imports of crates/http-client/src/lib.rs: `wasi:http` and `wasi:io`, which the host of the
-- component provides. Handles are opaque. An error that the code only prints is its `{:?}` text.
use acme_wasm.Prelude.{ℕ, Option, List, Bytes, Text, Result, ok, err}
use acme_wasm.Core.Error.{AcmeError}
use acme_wasm.Core.Program.{Outcome, done, fails, Step}
use acme_wasm.WasiHttp.{Scheme}

pub data Method : Type 0 where
  get head post put delete connect options trace patch : Method
  other : Text → Method

pub data StreamError : Type 0 where
  last_operation_failed : Text → StreamError
  closed : StreamError

-- What a call does to the world of the host, and its answer.
abbrev pub Act : Type 0 → Type 0 → Type 0
Act W A = W → A × W

abbrev pub Reply : Type 0 → Type 0 → Type 0
Reply A E = Result A E

pub record Wasi : Type 1 where
  pub World : Type 0
  pub Fields : Type 0
  pub OutgoingRequest : Type 0
  pub OutgoingBody : Type 0
  pub OutputStream : Type 0
  pub Pollable : Type 0
  pub FutureResponse : Type 0
  pub IncomingResponse : Type 0
  pub IncomingBody : Type 0
  pub InputStream : Type 0
  pub new_fields : Act World Fields
  pub append : Fields → Text → Bytes → Act World (Reply Unit Text)
  pub new_request : Fields → Act World OutgoingRequest
  pub set_method : OutgoingRequest → Method → Act World (Reply Unit Unit)
  pub set_scheme : OutgoingRequest → Option Scheme → Act World (Reply Unit Unit)
  pub set_authority : OutgoingRequest → Option Text → Act World (Reply Unit Unit)
  pub set_path_with_query : OutgoingRequest → Option Text → Act World (Reply Unit Unit)
  pub body : OutgoingRequest → Act World (Reply OutgoingBody Unit)
  pub output_stream : OutgoingBody → Act World (Reply OutputStream Unit)
  pub subscribe_output : OutputStream → Act World Pollable
  pub check_write : OutputStream → Act World (Reply ℕ StreamError)
  pub write : OutputStream → Bytes → Act World (Reply Unit StreamError)
  pub flush : OutputStream → Act World (Reply Unit StreamError)
  pub finish : OutgoingBody → Act World (Reply Unit Text)
  pub handle : OutgoingRequest → Act World (Reply FutureResponse Text)
  pub try_get : FutureResponse → Act World (Option (Reply (Reply IncomingResponse Text) Unit))
  pub subscribe_future : FutureResponse → Act World Pollable
  pub status : IncomingResponse → Act World ℕ
  pub headers : IncomingResponse → Act World Fields
  pub entries : Fields → Act World (List (Text × Bytes))
  pub drop_fields : Fields → Act World Unit
  pub consume : IncomingResponse → Act World (Reply IncomingBody Unit)
  pub input_stream : IncomingBody → Act World (Reply InputStream Unit)
  pub subscribe_input : InputStream → Act World Pollable
  pub read : InputStream → ℕ → Act World (Reply Bytes StreamError)
  pub block : Pollable → Act World Unit
  pub drop_incoming : IncomingResponse → Act World Unit
  pub drop_future : FutureResponse → Act World Unit
  pub drop_pollable : Pollable → Act World Unit
  pub drop_output_stream : OutputStream → Act World Unit
  pub debug_stream_error : StreamError → Text

module _ {W A : Type 0} where
  abbrev pub answered : A × W → Outcome W A
  answered (a, w) = done a w

  -- a call that cannot fail
  abbrev pub run : (W → A × W) → Step W A
  run act w = answered (act w)

  module _ {E : Type 0} (wrap : E → AcmeError) where
    abbrev pub returned : Result A E × W → Outcome W A
    returned (ok a, w) = done a w
    returned (err e, w) = fails (wrap e) w

    -- a call, `map_err` and `?`
    abbrev pub call : (W → Result A E × W) → Step W A
    call act w = returned (act w)
