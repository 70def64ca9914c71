-- ===== src/WasiHttp/Sample.antt =====
-- A host that takes four bytes at a time, and answers each request with one chunk.
use mathlib.Core.Path
use acme_wasm.Prelude.{
  ok_inj, ap, ℕ, ◌≤◌, ◌<◌, ◌≡◌, refl, Bool, true, false, some, List, [], ◌∷◌, ◌++◌, arith, Bytes,
  text, ok, err,
}
use acme_wasm.WasiHttp.Host.{StreamError, closed, Reply, Wasi}
use acme_wasm.WasiHttp.Watch.{
  Draft, blank, Watch, Drafted, Sets, same, with_header, with_body, Faithful,
}

pub record Sim : Type 0 where
  pub draft : Draft
  pub sent : List Draft
  pub pending : Bool

abbrev hand_over : Sim → Sim
hand_over w = record w { sent = w.sent ++ w.draft ∷ []; pending = true }

abbrev read_one : Bool → Sim → Reply Bytes StreamError × Sim
read_one true w = (ok (text "hi"), record w { pending = false })
read_one false w = (err closed, w)

abbrev pub sim : Wasi
sim = record {
  World = Sim;
  Fields = Unit;
  OutgoingRequest = Unit;
  OutgoingBody = Unit;
  OutputStream = Unit;
  Pollable = Unit;
  FutureResponse = Unit;
  IncomingResponse = Unit;
  IncomingBody = Unit;
  InputStream = Unit;
  new_fields = λ w. (tt, record w { draft = blank });
  append = λ h name value w. (ok tt, record w { draft = with_header name value w.draft });
  new_request = λ h w. (tt, w);
  set_method = λ r m w. (ok tt, record w { draft = record (w.draft) { method = m } });
  set_scheme = λ r x w. (ok tt, record w { draft = record (w.draft) { scheme = x } });
  set_authority = λ r x w. (ok tt, record w { draft = record (w.draft) { authority = x } });
  set_path_with_query = λ r x w. (ok tt, record w { draft = record (w.draft) { path = x } });
  body = λ r w. (ok tt, w);
  output_stream = λ b w. (ok tt, w);
  subscribe_output = λ s w. (tt, w);
  check_write = λ s w. (ok 4, w);
  write = λ s chunk w. (ok tt, record w { draft = with_body chunk w.draft });
  flush = λ s w. (ok tt, w);
  finish = λ b w. (ok tt, w);
  handle = λ r w. (ok tt, hand_over w);
  try_get = λ f w. (some (ok (ok tt)), w);
  subscribe_future = λ f w. (tt, w);
  status = λ r w. (200, w);
  headers = λ r w. (tt, w);
  entries = λ h w. ([], w);
  drop_fields = λ h w. (tt, w);
  drop_incoming = λ r w. (tt, w);
  drop_future = λ f w. (tt, w);
  consume = λ r w. (ok tt, w);
  input_stream = λ b w. (ok tt, w);
  subscribe_input = λ s w. (tt, w);
  read = λ s n w. read_one w.pending w;
  block = λ p w. (tt, w);
  drop_pollable = λ p w. (tt, w);
  drop_output_stream = λ s w. (tt, w);
  debug_stream_error = λ e. text "closed";
}

abbrev pending_chunks : Bool → ℕ
pending_chunks true = 1
pending_chunks false = 0

abbrev pub watch : Watch Sim
watch = record {
  draft = λ w. w.draft;
  sent = λ w. w.sent;
  permitted = λ w. 4;
  left = λ w. pending_chunks w.pending;
}

reading : (b : Bool) (w : Sim) → Drafted watch w.sent w.draft (read_one b w).1
reading true w = record { drafting = refl; sending = refl }
reading false w = record { drafting = refl; sending = refl }

chunk_read :
    (b : Bool) (w v : Sim) (chunk : Bytes)
    → read_one b w ≡ (ok chunk, v)
    → pending_chunks v.pending < pending_chunks b
chunk_read true w v chunk e = Path.subst (λ o. pending_chunks o.1.pending < 1) e (omega arith)
chunk_read false w v chunk e = absurd cc

pub left_bounded : (w : Sim) → watch.left w < 9
left_bounded w = few w.pending
  where
    few : (b : Bool) → pending_chunks b < 9
    few true = omega arith
    few false = omega arith

nothing_changed : {A : Type 0} (a : Sim → A) → Sets watch (λ w. (a w, w)) same
nothing_changed a = record { at = λ w. record { drafting = refl; sending = refl } }

pub sim-Faithful : Faithful sim watch
sim-Faithful = record {
  new_fields = record { at = λ w. record { drafting = refl; sending = refl } };
  append = λ h name value. record { at = λ w. record { drafting = refl; sending = refl } };
  new_request = λ h. nothing_changed (λ w. tt);
  set_method = λ r m. record { at = λ w. record { drafting = refl; sending = refl } };
  set_scheme = λ r x. record { at = λ w. record { drafting = refl; sending = refl } };
  set_authority = λ r x. record { at = λ w. record { drafting = refl; sending = refl } };
  set_path_with_query = λ r x. record { at = λ w. record { drafting = refl; sending = refl } };
  body = λ r. record { at = λ w. record { drafting = refl; sending = refl } };
  output_stream = λ b. record { at = λ w. record { drafting = refl; sending = refl } };
  subscribe_output = λ s. nothing_changed (λ w. tt);
  block = λ p. nothing_changed (λ w. tt);
  check_write = λ s. record { at = λ w. record { drafting = refl; sending = refl } };
  permits = λ s u w v n e. permit n v w e;
  write = λ s chunk w fits. record { drafting = refl; sending = refl };
  flush = λ s. record { at = λ w. record { drafting = refl; sending = refl } };
  finish = λ b. record { at = λ w. record { drafting = refl; sending = refl } };
  handle = λ r w. refl;
  drop_pollable = λ p. nothing_changed (λ w. tt);
  drop_output_stream = λ s. nothing_changed (λ w. tt);
  try_get = λ f. nothing_changed (λ w. some (ok (ok tt)));
  subscribe_future = λ f. nothing_changed (λ w. tt);
  arrives = λ f u w e. absurd cc;
  status = λ r. nothing_changed (λ w. 200);
  headers = λ r. nothing_changed (λ w. tt);
  entries = λ h. nothing_changed (λ w. []);
  drop_fields = λ h. nothing_changed (λ w. tt);
  drop_incoming = λ r. nothing_changed (λ w. tt);
  drop_future = λ f. nothing_changed (λ w. tt);
  consume = λ r. nothing_changed (λ w. ok tt);
  input_stream = λ b. nothing_changed (λ w. ok tt);
  subscribe_input = λ s. nothing_changed (λ w. tt);
  read = λ s n. record { at = λ w. reading w.pending w };
  waits = λ p w. omega arith;
  reads = λ s n w v chunk e. chunk_read w.pending w v chunk e;
}
  where
    permit :
        (n : ℕ) (v w : Sim)
        → ◌≡◌ {A = Reply ℕ StreamError × Sim} (ok 4, w) (ok n, v)
        → (1 ≤ n) × (4 ≡ n)
    permit n v w e =
        (Path.subst (λ m. 1 ≤ m) (ok_inj (ap (λ o. o.0) e)) (omega arith), ok_inj (ap (λ o. o.0) e))
