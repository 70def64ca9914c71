-- ===== src/WasiHttp/Reads.antt =====
-- The body that crates/http-client/src/lib.rs reads.
use acme_wasm.Prelude.{
  ℕ, zero, suc, ◌*◌, ◌<◌, ◌≡◌, sym, ap, ◌∙◌, Option, none, some, List, [], ◌∷◌, ◌++◌, append-nil,
  append_assoc, arith, length, concat_all, Bytes, ok, err,
}
use acme_wasm.Core.Program.{Step, pure, attempt, continue, done}
use acme_wasm.WasiHttp.Host.{StreamError, closed, Reply, Wasi}
use acme_wasm.WasiHttp.Client.{chunk_or, read_loop}

module _ (wasi : Wasi) (stream : wasi.InputStream) (p : wasi.Pollable) where
  abbrev next : wasi.World → Reply Bytes StreamError × wasi.World
  next w = wasi.read stream (64 * 1024) (wasi.block p w).1

  -- The host delivers the chunks, in order, and then closes the stream.
  pub data Delivers : List Bytes → wasi.World → wasi.World → Type 0 where
    nothing_left : (w v : wasi.World) → next w ≡ (err closed, v) → Delivers [] w v
    a_chunk :
        (b : Bytes) (bs : List Bytes) (w u v : wasi.World)
        → next w ≡ (ok b, u)
        → Delivers bs u v
        → Delivers (b ∷ bs) w v

  abbrev rest : ℕ → Bytes → Option Bytes → Step wasi.World Bytes
  rest fuel body chunk = elim chunk [
    | some bytes ↦ read_loop wasi fuel stream p (body ++ bytes)
    | none ↦ pure body
  ]

  -- If the host delivers the chunks and then closes the stream, then with more fuel than there are
  -- chunks, reading returns the body so far followed by all chunks in order, and stops where the
  -- stream was closed.
  pub read_loop-Delivers :
      (bs : List Bytes) (fuel : ℕ) (body : Bytes) (w v : wasi.World)
      → Delivers bs w v
      → length bs < fuel
      → read_loop wasi fuel stream p body w ≡ done (body ++ concat_all bs) v
  unfolding read_loop
  read_loop-Delivers bs zero body w v d enough = absurd (omega (arith, enough))
  read_loop-Delivers [] (suc fuel) body w v (nothing_left _ _ e) enough =
      ap (λ o. continue (attempt (chunk_or wasi o.0) o.1) (rest fuel body)) e
      ∙ ap (λ b. done b v) (sym (append-nil body))
  read_loop-Delivers (b ∷ bs) (suc fuel) body w v (a_chunk _ _ _ u _ e d) enough =
      ap (λ o. continue (attempt (chunk_or wasi o.0) o.1) (rest fuel body)) e
      ∙ read_loop-Delivers bs fuel (body ++ b) u v d (omega (arith, enough))
      ∙ ap (λ l. done l v) (append_assoc body b (concat_all bs))
