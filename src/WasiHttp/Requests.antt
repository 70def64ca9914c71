-- ===== src/WasiHttp/Requests.antt =====
-- The request that a round trip of crates/http-client/src/lib.rs sends.
use mathlib.Core.Path
use acme_wasm.Prelude.{
  ℕ, zero, suc, ◌≤◌, ◌<◌, min, ◌≡◌, refl, sym, ap, ◌∙◌, inl, List, [], ◌∷◌, ◌++◌, append-nil,
  append_assoc, arith, ◌==◌, if◌then◌else◌, length, take, drop, take-append-drop, length-take,
  length-drop, Bytes, text, ok, err,
}
use acme_wasm.Core.Program.{◌>>◌}
use acme_wasm.Core.Program.Triples.{Triple-if, Ends, Triple, Triple-bind}
use acme_wasm.WasiHttp.Host.{StreamError, Reply, Wasi, run, returned, call}
use acme_wasm.WasiHttp.Client.{refused, stream_failed, write_loop, write_all}
use acme_wasm.WasiHttp.Watch.{Draft, Watch, Drafted, On, same, with_body, Faithful}
use acme_wasm.WasiHttp.Draws.{AtMost, Draws, run-Draws, on_returned, call-Draws}

module _ (wasi : Wasi) (watch : Watch wasi.World) (faithful : Faithful wasi watch) (s : List Draft)
    (final : Draft) where
  module _ (stream : wasi.OutputStream) (u : wasi.World) where
    abbrev pollable : wasi.Pollable
    pollable = (wasi.subscribe_output stream u).0

    -- After a wait for the stream.
    record Blocked (d : Draft) (w : wasi.World) : Type 0 where
      drafted : Drafted watch s d w
      earlier : wasi.World
      waited : w ≡ (wasi.block pollable earlier).1

    -- After an answer of `check_write`.
    record Permitted (d : Draft) (n : ℕ) (w : wasi.World) : Type 0 where
      drafted : Drafted watch s d w
      some_bytes : 1 ≤ n
      permit : watch.permitted w ≡ n

    block-Triple :
        (d : Draft)
        → Triple ⊥
            (Drafted watch s d)
            (λ _. Blocked d)
            (AtMost wasi watch s final)
            (run (wasi.block pollable))
    block-Triple d = record {
      at = λ w h. record {
        drafted =
            (run-Draws wasi watch s final (wasi.block pollable) same d (faithful.block pollable)).at
              w h;
        earlier = w;
        waited = refl;
      };
    }

    on_checked :
        (d : Draft) (w : wasi.World) (o : Reply ℕ StreamError × wasi.World)
        → wasi.check_write stream w ≡ o
        → On watch same w o
        → Blocked d w
        → Ends ⊥
            (Permitted d)
            (AtMost wasi watch s final)
            (returned (stream_failed wasi (text "check_write")) o)
    on_checked d w (err e, v) eq on h = inl (on ∙ h.drafted.sending)
    on_checked d w (ok n, v) eq on h =
        let p =
          faithful.permits stream u h.earlier v n
            (Path.subst (λ x. wasi.check_write stream x ≡ (ok n, v)) h.waited eq) in
        record {
          drafted = record {
            drafting = on.drafting ∙ h.drafted.drafting;
            sending = on.sending ∙ h.drafted.sending;
          };
          some_bytes = p.0;
          permit = p.1;
        }

    check_write-Triple :
        (d : Draft)
        → Triple ⊥
            (Blocked d)
            (Permitted d)
            (AtMost wasi watch s final)
            (call (stream_failed wasi (text "check_write")) (wasi.check_write stream))
    check_write-Triple d = record {
      at = λ w h.
          on_checked d w (wasi.check_write stream w) refl ((faithful.check_write stream).at w) h;
    }

    write-Triple :
        (d : Draft) (n : ℕ) (chunk : Bytes)
        → length chunk ≤ n
        → Triple ⊥
            (Permitted d n)
            (λ _. Drafted watch s (with_body chunk d))
            (AtMost wasi watch s final)
            (call (stream_failed wasi (text "write")) (wasi.write stream chunk))
    write-Triple d n chunk fits = record {
      at = λ w h.
          on_returned wasi watch s final (stream_failed wasi (text "write")) (with_body chunk) d w
            (wasi.write stream chunk w)
            (faithful.write stream chunk w (Path.subst⁻¹ (λ m. length chunk ≤ m) h.permit fits))
            h.drafted;
    }

    -- A round with the permit `n`, if the rounds after it write the rest.
    round-Triple :
        (fuel : ℕ) (d : Draft) (bytes : Bytes) (n : ℕ)
        → 1 ≤ length bytes
        → ((e : Draft) (rest : Bytes)
            → length rest < length bytes
            → Draws wasi watch s final e
                (with_body rest e)
                (write_loop wasi fuel stream pollable rest))
        → Triple ⊥
            (Permitted d n)
            (λ _. Drafted watch s (with_body bytes d))
            (AtMost wasi watch s final)
            (if n == 0
              then write_loop wasi fuel stream pollable bytes
              else (call
                    (stream_failed wasi (text "write"))
                    (wasi.write stream (take (min (length bytes) n) bytes))
                  >> write_loop wasi fuel stream pollable (drop (min (length bytes) n) bytes)))
    round-Triple fuel d bytes n pos again =
        Triple-if (n == 0) _ _
          (λ none. record { at = λ w h. absurd (ground (arith, none, h.some_bytes)) })
          λ some.
            let k = min (length bytes) n in
            Triple-bind
              (call (stream_failed wasi (text "write")) (wasi.write stream (take k bytes))) _
              (write-Triple d n (take k bytes) (omega (arith, length-take k bytes)))
              λ _.
                Path.subst
                  (λ body.
                    Draws wasi watch s final (with_body (take k bytes) d) (record d { body = body })
                      (write_loop wasi fuel stream pollable (drop k bytes)))
                  (append_assoc d.body (take k bytes) (drop k bytes)
                    ∙ ap (λ b. d.body ++ b) (take-append-drop k bytes))
                  (again (with_body (take k bytes) d) (drop k bytes)
                    (ground (arith, length-drop k bytes, pos, some)))

    write_loop-Draws :
        (fuel : ℕ) (d : Draft) (bytes : Bytes)
        → length bytes < fuel
        → Draws wasi watch s final d
            (with_body bytes d)
            (write_loop wasi fuel stream pollable bytes)
    unfolding write_loop
    write_loop-Draws zero d bytes enough = absurd (omega (arith, enough))
    write_loop-Draws (suc fuel) d [] enough = record {
      at = λ w h.
          Path.subst (λ body. Drafted watch s (record d { body = body }) w)
            (sym (append-nil d.body)) h;
    }
    write_loop-Draws (suc fuel) d (b ∷ bytes) enough =
        Triple-bind (run (wasi.block pollable)) _ (block-Triple d) λ _.
          Triple-bind (call (stream_failed wasi (text "check_write")) (wasi.check_write stream)) _
            (check_write-Triple d)
            λ n.
              round-Triple fuel d (b ∷ bytes) n (omega arith)
                λ e rest shorter. write_loop-Draws fuel e rest (omega (arith, enough, shorter))

  -- The end of `write_all`.
  flushed-Draws :
      (stream : wasi.OutputStream) (p : wasi.Pollable) (d : Draft)
      → Draws wasi watch s final d d (
          call (stream_failed wasi (text "flush")) (wasi.flush stream)
          >> (run (wasi.block p)
              >> (run (wasi.drop_pollable p) >> run (wasi.drop_output_stream stream))))
  flushed-Draws stream p d =
      Triple-bind _ _
        (call-Draws wasi watch s final (stream_failed wasi (text "flush")) (wasi.flush stream) same
          d (faithful.flush stream))
        λ _.
          Triple-bind _ _ (run-Draws wasi watch s final (wasi.block p) same d (faithful.block p))
            λ _.
              Triple-bind _ _
                (run-Draws wasi watch s final (wasi.drop_pollable p) same d
                  (faithful.drop_pollable p))
                λ _.
                  run-Draws wasi watch s final (wasi.drop_output_stream stream) same d
                    (faithful.drop_output_stream stream)

  pub write_all-Draws :
      (fuel : ℕ) (outgoing_body : wasi.OutgoingBody) (d : Draft) (bytes : Bytes)
      → length bytes < fuel
      → Draws wasi watch s final d (with_body bytes d) (write_all wasi fuel outgoing_body bytes)
  unfolding write_all
  write_all-Draws fuel outgoing_body d [] enough = record {
    at = λ w h.
        Path.subst (λ body. Drafted watch s (record d { body = body }) w) (sym (append-nil d.body))
          h;
  }
  write_all-Draws fuel outgoing_body d (b ∷ bytes) enough =
      Triple-bind
        (call (refused (text "outgoing body stream already taken"))
          (wasi.output_stream outgoing_body))
        _
        (call-Draws wasi watch s final (refused (text "outgoing body stream already taken"))
          (wasi.output_stream outgoing_body) same d (faithful.output_stream outgoing_body))
        λ stream. record {
          at = λ w h.
              (Triple-bind
                  (write_loop wasi fuel stream (wasi.subscribe_output stream w).0 (b ∷ bytes)) _
                  (write_loop-Draws stream w fuel d (b ∷ bytes) enough)
                  λ _.
                    flushed-Draws stream (wasi.subscribe_output stream w).0
                      (with_body (b ∷ bytes) d)).at
                (wasi.subscribe_output stream w).1
                ((run-Draws wasi watch s final (wasi.subscribe_output stream) same d
                    (faithful.subscribe_output stream)).at
                  w h);
        }
