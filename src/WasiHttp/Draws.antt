-- ===== src/WasiHttp/Draws.antt =====
-- How a call of the host changes the request that a round trip builds, and what is sent.
use acme_wasm.Prelude.{◌≡◌, ap, ◌∙◌, ◌⊎◌, inl, inr, List, [], ◌∷◌, ◌++◌, ok, err}
use acme_wasm.Core.Error.{AcmeError}
use acme_wasm.Core.Program.{Step}
use acme_wasm.Core.Program.Triples.{Ends, Triple}
use acme_wasm.WasiHttp.Host.{Act, Reply, Wasi, run, returned, call}
use acme_wasm.WasiHttp.Watch.{Draft, Watch, Drafted, Sets, On, Effect, same}

module _ (wasi : Wasi) (watch : Watch wasi.World) (s : List Draft) (final : Draft) where
  abbrev pub Sent : wasi.World → Type 0
  Sent w = watch.sent w ≡ s ++ final ∷ []

  -- Nothing was sent, or the request was.
  abbrev pub AtMost : wasi.World → Type 0
  AtMost w = (watch.sent w ≡ s) ⊎ Sent w

  abbrev pub Draws : {A : Type 0} → Draft → Draft → Step wasi.World A → Type 0
  Draws d e m = Triple ⊥ (Drafted watch s d) (λ _. Drafted watch s e) AtMost m

  abbrev pub After : {A : Type 0} → Step wasi.World A → Type 0
  After m = Triple ⊥ Sent (λ _. Sent) AtMost m

  pub run-Draws :
      {A : Type 0} (act : Act wasi.World A) (f : Draft → Draft) (d : Draft)
      → Sets watch act f
      → Draws d (f d) (run act)
  run-Draws act f d sets = record {
    at = λ w h. record {
      drafting = (sets.at w).drafting ∙ ap f h.drafting;
      sending = (sets.at w).sending ∙ h.sending;
    };
  }

  pub on_returned :
      {A E : Type 0} (wrap : E → AcmeError) (f : Draft → Draft) (d : Draft) (w : wasi.World)
      (o : Reply A E × wasi.World)
      → On watch f w o
      → Drafted watch s d w
      → Ends ⊥ (λ _. Drafted watch s (f d)) AtMost (returned wrap o)
  on_returned wrap f d w (ok a, v) e h = record {
    drafting = e.drafting ∙ ap f h.drafting;
    sending = e.sending ∙ h.sending;
  }
  on_returned wrap f d w (err x, v) e h = inl (e ∙ h.sending)

  pub call-Draws :
      {A E : Type 0} (wrap : E → AcmeError) (act : Act wasi.World (Reply A E)) (f : Draft → Draft)
      (d : Draft)
      → Effect watch act f
      → Draws d (f d) (call wrap act)
  call-Draws wrap act f d effect = record {
    at = λ w h. on_returned wrap f d w (act w) (effect.at w) h;
  }

  pub run-After : {A : Type 0} (act : Act wasi.World A) → Sets watch act same → After (run act)
  run-After act sets = record { at = λ w h. (sets.at w).sending ∙ h }

  pub call-After :
      {A E : Type 0} (wrap : E → AcmeError) (act : Act wasi.World (Reply A E))
      → Sets watch act same
      → After (call wrap act)
  call-After {A} {E} wrap act sets = record {
    at = λ w h. on_reply (act w) ((sets.at w).sending ∙ h);
  }
    where
      on_reply :
          (o : Reply A E × wasi.World) → Sent o.1 → Ends ⊥ (λ _. Sent) AtMost (returned wrap o)
      on_reply (ok a, v) h = h
      on_reply (err e, v) h = inr h
