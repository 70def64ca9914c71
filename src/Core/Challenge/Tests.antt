-- ===== src/Core/Challenge/Tests.antt =====
-- A challenge that the sample server validates at once.
use acme_wasm.Prelude.{ℕ, [], ◌∷◌, text}
use acme_wasm.Core.Program.{State}
use acme_wasm.Core.Nonce

abbrev at : ℕ → State ℕ
at w = record { pool = text "n1" ∷ []; world = w }
