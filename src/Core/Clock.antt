-- ===== src/Core/Clock.antt =====
-- `std::time::Instant::now` and `std::thread::sleep`, over the world. Instants and durations are
-- numbers of milliseconds.
use acme_wasm.Prelude.{ℕ}

pub record Clock (W : Type 0) : Type 0 where
  pub now : W → ℕ × W
  pub sleep : ℕ → W → W
