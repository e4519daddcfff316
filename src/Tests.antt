-- ===== src/Tests.antt =====
-- Concrete values on which the theorems are applied.
pub mod Codec
pub mod Wire
pub mod EntDb
pub mod Host
pub mod Client
pub mod Stores
pub mod Sealing
pub mod Http
pub mod Archive
use diplomatic.Base.{[], suc, zero, ℕ, ◌∷◌}
use diplomatic.Codec.{Bytes}

-- `new Uint8Array(n)`
abbrev pub zeros : ℕ → Bytes
zeros zero = []
zeros (suc n) = 0 ∷ zeros n
