-- ===== src/Prelude/Int.antt =====
-- Signed integers over the native numbers; `negsuc n` is -(n + 1).
use Prim.Native.Nat.{ℕ, suc, ◌+◌, ◌-◌}
use mathlib.Core.Bool.{Bool, false, true}
use xclaw.Prelude.Tests.{leb, ltb}

pub data ℤ : Type 0 where
  pos : ℕ → ℤ
  negsuc : ℕ → ℤ

-- a <= n, n < a
abbrev pub leb_ℕ : ℤ → ℕ → Bool
leb_ℕ (pos a) n = leb a n
leb_ℕ (negsuc a) n = true

abbrev pub gtb_ℕ : ℤ → ℕ → Bool
gtb_ℕ (pos a) n = ltb n a
gtb_ℕ (negsuc a) n = false

-- a < n
abbrev pub ltb_ℕ : ℤ → ℕ → Bool
ltb_ℕ (pos a) n = ltb a n
ltb_ℕ (negsuc a) n = true

-- The instant `t`, moved by `d`; an instant before the zero time is not modelled.
abbrev pub shift : ℕ → ℤ → ℕ
shift t (pos d) = t + d
shift t (negsuc d) = t - suc d
