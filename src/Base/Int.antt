-- ===== src/Base/Int.antt =====
-- Go's int as a mathematical integer: `negsuc n` is -(n + 1). Every int of the program is read from
-- a configuration or counts something, and no operation on one can overflow 64 bits.
use Prim.Native.Nat.{ℕ}
use mathlib.Core.Bool.{Bool, true}
use querylynx.Base.Tests.{◌==◌}

pub data ℤ : Type 0 where
  pos : ℕ → ℤ
  negsuc : ℕ → ℤ

-- n <= 0
abbrev pub is_not_positive : ℤ → Bool
is_not_positive (pos n) = n == 0
is_not_positive (negsuc n) = true
