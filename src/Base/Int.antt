-- ===== src/Base/Int.antt =====
-- The differences that the code takes of indices, which may be negative.
use Prim.Native.Nat.{ℕ, ◌-◌}
use pootle.Base.Tests.{leb, if◌then◌else◌}

-- `negsuc n` is -(n + 1).
pub data ℤ : Type 0 where
  pos : ℕ → ℤ
  negsuc : ℕ → ℤ

-- a - b.
abbrev pub sub_ℕ : ℕ → ℕ → ℤ
sub_ℕ a b = if leb b a then pos (a - b) else negsuc (b - a - 1)

-- `delta if delta > 0 else 0`.
abbrev pub gain : ℤ → ℕ
gain (pos n) = n
gain (negsuc n) = 0
