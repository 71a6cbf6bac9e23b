-- ===== src/Base/Words.antt =====
-- Machine words: wrap by `%`.
use Prim.Native.Nat.{ℕ, ◌+◌, ◌-◌, ◌%◌}
use mathlib.Core.Bool.{Bool}
use appimagetool.Base.Tests.{leb}

abbrev pub u64_mod : ℕ
u64_mod = 0x1_0000_0000_0000_0000

-- `a + b` and `a - b` on 64-bit patterns.
abbrev pub add64 : ℕ → ℕ → ℕ
add64 a b = (a + b) % u64_mod

abbrev pub sub64 : ℕ → ℕ → ℕ
sub64 a b = (a + u64_mod - b) % u64_mod

-- Whether a 64-bit pattern stands for a negative `long`.
abbrev pub is_neg64 : ℕ → Bool
is_neg64 a = leb 0x8000_0000_0000_0000 a
