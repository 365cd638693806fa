-- ===== src/Base/Words.antt =====
-- Fixed-width unsigned integers: casts, shifts and the little-endian layout of the target.
use Prim.Native.Nat.{ℕ, ◌+◌, ◌-◌, ◌*◌, ◌/◌, ◌%◌, ◌<◌}
use mathlib.Core.Path.{◌≡◌}
use mathlib.Core.List.{List, [], ◌∷◌}
use native.Mathlib.Omega.{arith}

abbrev pub u8 : ℕ → ℕ
u8 n = n % 256

abbrev pub u32 : ℕ → ℕ
u32 n = n % 4294967296

-- `a - b` in uint32_t; `-` on ℕ stops at 0, so the modulus comes first.
abbrev pub sub32 : ℕ → ℕ → ℕ
sub32 a b = u32 (a + 4294967296 - b)

-- The four bytes of a uint32_t, and back.
abbrev pub le32 : ℕ → List ℕ
le32 n = u8 n ∷ u8 (n / 256) ∷ u8 (n / 65536) ∷ u8 (n / 16777216) ∷ []

abbrev pub from_le32 : ℕ → ℕ → ℕ → ℕ → ℕ
from_le32 a b c d = a + b * 256 + c * 65536 + d * 16777216

pub from_le32-le32 :
    (n : ℕ)
    → n < 4294967296
    → from_le32 (u8 n) (u8 (n / 256)) (u8 (n / 65536)) (u8 (n / 16777216)) ≡ n
from_le32-le32 n h = omega arith
