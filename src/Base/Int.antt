-- ===== src/Base/Int.antt =====
-- Signed integers over the native numbers: `negsuc n` is -(n + 1).
use Prim.Native.Nat.{ℕ, zero, suc, ◌+◌, ◌-◌, ◌<◌}
use mathlib.Core.Path.{◌≡◌, ap}
use mathlib.Core.Bool.{Bool, true, false}
use native.Mathlib.Omega.{arith}
use tallyd.Base.Tests.{leb, if◌then◌else◌}

pub data ℤ : Type 0 where
  pos : ℕ → ℤ
  negsuc : ℕ → ℤ

-- n++ and n--
abbrev pub inc_ℤ : ℤ → ℤ
inc_ℤ (pos n) = pos (suc n)
inc_ℤ (negsuc zero) = pos 0
inc_ℤ (negsuc (suc n)) = negsuc n

abbrev pub dec_ℤ : ℤ → ℤ
dec_ℤ (pos zero) = negsuc 0
dec_ℤ (pos (suc n)) = pos n
dec_ℤ (negsuc n) = negsuc (suc n)

-- n == 0
abbrev pub is_zero_ℤ : ℤ → Bool
is_zero_ℤ (pos zero) = true
is_zero_ℤ (pos (suc n)) = false
is_zero_ℤ (negsuc n) = false

pub dec_ℤ-pos : (n : ℕ) → 0 < n → dec_ℤ (pos n) ≡ pos (n - 1)
dec_ℤ-pos zero h = absurd (omega arith)
dec_ℤ-pos (suc n) h = ap pos (omega arith)

-- a - n
abbrev pub sub_ℤ : ℤ → ℕ → ℤ
sub_ℤ (pos a) n = if leb n a then pos (a - n) else negsuc (n - a - 1)
sub_ℤ (negsuc a) n = negsuc (a + n)

-- if a < 0 { a = 0 }
abbrev pub clamp_ℤ : ℤ → ℤ
clamp_ℤ (pos a) = pos a
clamp_ℤ (negsuc a) = pos 0
