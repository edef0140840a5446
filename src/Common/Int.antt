-- ===== src/Common/Int.antt =====
-- Signed integers over the native numbers, for the `int32_t` and `int64_t` of the source.
use chimp.Common.{ℕ, ◌-◌, ◌%◌, ◌^◌, ◌<◌, ◌≡◌, ltb, if◌then◌else◌, arith}
use native.Mathlib.Nat.{mod-eq_of_lt}

-- `negsuc n` is -(n + 1).
pub data ℤ : Type 0 where
  pos : ℕ → ℤ
  negsuc : ℕ → ℤ

-- The conversion of a `size_t` to an `int32_t`.
abbrev pub int32 : ℕ → ℤ
int32 n = let w = n % 2 ^ 32 in if ltb w (2 ^ 31) then pos w else negsuc (2 ^ 32 - w - 1)

pub int32-eq-pos : (n : ℕ) → n < 2 ^ 31 → int32 n ≡ pos n
int32-eq-pos n h = ground (arith, mod-eq_of_lt {n = n} {m = 2 ^ 32} (omega arith))
