-- ===== src/Common/Bits.antt =====
-- The `|` of a number whose low bits are free with a number that has only low bits.
use Prim.Native.Nat.{bit_or, digits, bit_or-bitwise}
use native.Mathlib.Nat.{mul_assoc, pow-suc}
use chimp.Common.{ℕ, zero, suc, ◌+◌, ◌*◌, ◌/◌, ◌^◌, ◌≤◌, ◌<◌, ◌≡◌, max, refl, sym, ap, ◌∙◌, arith}

abbrev or_digits : ℕ → ℕ → ℕ → ℕ
or_digits n a b = digits (λ b. b) max n a b

or_digits_apart : (n k h a l : ℕ) → a ≤ n → a ≡ h * 2 ^ k → l < 2 ^ k → or_digits n a l ≡ a + l
or_digits_apart zero k h zero l p e q = omega arith
or_digits_apart zero k h (suc a) l p e q = absurd (omega arith)
or_digits_apart (suc n) k h zero l p e q = omega arith
or_digits_apart (suc n) zero h (suc a) l p e q = omega (
  arith,
  or_digits_apart n 0 (suc a / 2) (suc a / 2) (l / 2) (omega arith) (omega arith) (omega arith),
)
or_digits_apart (suc n) (suc k) h (suc a) l p e q =
    let double : h * 2 ^ suc k ≡ (h * 2 ^ k) * 2 =
      ap (λ t. h * t) (pow-suc 2 k) ∙ sym (mul_assoc h (2 ^ k) 2) in
    let half : 2 ^ suc k ≡ 2 ^ k * 2 = pow-suc 2 k in
    omega (
      arith,
      double,
      half,
      or_digits_apart n k h (suc a / 2) (l / 2) (omega arith) (omega (arith, double))
          (omega (arith, half)),
    )

pub bit_or_apart : (k h l : ℕ) → l < 2 ^ k → bit_or (h * 2 ^ k) l ≡ h * 2 ^ k + l
bit_or_apart k h l q =
    bit_or-bitwise (h * 2 ^ k) l
    ∙ or_digits_apart (h * 2 ^ k) k h (h * 2 ^ k) l (omega arith) refl q
