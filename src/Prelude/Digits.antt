-- ===== src/Prelude/Digits.antt =====
-- `&` and `^` by their lowest digits.
use Prim.Native.Nat.{
  ℕ, zero, suc, ◌+◌, ◌*◌, ◌/◌, ◌%◌, ◌≤◌, min, digits, differ, bitwise, bit_and, bit_xor,
  bit_and-bitwise, bit_xor-bitwise,
}
use mathlib.Core.Path.{◌≡◌, refl}
use native.Mathlib.Omega.{arith}

module _ (rest : ℕ → ℕ) (op : ℕ → ℕ → ℕ) where
  -- More fuel than the first number needs changes nothing.
  digits-le :
      (few many a b : ℕ) → a ≤ few → few ≤ many → digits rest op few a b ≡ digits rest op many a b
  digits-le zero zero a b enough more = refl
  digits-le zero (suc many) zero b enough more = refl
  digits-le zero (suc many) (suc a) b enough more = absurd (omega arith)
  digits-le (suc few) zero a b enough more = absurd (omega arith)
  digits-le (suc few) (suc many) zero b enough more = refl
  digits-le (suc few) (suc many) (suc a) b enough more =
      rw (digits-le few many (suc a / 2) (b / 2) (omega arith) (omega arith))

  bitwise_low :
      (a b : ℕ)
      → bitwise rest op (suc a) b ≡ bitwise rest op (suc a / 2) (b / 2) * 2 + op (suc a % 2) (b % 2)
  bitwise_low a b =
      rw (digits-le (suc a / 2) a (suc a / 2) (b / 2) (omega arith) (omega arith)) refl

pub bit_and_low : (a b : ℕ) → bit_and a b ≡ bit_and (a / 2) (b / 2) * 2 + min (a % 2) (b % 2)
bit_and_low zero b = simp bit_and-bitwise (omega arith)
bit_and_low (suc a) b = simp bit_and-bitwise (bitwise_low (λ y. 0) min a b)

pub bit_xor_low : (a b : ℕ) → bit_xor a b ≡ bit_xor (a / 2) (b / 2) * 2 + differ (a % 2) (b % 2)
bit_xor_low zero b = simp bit_xor-bitwise (omega arith)
bit_xor_low (suc a) b = simp bit_xor-bitwise (bitwise_low (λ y. y) differ a b)

pub zero-bit_and : (n : ℕ) → bit_and 0 n ≡ 0
zero-bit_and n = simp bit_and-bitwise refl
