-- ===== src/Hw/Multiplier/Riscv.antt =====
-- The multiplier against the multiplication of the RISC-V M extension.
use native.Mathlib.Nat.{mul_comm, mul-le-mul_right}
use qinglong_core.Prelude.{
  ℕ, ◌+◌, ◌-◌, ◌*◌, ◌/◌, ◌%◌, ◌^◌, ◌≤◌, ◌<◌, ◌≡◌, ap, ap₂, ◌∙◌, if◌then◌else◌, Bool, true, false,
  arith,
}
use qinglong_core.Hw.Divider.{xor}
use qinglong_core.Hw.Divider.Answer.{negative, magnitude, magnitude_lt}
use qinglong_core.Hw.Multiplier.{extend, widen, product, multiply}

-- The product of two integers, each with a sign and a magnitude, on 64 bits.
unfoldable pub riscv_product : Bool → Bool → ℕ → ℕ → ℕ
riscv_product s t a b =
    if xor (negative s a) (negative t b)
    then (2 ^ 64 - magnitude s a * magnitude t b) % 2 ^ 64
    else magnitude s a * magnitude t b

-- MUL gives the low half, the others the high half.
unfoldable pub riscv_mul : Bool → Bool → Bool → ℕ → ℕ → ℕ
riscv_mul s t hi a b = if hi then riscv_product s t a b / 2 ^ 32 else riscv_product s t a b % 2 ^ 32

-- A number of the 66 bits, by its sign and magnitude.
abbrev wide : Bool → ℕ → ℕ
wide neg m = if neg then 2 ^ 66 - m else m

widen-extend :
    (s : Bool) (a : ℕ) → a < 2 ^ 32 → widen (extend s a) ≡ wide (negative s a) (magnitude s a)
widen-extend s a l = ground arith

product_lt : (m n : ℕ) → m < 2 ^ 32 → n < 2 ^ 32 → m * n < 2 ^ 64
product_lt m n lm ln =
    let h : m * n ≤ 2 ^ 32 * n = mul-le-mul_right n (omega (arith, lm)) in omega (arith, h, ln)

-- The products with one and with two complements.
one_complement :
    (x m n : ℕ)
    → x + m ≡ 2 ^ 66
    → m * n < 2 ^ 64
    → x * n % 2 ^ 66 % 2 ^ 64 ≡ (2 ^ 64 - m * n) % 2 ^ 64
one_complement x m n e l =
    let s : (x + m) * n ≡ 2 ^ 66 * n = ap (λ (y : ℕ). y * n) e in omega (arith, s, l)

two_complements :
    (x y m n : ℕ)
    → x + m ≡ 2 ^ 66
    → y + n ≡ 2 ^ 66
    → m * n < 2 ^ 64
    → x * y % 2 ^ 66 % 2 ^ 64 ≡ m * n
two_complements x y m n e f l =
    let s : (x + m) * y ≡ 2 ^ 66 * y = ap (λ (z : ℕ). z * y) e in
    let t : m * (y + n) ≡ m * 2 ^ 66 = ap (λ (z : ℕ). m * z) f in omega (arith, s, t, l, f)

-- The 64 bits of the product that are used.
wide_product :
    (p q : Bool) (m n : ℕ)
    → m < 2 ^ 32
    → n < 2 ^ 32
    → wide p m * wide q n % 2 ^ 66 % 2 ^ 64 ≡ (if xor p q then (2 ^ 64 - m * n) % 2 ^ 64 else m * n)
wide_product true true m n lm ln =
    two_complements _ _ m n (omega (arith, lm)) (omega (arith, ln)) (product_lt m n lm ln)
wide_product true false m n lm ln = one_complement _ m n (omega (arith, lm)) (product_lt m n lm ln)
wide_product false true m n lm ln =
    ap (λ (x : ℕ). x % 2 ^ 66 % 2 ^ 64) (mul_comm m (2 ^ 66 - n))
    ∙ one_complement (2 ^ 66 - n) n m (omega (arith, ln)) (product_lt n m ln lm)
    ∙ ap (λ (x : ℕ). (2 ^ 64 - x) % 2 ^ 64) (mul_comm n m)
wide_product false false m n lm ln = let l = product_lt m n lm ln in omega (arith, l)

product_is :
    (s t : Bool) (a b : ℕ)
    → a < 2 ^ 32
    → b < 2 ^ 32
    → product s t a b % 2 ^ 64 ≡ riscv_product s t a b
unfolding product riscv_product
product_is s t a b la lb =
    ap₂ (λ (x y : ℕ). x * y % 2 ^ 66 % 2 ^ 64) (widen-extend s a la) (widen-extend t b lb)
    ∙ wide_product (negative s a) (negative t b) (magnitude s a) (magnitude t b)
        (magnitude_lt s a la) (magnitude_lt t b lb)

high_of : (p : ℕ) → p / 2 ^ 32 % 2 ^ 32 ≡ p % 2 ^ 64 / 2 ^ 32
high_of p = omega arith

low_of : (p : ℕ) → p % 2 ^ 32 ≡ p % 2 ^ 64 % 2 ^ 32
low_of p = omega arith

-- For all words the multiplier gives the half of the 64-bit product of the two integers that MUL,
-- MULH, MULHSU and MULHU ask for, each operand taken as signed or as unsigned.
pub multiply-riscv_mul :
    (s t hi : Bool) (a b : ℕ) → a < 2 ^ 32 → b < 2 ^ 32 → multiply s t hi a b ≡ riscv_mul s t hi a b
unfolding multiply riscv_mul
multiply-riscv_mul s t true a b la lb =
    high_of (product s t a b) ∙ ap (λ (x : ℕ). x / 2 ^ 32) (product_is s t a b la lb)
multiply-riscv_mul s t false a b la lb =
    low_of (product s t a b) ∙ ap (λ (x : ℕ). x % 2 ^ 32) (product_is s t a b la lb)
