-- ===== src/Hw/Divider/Quotient.antt =====
-- Thirty-two steps on a whole word.
use native.Mathlib.Nat.{
  pow-suc, mul-le-mul_right, mul-add-div, mul-add-mod_self_left, div-eq_of_lt, mod-eq_of_lt,
  add-zero,
}
use qinglong_core.Prelude.{
  ℕ, zero, suc, ◌+◌, ◌-◌, ◌*◌, ◌/◌, ◌%◌, ◌^◌, ◌≤◌, ◌<◌, ◌≡◌, refl, sym, ap, ◌∙◌, u32, arith,
  Bool-cases, inl, inr, ltb, ltb→lt, ◌≢◌,
}
use qinglong_core.Hw.Divider.{Datapath}
use qinglong_core.Hw.Divider.Restore.{divide_steps, top_bits, divide_steps-Divides}

factor_pos : (k c : ℕ) → k * c ≡ 2 ^ 31 → 1 ≤ c
factor_pos k zero e = absurd (omega (arith, e))
factor_pos k (suc c) e = omega arith

-- The first bit of `m` places at `c`.
low_half :
    (k c m : ℕ)
    → k * c ≡ 2 ^ 31
    → m < k
    → (m * c / 2 ^ 31 % 2 ≡ 0) × (u32 (m * c * 2) ≡ m * (c * 2))
low_half k c m e l =
    let h : (m + 1) * c ≤ k * c = mul-le-mul_right c (omega (arith, l)) in
    let low : m * c < 2 ^ 31 = omega (arith, h, e, factor_pos k c e) in
    (omega (arith, low), omega (arith, low))

high_half :
    (k c m : ℕ)
    → k * c ≡ 2 ^ 31
    → k ≤ m
    → m < 2 * k
    → (m * c / 2 ^ 31 % 2 ≡ 1) × (u32 (m * c * 2) ≡ (m - k) * (c * 2))
high_half k c m e g l =
    let (z, s) = low_half k c (m - k) e (omega (arith, g, l)) in
    let split : (m - k + k) * c ≡ m * c = ap (λ (x : ℕ). x * c) (omega (arith, g)) in
    (omega (arith, split, z, e), omega (arith, split, s, e))

top_bits-places : (k c m : ℕ) → 2 ^ k * c ≡ 2 ^ 32 → m < 2 ^ k → top_bits k (m * c) ≡ m
unfolding top_bits
top_bits-places zero c m e l = omega arith
top_bits-places (suc k) c m e l =
    let half : 2 ^ k * c ≡ 2 ^ 31 = omega (arith, e, ap (λ (x : ℕ). x * c) (pow-suc 2 k)) in
    let full : 2 ^ k * (c * 2) ≡ 2 ^ 32 = omega (arith, half) in
    elim (Bool-cases (ltb m (2 ^ k))) [
      | inl b ↦
          let (z, s) = low_half (2 ^ k) c m half (ground arith) in
          let rest = top_bits-places k (c * 2) m full (ground arith) in
          rw (z, s, rest) (omega arith)
      | inr b ↦
          let (z, s) = high_half (2 ^ k) c m half (ground arith) (omega (arith, l, pow-suc 2 k)) in
          let rest =
            top_bits-places k (c * 2) (m - 2 ^ k) full
              (omega (arith, l, pow-suc 2 k, ltb→lt m (2 ^ k))) in
          rw (z, s, rest) (ground arith)
    ]

pub euclid : (d q r a : ℕ) → r < d → d * q + r ≡ a → (q ≡ a / d) × (r ≡ a % d)
euclid d q r a l e =
    let pos : 0 < d = omega (arith, l) in
    (
      sym (add-zero q)
          ∙ ap (λ (x : ℕ). q + x) (sym (div-eq_of_lt l))
          ∙ sym (mul-add-div pos q r)
          ∙ ap (λ (x : ℕ). x / d) e,
      sym (mod-eq_of_lt l) ∙ sym (mul-add-mod_self_left d q r) ∙ ap (λ (x : ℕ). x % d) e,
    )

-- From an empty quotient, thirty-two steps divide a word by a word.
pub divide_steps-quotient :
    (p : Datapath)
    → p.remainder ≡ 0
    → p.quotient ≡ 0
    → p.dividend_abs < 2 ^ 32
    → p.divisor_abs < 2 ^ 32
    → p.divisor_abs ≢ 0
    → ((divide_steps 32 p).quotient ≡ p.dividend_abs / p.divisor_abs)
      × ((divide_steps 32 p).remainder ≡ p.dividend_abs % p.divisor_abs)
divide_steps-quotient p r q a b nz =
    let d =
      divide_steps-Divides 32 p
        (record { room = omega (arith, q); small = omega (arith, r, nz); word = b }) in
    let whole : top_bits 32 p.dividend_abs ≡ p.dividend_abs =
      ap (top_bits 32) (omega arith) ∙ top_bits-places 32 1 p.dividend_abs refl a in
    let whole_sum : p.divisor_abs * (divide_steps 32 p).quotient + (divide_steps 32 p).remainder
        ≡ p.dividend_abs =
      d.sum ∙ rw (r, q, whole) (omega arith) in
    euclid p.divisor_abs (divide_steps 32 p).quotient (divide_steps 32 p).remainder p.dividend_abs
      d.rem_lt whole_sum
