-- ===== src/Hw/Divider/Restore.antt =====
-- The restoring steps as arithmetic: they divide.
use native.Mathlib.Nat.{pow-suc, mul-le-mul_left}
use mathlib.Core.Path.{subst}
use qinglong_core.Prelude.{
  ℕ, zero, suc, ◌+◌, ◌-◌, ◌*◌, ◌/◌, ◌%◌, ◌^◌, ◌≤◌, ◌<◌, ◌≡◌, ◌≢◌, refl, sym, ap, ◌∙◌, ◌==◌, true,
  false, not, u32, arith, Bool-cases, inl, inr,
}
use qinglong_core.Hw.Divider.{Datapath, r_shift, r_ge, divide_step}

unfoldable pub divide_steps : ℕ → Datapath → Datapath
divide_steps zero p = p
divide_steps (suc k) p = divide_steps k (divide_step p)

-- The top `k` bits of a 32-bit word as a number.
unfoldable pub top_bits : ℕ → ℕ → ℕ
top_bits zero n = 0
top_bits (suc k) n = n / 2 ^ 31 % 2 * 2 ^ k + top_bits k (u32 (n * 2))

-- Whether the subtraction on 33 bits borrows.
no_borrow :
    (t d : ℕ)
    → t < 2 * d
    → d < 2 ^ 32
    → not ((t + 2 ^ 33 - d) % 2 ^ 33 / 2 ^ 32 == 1) ≡ true
    → (d ≤ t) × (u32 ((t + 2 ^ 33 - d) % 2 ^ 33) ≡ t - d)
no_borrow t d l b g =
    let h : (t + 2 ^ 33 - d) % 2 ^ 33 / 2 ^ 32 ≢ 1 = ground arith in
    (omega (arith, h), omega (arith, h))

borrow :
    (t d : ℕ)
    → t < 2 * d
    → d < 2 ^ 32
    → not ((t + 2 ^ 33 - d) % 2 ^ 33 / 2 ^ 32 == 1) ≡ false
    → t < d
borrow t d l b g = let h : (t + 2 ^ 33 - d) % 2 ^ 33 / 2 ^ 32 ≡ 1 = ground arith in omega (arith, h)

-- What a step finds: a bit of the quotient, and the new remainder.
record Found (p : Datapath) : Type 0 where
  bit : ℕ
  bit_le : bit ≤ 1
  quotient_is : (divide_step p).quotient ≡ u32 (p.quotient * 2 + bit)
  splits : r_shift p ≡ p.divisor_abs * bit + (divide_step p).remainder
  below : (divide_step p).remainder < p.divisor_abs

step-Found : (p : Datapath) → p.remainder < p.divisor_abs → p.divisor_abs < 2 ^ 32 → Found p
unfolding divide_step
step-Found p l d = elim (Bool-cases (r_ge p)) [
  | inl g ↦
      let (le, e) = no_borrow (r_shift p) p.divisor_abs (omega arith) d g in
      record {
        bit = 1;
        bit_le = omega arith;
        quotient_is = rw g refl;
        splits = rw (g, e) (omega (arith, le));
        below = rw (g, e) (omega (arith, le));
      }
  | inr g ↦
      let lt = borrow (r_shift p) p.divisor_abs (omega arith) d g in
      record {
        bit = 0;
        bit_le = omega arith;
        quotient_is = rw g (omega arith);
        splits = rw g (omega (arith, lt));
        below = rw g (omega (arith, lt));
      }
]

-- What the steps keep: the quotient so far has room for the bits to come.
pub record Fits (k : ℕ) (p : Datapath) : Type 0 where
  pub room : (p.quotient + 1) * 2 ^ k ≤ 2 ^ 32
  pub small : p.remainder < p.divisor_abs
  pub word : p.divisor_abs < 2 ^ 32

pub record Divides (k : ℕ) (p p' : Datapath) : Type 0 where
  pub sum :
      p.divisor_abs * p'.quotient + p'.remainder
      ≡ p.divisor_abs * (p.quotient * 2 ^ k) + (p.remainder * 2 ^ k + top_bits k p.dividend_abs)
  pub rem_lt : p'.remainder < p.divisor_abs

same_divisor : (p : Datapath) → (divide_step p).divisor_abs ≡ p.divisor_abs
unfolding divide_step
same_divisor p = refl

shifted_dividend : (p : Datapath) → (divide_step p).dividend_abs ≡ u32 (p.dividend_abs * 2)
unfolding divide_step
shifted_dividend p = refl

-- One bit of a long division, with the steps behind it.
sum_step :
    (d q r b r' bit k t x : ℕ)
    → r * 2 + bit ≡ d * b + r'
    → x ≡ d * ((q * 2 + b) * k) + (r' * k + t)
    → x ≡ d * (q * (2 * k)) + (r * (2 * k) + (bit * k + t))
sum_step d q r b r' bit k t x split e =
    let scaled : (r * 2 + bit) * k ≡ (d * b + r') * k = ap (λ (y : ℕ). y * k) split in
    omega (arith, scaled, e)

two_pow_pos : (k : ℕ) → 1 ≤ 2 ^ k
two_pow_pos zero = omega arith
two_pow_pos (suc k) = omega (arith, two_pow_pos k, pow-suc 2 k)

exact :
    (q b k : ℕ)
    → b ≤ 1
    → 1 ≤ k
    → (q + 1) * (2 * k) ≤ 2 ^ 32
    → (u32 (q * 2 + b) ≡ q * 2 + b) × ((q * 2 + b + 1) * k ≤ 2 ^ 32)
exact q b k lb lk h =
    let m : (q * 2 + 2) * 1 ≤ (q * 2 + 2) * k = mul-le-mul_left (q * 2 + 2) lk in
    let n : k * (q * 2 + b + 1) ≤ k * (q * 2 + 2) = mul-le-mul_left k (omega (arith, lb)) in
    (omega (arith, m, h, lb), omega (arith, n, h))

step-Fits : (k : ℕ) (p : Datapath) (found : Found p) → Fits (suc k) p → Fits k (divide_step p)
step-Fits k p found f =
    let e : 2 ^ suc k ≡ 2 * 2 ^ k = omega (arith, pow-suc 2 k) in
    let (q, r) =
      exact p.quotient found.bit (2 ^ k) found.bit_le (two_pow_pos k)
        (subst (λ (x : ℕ). (p.quotient + 1) * x ≤ 2 ^ 32) e f.room) in
    record {
      room = subst (λ (x : ℕ). (x + 1) * 2 ^ k ≤ 2 ^ 32) (sym (found.quotient_is ∙ q)) r;
      small = omega (arith, found.below, same_divisor p);
      word = omega (arith, f.word, same_divisor p);
    }

exact_quotient :
    (k : ℕ) (p : Datapath) (found : Found p)
    → Fits (suc k) p
    → (divide_step p).quotient ≡ p.quotient * 2 + found.bit
exact_quotient k p found f =
    let e : 2 ^ suc k ≡ 2 * 2 ^ k = omega (arith, pow-suc 2 k) in
    let (q, r) =
      exact p.quotient found.bit (2 ^ k) found.bit_le (two_pow_pos k)
        (subst (λ (x : ℕ). (p.quotient + 1) * x ≤ 2 ^ 32) e f.room) in
    found.quotient_is ∙ q

restated :
    (d d' q q' k r t t' x y : ℕ)
    → d' ≡ d
    → q' ≡ q
    → t' ≡ t
    → d' * x + y ≡ d' * (q' * k) + (r * k + t')
    → d * x + y ≡ d * (q * k) + (r * k + t)
restated d d' q q' k r t t' x y ed eq et h = cc

pub divide_steps-Divides : (k : ℕ) (p : Datapath) → Fits k p → Divides k p (divide_steps k p)
unfolding divide_steps top_bits
divide_steps-Divides zero p f = record { sum = omega arith; rem_lt = f.small }
divide_steps-Divides (suc k) p f =
    let found = step-Found p f.small f.word in
    let rest = divide_steps-Divides k (divide_step p) (step-Fits k p found f) in
    record {
      sum =
          sum_step p.divisor_abs p.quotient p.remainder found.bit (divide_step p).remainder
            (p.dividend_abs / 2 ^ 31 % 2) (2 ^ k) (top_bits k (u32 (p.dividend_abs * 2))) _
            found.splits
            (restated p.divisor_abs _ _ _ (2 ^ k) _ _ _ _ _ (same_divisor p)
              (exact_quotient k p found f) (ap (top_bits k) (shifted_dividend p)) rest.sum)
          ∙ ap
              (λ (z : ℕ).
                p.divisor_abs * (p.quotient * z)
                + (p.remainder * z
                    + (p.dividend_abs / 2 ^ 31 % 2 * 2 ^ k
                        + top_bits k (u32 (p.dividend_abs * 2)))))
              (omega (arith, pow-suc 2 k));
      rem_lt = omega (arith, rest.rem_lt, same_divisor p);
    }
