-- ===== src/Hw/Divider/Answer.antt =====
-- Division in the RISC-V M extension, and the results of the divider against it.
use native.Mathlib.Nat.{mod-le, div-le_self, lt_of_le_of_lt}
use qinglong_core.Prelude.{
  ℕ, ◌-◌, ◌/◌, ◌%◌, ◌^◌, ◌≤◌, ◌<◌, ◌≡◌, ◌≢◌, refl, sym, ap, ap₂, ◌∙◌, ◌==◌, leb, if◌then◌else◌,
  Bool, true, false, ◌&&◌, arith, Bool-cases, inl, inr,
}
use qinglong_core.Hw.Divider.{
  DivInput, Config, Datapath, latch_config, latch_path, signed, negate, is_neg, abs, xor,
}
use qinglong_core.Hw.Divider.Restore.{divide_steps}
use qinglong_core.Hw.Divider.Quotient.{divide_steps-quotient}

-- A word as a sign and a magnitude, and back.
abbrev pub negative : Bool → ℕ → Bool
negative s x = s && leb (2 ^ 31) x

abbrev pub magnitude : Bool → ℕ → ℕ
magnitude s x = if negative s x then 2 ^ 32 - x else x

abbrev pub word_of : Bool → ℕ → ℕ
word_of neg m = if neg then (2 ^ 32 - m) % 2 ^ 32 else m

-- DIV, DIVU, REM and REMU: division towards zero, with the answers of the standard for a divisor
-- of 0. The largest negative number divided by -1 is no special case here.
unfoldable pub riscv_div : Bool → ℕ → ℕ → ℕ
riscv_div s x y =
    if y == 0
    then 2 ^ 32 - 1
    else word_of (xor (negative s x) (negative s y)) (magnitude s x / magnitude s y)

unfoldable pub riscv_rem : Bool → ℕ → ℕ → ℕ
riscv_rem s x y = if y == 0 then x else word_of (negative s x) (magnitude s x % magnitude s y)

unfoldable pub answer : DivInput → ℕ
answer i =
    if i.want_rem
    then riscv_rem i.is_signed i.dividend i.divisor
    else riscv_div i.is_signed i.dividend i.divisor

-- What the last edges put into `result`.
abbrev pub fixed : Config → Datapath → ℕ
fixed c p = if c.rem then signed c.neg_r p.remainder else signed c.neg_q p.quotient

abbrev pub by_zero : Config → Datapath → ℕ
by_zero c p = if c.rem then signed c.neg_r p.dividend_abs else 2 ^ 32 - 1

abbrev pub overflown : Config → ℕ
overflown c = if c.rem then 0 else 2 ^ 31

-- The fields against the signs and the magnitudes.
is_neg-negative : (s : Bool) (x : ℕ) → x < 2 ^ 32 → is_neg s x ≡ negative s x
is_neg-negative s x l = ground arith

negate_word : (x : ℕ) → x < 2 ^ 32 → negate x ≡ (2 ^ 32 - x) % 2 ^ 32
negate_word x l = ap (λ (y : ℕ). y % 2 ^ 32) (omega (arith, l))

abs-magnitude : (s : Bool) (x : ℕ) → x < 2 ^ 32 → abs s x ≡ magnitude s x
abs-magnitude s x l = elim (Bool-cases (negative s x)) [
  | inl b ↦ let h : 2 ^ 31 ≤ x = ground arith in rw (is_neg-negative s x l, b) (omega (arith, l, h))
  | inr b ↦ rw (is_neg-negative s x l, b) refl
]

signed_word : (neg : Bool) (m : ℕ) → m < 2 ^ 32 → signed neg m ≡ word_of neg m
signed_word true m l = negate_word m l
signed_word false m l = refl

signed-abs : (s : Bool) (x : ℕ) → x < 2 ^ 32 → signed (is_neg s x) (abs s x) ≡ x
signed-abs s x l = elim (Bool-cases (is_neg s x)) [
  | inl b ↦ let h : 2 ^ 31 ≤ x = ground arith in rw b (omega (arith, l, h))
  | inr b ↦ rw b refl
]

pub by_zero-answer :
    (i : DivInput)
    → i.dividend < 2 ^ 32
    → (i.divisor == 0) ≡ true
    → by_zero (latch_config i) (latch_path i) ≡ answer i
unfolding answer riscv_div riscv_rem
by_zero-answer i l z = rw (z, signed-abs i.is_signed i.dividend l) refl

pub overflown_answer :
    (rem s : Bool) (x y : ℕ)
    → s ≡ true
    → x ≡ 2 ^ 31
    → y ≡ 2 ^ 32 - 1
    → (if rem then 0 else 2 ^ 31) ≡ (if rem then riscv_rem s x y else riscv_div s x y)
unfolding riscv_div riscv_rem
overflown_answer rem s x y es ex ey = rw (es, ex, ey) (elim rem [ true ↦ refl | false ↦ refl ])

pub magnitude_lt : (s : Bool) (x : ℕ) → x < 2 ^ 32 → magnitude s x < 2 ^ 32
magnitude_lt s x l = ground arith

magnitude_pos : (s : Bool) (x : ℕ) → x < 2 ^ 32 → x ≢ 0 → magnitude s x ≢ 0
magnitude_pos s x l n = ground arith

signed_as : (b b' : Bool) (m m' : ℕ) → b ≡ b' → m ≡ m' → m' < 2 ^ 32 → signed b m ≡ word_of b' m'
signed_as b b' m m' e f l = ap₂ signed e f ∙ signed_word b' m' l

chosen :
    (rem zero_divisor : Bool) (a a' b b' x y : ℕ)
    → zero_divisor ≡ false
    → a ≡ a'
    → b ≡ b'
    → (if rem then a else b)
      ≡ (if rem then (if zero_divisor then x else a') else (if zero_divisor then y else b'))
chosen rem zero_divisor a a' b b' x y z ea eb = ground arith

pub fixed-answer :
    (i : DivInput)
    → i.dividend < 2 ^ 32
    → i.divisor < 2 ^ 32
    → (i.divisor == 0) ≡ false
    → fixed (latch_config i) (divide_steps 32 (latch_path i)) ≡ answer i
unfolding answer riscv_div riscv_rem
fixed-answer i lx ly z =
    let mx = magnitude i.is_signed i.dividend in
    let my = magnitude i.is_signed i.divisor in
    let ax = abs-magnitude i.is_signed i.dividend lx in
    let ay = abs-magnitude i.is_signed i.divisor ly in
    let bx = magnitude_lt i.is_signed i.dividend lx in
    let by = magnitude_lt i.is_signed i.divisor ly in
    let nx = is_neg-negative i.is_signed i.dividend lx in
    let ny = is_neg-negative i.is_signed i.divisor ly in
    let (q, r) =
      divide_steps-quotient (latch_path i) refl refl (omega (arith, ax, bx)) (omega (arith, ay, by))
        (λ e. magnitude_pos i.is_signed i.divisor ly (λ d. ground arith) (sym ay ∙ e)) in
    chosen i.want_rem (i.divisor == 0) _ _ _ _ _ _ z
      (signed_as _ _ _ _ nx (r ∙ ap₂ (λ (a b : ℕ). a % b) ax ay) (lt_of_le_of_lt (mod-le mx my) bx))
      (signed_as _ _ _ _ (ap₂ xor nx ny) (q ∙ ap₂ (λ (a b : ℕ). a / b) ax ay)
        (lt_of_le_of_lt (div-le_self mx my) bx))
