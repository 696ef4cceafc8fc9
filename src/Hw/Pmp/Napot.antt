-- ===== src/Hw/Pmp/Napot.antt =====
-- The masks of a naturally aligned entry are an address range.
use Prim.Native.Nat.{bit_xor, min, differ}
use native.Mathlib.Nat.{
  pow-suc, one-le-pow, div-div-eq-div-mul, div-add-mod, mod-lt, mod-eq_of_lt, mod_self,
}
use qinglong_core.Prelude.Digits.{bit_and_low, bit_xor_low, zero-bit_and}
use qinglong_core.Prelude.{
  ℕ, zero, suc, ◌+◌, ◌-◌, ◌*◌, ◌/◌, ◌%◌, ◌^◌, ◌≤◌, ◌<◌, ◌≡◌, refl, ap, ap₂, ◌≢◌, Bool-cases, ◌∙◌,
  ◌==◌, ltb, leb, if◌then◌else◌, Bool, true, false, ◌&&◌, bit_and, arith, sym, inl, inr, le_or_lt,
}
use qinglong_core.Hw.Divider.Quotient.{euclid}
use qinglong_core.Hw.Pmp.{match_napot}

-- The masks on `w` bits.
abbrev run_on : ℕ → ℕ → ℕ
run_on w a = bit_xor a ((a + 1) % 2 ^ w)

abbrev cmp_on : ℕ → ℕ → ℕ
cmp_on w a = 2 ^ w - 1 - run_on w a

-- The number of words that such an address stands for: 2, and twice that for each one at its end.
unfoldable pub granule : ℕ → ℕ → ℕ
granule zero a = 1
granule (suc w) a = if a % 2 == 0 then 2 else 2 * granule w (a / 2)

differ_self : (x : ℕ) → differ x x ≡ 0
differ_self zero = refl
differ_self (suc x) = differ_self x

differ_next : (x y : ℕ) → x ≡ 0 → y ≡ 1 → differ x y ≡ 1
differ_next x y ex ey = rw (ex, ey) refl

xor_self : (w a : ℕ) → a < 2 ^ w → bit_xor a a ≡ 0
xor_self zero a l = let z : a ≡ 0 = omega (arith, l) in rw z refl
xor_self (suc w) a l = omega (
  arith,
  bit_xor_low a a,
  xor_self w (a / 2) (omega (arith, l, pow-suc 2 w)),
  differ_self (a % 2),
)

-- The successor on a width, halved.
succ_even : (m a : ℕ) → a < m * 2 → a % 2 ≡ 0 → (a + 1) % (m * 2) ≡ a + 1
succ_even m a l e = mod-eq_of_lt (omega (arith, l, e))

succ_odd : (m a : ℕ) → a < m * 2 → a % 2 ≡ 1 → (a + 1) % (m * 2) ≡ (a / 2 + 1) % m * 2
succ_odd m a l e = elim (le_or_lt m (a / 2 + 1)) [
  | inl full ↦
      let h : a / 2 + 1 ≡ m = omega (arith, l, full) in
      let g : a + 1 ≡ m * 2 = omega (arith, h, e) in rw (h, g, mod_self m, mod_self (m * 2)) refl
  | inr below ↦
      rw
        (
          mod-eq_of_lt {n = a + 1} {m = m * 2} (omega (arith, below, e)),
          mod-eq_of_lt {n = a / 2 + 1} {m = m} below,
        )
        (omega (arith, e))
]

run_even : (w a : ℕ) → a < 2 ^ suc w → a % 2 ≡ 0 → run_on (suc w) a ≡ 1
run_even w a l e =
    let m : 2 ^ suc w ≡ 2 ^ w * 2 = pow-suc 2 w in
    let s : (a + 1) % 2 ^ suc w ≡ a + 1 = rw m (succ_even (2 ^ w) a (omega (arith, l, m)) e) in
    rw s (
      omega (
        arith,
        bit_xor_low a (a + 1),
        ap (bit_xor (a / 2)) (half e),
        xor_self w (a / 2) (omega (arith, l, m)),
        differ_next (a % 2) ((a + 1) % 2) e (omega (arith, e)),
      ))
  where
    half : a % 2 ≡ 0 → (a + 1) / 2 ≡ a / 2
    half h = omega (arith, h)

run_odd : (w a : ℕ) → a < 2 ^ suc w → a % 2 ≡ 1 → run_on (suc w) a ≡ run_on w (a / 2) * 2 + 1
run_odd w a l e =
    let m : 2 ^ suc w ≡ 2 ^ w * 2 = pow-suc 2 w in
    let s : (a + 1) % 2 ^ suc w ≡ (a / 2 + 1) % 2 ^ w * 2 =
      rw m (succ_odd (2 ^ w) a (omega (arith, l, m)) e) in
    rw s (bit_xor_low a ((a / 2 + 1) % 2 ^ w * 2) ∙ halves ((a / 2 + 1) % 2 ^ w))
  where
    halves :
        (y : ℕ)
        → bit_xor (a / 2) (y * 2 / 2) * 2 + differ (a % 2) (y * 2 % 2) ≡ bit_xor (a / 2) y * 2 + 1
    halves y =
        let d : y * 2 / 2 ≡ y = omega arith in
        let z : y * 2 % 2 ≡ 0 = omega arith in rw (d, z, e) refl

granule_pos : (w a : ℕ) → 0 < granule w a
unfolding granule
granule_pos zero a = omega arith
granule_pos (suc w) a = ground (arith, granule_pos w (a / 2))

min_zero : (x : ℕ) → min x 0 ≡ 0
min_zero x = omega arith

min_one : (x : ℕ) → min (x % 2) 1 ≡ x % 2
min_one x = bit (x % 2) (omega arith)
  where
    bit : (y : ℕ) → y < 2 → min y 1 ≡ y
    bit zero l = refl
    bit (suc zero) l = refl
    bit (suc (suc y)) l = absurd (omega arith)

-- `&` with a number by its halves.
and_double : (x n : ℕ) → bit_and x (n * 2) ≡ bit_and (x / 2) n * 2
and_double x n =
    let d : n * 2 / 2 ≡ n = omega arith in
    let z : n * 2 % 2 ≡ 0 = omega arith in
    bit_and_low x (n * 2) ∙ rw (d, z, min_zero (x % 2)) (omega arith)

and_double_one : (x n : ℕ) → bit_and x (n * 2 + 1) ≡ bit_and (x / 2) n * 2 + x % 2
and_double_one x n =
    let d : (n * 2 + 1) / 2 ≡ n = omega arith in
    let z : (n * 2 + 1) % 2 ≡ 1 = omega arith in
    bit_and_low x (n * 2 + 1) ∙ rw (d, z, min_one x) refl

-- All ones on the width keep a number.
and_ones : (w x : ℕ) → x < 2 ^ w → bit_and x (2 ^ w - 1) ≡ x
and_ones zero x l = let z : x ≡ 0 = omega (arith, l) in rw z refl
and_ones (suc w) x l =
    let m : 2 ^ suc w - 1 ≡ (2 ^ w - 1) * 2 + 1 = omega (arith, pow-suc 2 w, one-le-pow w 2) in
    rw m (
      and_double_one x (2 ^ w - 1)
      ∙ omega (arith, and_ones w (x / 2) (omega (arith, l, pow-suc 2 w))))

-- The mask clears the place in the granule.
mask_low :
    (w a x : ℕ) → a < 2 ^ w → x < 2 ^ w → bit_and x (cmp_on w a) ≡ x / granule w a * granule w a
unfolding granule
mask_low zero a x la lx = let z : x ≡ 0 = omega (arith, lx) in rw z (zero-bit_and (cmp_on 0 a))
mask_low (suc w) a x la lx =
    let m : 2 ^ suc w ≡ 2 ^ w * 2 = pow-suc 2 w in
    elim (Bool-cases (a % 2 == 0)) [
      | inl even ↦
          let c : cmp_on (suc w) a ≡ (2 ^ w - 1) * 2 =
            omega (arith, run_even w a la (ground arith), m, one-le-pow w 2) in
          rw (even, c)
            (and_double x (2 ^ w - 1) ∙ omega (arith, and_ones w (x / 2) (omega (arith, lx, m))))
      | inr odd ↦
          let c : cmp_on (suc w) a ≡ cmp_on w (a / 2) * 2 =
            omega (arith, run_odd w a la (ground arith), m) in
          let g = granule w (a / 2) in
          rw (odd, c)
            (and_double x (cmp_on w (a / 2))
              ∙ ap (λ (y : ℕ). y * 2)
                  (mask_low w (a / 2) (x / 2) (omega (arith, la, m)) (omega (arith, lx, m)))
              ∙ whole x g)
    ]
  where
    whole : (y g : ℕ) → y / 2 / g * g * 2 ≡ y / (2 * g) * (2 * g)
    whole y g = omega (arith, ap (λ (z : ℕ). z * g) (div-div-eq-div-mul y 2 g))

same_granule :
    (g a h : ℕ) → 0 < g → (h / g * g == a / g * g) ≡ (leb (a / g * g) h && ltb h (a / g * g + g))
same_granule g a h pos = elim (Bool-cases (leb (a / g * g) h && ltb h (a / g * g + g))) [
  | inl inside ↦
      let lo : a / g * g ≤ h = ground arith in
      let hi : h < a / g * g + g = ground arith in
      let q = euclid g (a / g) (h - a / g * g) h (omega (arith, lo, hi)) (omega (arith, lo)) in
      rw (inside, sym q.0) (==_self (a / g * g))
  | inr outside ↦ rw outside (
      not_same (h / g * g) (a / g * g) λ e.
        not_inside outside (omega (arith, e, div-add-mod h g))
          (omega (arith, e, div-add-mod h g, mod-lt h pos)))
]
  where
    ==_self : (x : ℕ) → (x == x) ≡ true
    ==_self x = ground arith

    not_same : (x y : ℕ) → x ≢ y → (x == y) ≡ false
    not_same x y n = ground arith

    not_inside :
        (leb (a / g * g) h && ltb h (a / g * g + g)) ≡ false → a / g * g ≤ h → h < a / g * g + g → ⊥
    not_inside o lo hi = ground arith

-- The words that an entry of this mode covers: a range of their numbers.
abbrev pub in_napot : ℕ → ℕ → Bool
in_napot this hi =
    let size = granule 30 this in leb (this / size * size) hi && ltb hi (this / size * size + size)

pub match_napot-in_napot :
    (this hi : ℕ) → this < 2 ^ 30 → hi < 2 ^ 30 → match_napot this hi ≡ in_napot this hi
unfolding match_napot
match_napot-in_napot this hi lt lh =
    ap₂ (λ (x y : ℕ). x == y) (mask_low 30 this hi lt lh) (mask_low 30 this this lt lt)
    ∙ same_granule (granule 30 this) this hi (granule_pos 30 this)
