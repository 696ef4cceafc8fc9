-- ===== src/Prelude/Bits.antt =====
-- `|` of a low field and a shifted byte, as a sum, at every width: what a loop that assembles a
-- little-endian word does.
use Prim.Native.Nat.{
  ℕ, zero, suc, ◌+◌, ◌*◌, ◌/◌, ◌^◌, ◌≤◌, ◌<◌, max, digits, bit_or, bit_or-bitwise,
}
use mathlib.Core.Path.{◌≡◌, ap, ◌∙◌}
use native.Mathlib.Nat.{le_refl, pow-suc}
use native.Mathlib.Omega.{arith}

-- A number shifted left by `suc k` is even, and its half is shifted by `k`.
shifted_suc : (q k : ℕ) → q * 2 ^ suc k ≡ 2 * (q * 2 ^ k)
shifted_suc q k = omega (arith, ap (λ (t : ℕ). q * t) (pow-suc 2 k))

shifted_half : (q k : ℕ) → q * 2 ^ suc k / 2 ≡ q * 2 ^ k
shifted_half q k = omega (arith, shifted_suc q k)

-- The recursion on the digits of `low`, whatever fuel is left to it.
low-digits :
    (left k low q : ℕ)
    → low ≤ left
    → low < 2 ^ k
    → digits (λ y. y) max left low (q * 2 ^ k) ≡ low + q * 2 ^ k
low-digits zero k zero q enough fits = omega arith
low-digits zero k (suc low) q enough fits = absurd (omega arith)
low-digits (suc left) k zero q enough fits = omega arith
low-digits (suc left) zero (suc low) q enough fits = absurd (omega arith)
low-digits (suc left) (suc k) (suc low) q enough fits = omega (
  arith,
  shifted_suc q k,
  ap (λ (t : ℕ). digits (λ y. y) max left (suc low / 2) t) (shifted_half q k),
  low-digits left k (suc low / 2) q (omega arith) (omega (arith, pow-suc 2 k)),
)

-- `low | (q << k)` is a sum when `low` fits `k` bits.
pub low-bit_or : (k low q : ℕ) → low < 2 ^ k → bit_or low (q * 2 ^ k) ≡ low + q * 2 ^ k
low-bit_or k low q fits = bit_or-bitwise low (q * 2 ^ k) ∙ low-digits low k low q (le_refl low) fits
