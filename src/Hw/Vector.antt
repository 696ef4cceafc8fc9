-- ===== src/Hw/Vector.antt =====
-- A packed vector of SystemVerilog: the function from the numbers of its bits to the bits.
use qinglong_core.Prelude.{
  ℕ, zero, suc, ◌+◌, ◌/◌, ◌%◌, ◌^◌, ◌==◌, if◌then◌else◌, Bool, false, ◌&&◌, ◌||◌, not,
}

abbrev pub Vector : Type 0
Vector = ℕ → Bool

abbrev pub no_bits : Vector
no_bits i = false

-- A constant, or a number, as a vector.
abbrev pub bits_of : ℕ → Vector
bits_of n i = n / 2 ^ i % 2 == 1

-- The number in the lowest `w` bits.
unfoldable pub number : ℕ → Vector → ℕ
number zero v = 0
number (suc w) v = number w v + (if v w then 2 ^ w else 0)

-- `v[i] <= b`
abbrev pub set_bit : ℕ → Bool → Vector → Vector
set_bit i b v j = if j == i then b else v j

-- `r[i] <= v` of a register with an index.
abbrev pub put {ℓ} : {A : Type ℓ} → ℕ → A → (ℕ → A) → (ℕ → A)
put i v r j = if j == i then v else r j

abbrev pub both : Vector → Vector → Vector
both v w i = v i && w i

abbrev pub either : Vector → Vector → Vector
either v w i = v i || w i

abbrev pub flip : Vector → Vector
flip v i = not (v i)

-- `(old & ~mask) | (new & mask)`
abbrev pub merge : Vector → Vector → Vector → Vector
merge mask old new = either (both old (flip mask)) (both new mask)

-- Is one of the lowest `w` bits set?
unfoldable pub some_bit : ℕ → Vector → Bool
some_bit zero v = false
some_bit (suc w) v = v w || some_bit w v
