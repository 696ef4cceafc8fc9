-- ===== src/Elf/Segments/Chunks.antt =====
-- A reference for the words of a segment's contents, by recursion on its bytes: four bytes to a
-- word, least significant first, the last word padded with zeros.
use qinglong_core.Prelude.{
  zero, suc, ◌/◌, ◌%◌, ◌<◌, ◌≡◌, sym, ap, some, get_elem?, ℕ, ◌+◌, ◌*◌, Bytes, IsByte, u32, List,
  [], ◌∷◌, arith,
}
use qinglong_core.Elf.Segments.{Word}

-- The little-endian value of up to four bytes.
abbrev pub le_word : ℕ → ℕ → ℕ → ℕ → ℕ
le_word x y z w = x + y * 256 + z * 65536 + w * 16777216

abbrev pub word_of : ℕ → ℕ → ℕ → ℕ → ℕ → Word
word_of a x y z w = record { byte_addr = a; value = le_word x y z w }

unfoldable pub chunks : ℕ → Bytes → List Word
chunks a [] = []
chunks a (x ∷ []) = word_of a x 0 0 0 ∷ []
chunks a (x ∷ y ∷ []) = word_of a x y 0 0 ∷ []
chunks a (x ∷ y ∷ z ∷ []) = word_of a x y z 0 ∷ []
chunks a (x ∷ y ∷ z ∷ w ∷ rest) = word_of a x y z w ∷ chunks (u32 (a + 4)) rest

-- Byte `k` of a word, least significant first.
unfoldable pub byte_of : ℕ → ℕ → ℕ
byte_of v zero = v % 256
byte_of v (suc k) = byte_of (v / 256) k

abbrev pub fourth_of : ℕ → ℕ → ℕ → ℕ → ℕ → ℕ
fourth_of x y z w zero = x
fourth_of x y z w (suc zero) = y
fourth_of x y z w (suc (suc zero)) = z
fourth_of x y z w (suc (suc (suc k))) = w

module _ (x y z w : ℕ) (hx : IsByte x) (hy : IsByte y) (hz : IsByte z) (hw : IsByte w) where
  pub le_word_byte : (k : ℕ) → k < 4 → byte_of (le_word x y z w) k ≡ fourth_of x y z w k
  unfolding byte_of
  le_word_byte zero h = omega arith
  le_word_byte (suc zero) h = omega arith
  le_word_byte (suc (suc zero)) h = omega arith
  le_word_byte (suc (suc (suc zero))) h = omega arith
  le_word_byte (suc (suc (suc (suc k)))) h = absurd (omega arith)

  pub four_bytes :
      (j : ℕ) → j < 4 → get_elem? (x ∷ y ∷ z ∷ w ∷ []) j ≡ some (byte_of (le_word x y z w) j)
  four_bytes zero h = ap some (sym (le_word_byte 0 h))
  four_bytes (suc zero) h = ap some (sym (le_word_byte 1 h))
  four_bytes (suc (suc zero)) h = ap some (sym (le_word_byte 2 h))
  four_bytes (suc (suc (suc zero))) h = ap some (sym (le_word_byte 3 h))
  four_bytes (suc (suc (suc (suc j)))) h = absurd (omega arith)
