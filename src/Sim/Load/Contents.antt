-- ===== src/Sim/Load/Contents.antt =====
-- The words of a segment at word-aligned addresses inside the SRAM: which of them lands where.
use qinglong_core.Prelude.{
  Bool-cases, inl, inr, true, false, ◌∙◌, ℕ, zero, suc, ◌+◌, ◌*◌, ◌%◌, ◌^◌, ◌≤◌, ◌<◌, ◌≡◌, refl,
  u32, ◌==◌, if◌then◌else◌, List, [], ◌∷◌, ◌++◌, none, some, length, arith, Bytes, IsByte, All,
  get_elem?,
}
use qinglong_core.Elf.Segments.{Word}
use qinglong_core.Elf.Segments.Chunks.{chunks, le_word, word_of, byte_of, four_bytes}
use qinglong_core.Elf.Segments.Zeros.{blanks}
use qinglong_core.Sim.Load.{word_index, sram_base}
use qinglong_core.Sim.Load.Image.{lands, last_at}

-- A word-aligned address in the SRAM, and the end of what begins there.
abbrev pub Fits : ℕ → ℕ → Type 0
Fits a n = (a % 4 ≡ 0) × (0x80000000 ≤ a) × (a + n ≤ 0x80010000)

pub last_at-append :
    (i : ℕ) (xs ys : List Word)
    → last_at i (xs ++ ys) ≡ (elim (last_at i ys) [ some v ↦ some v | none ↦ last_at i xs ])
unfolding last_at
last_at-append i [] ys = ground arith
last_at-append i (x ∷ xs) ys = ground (arith, last_at-append i xs ys)

-- The first word lands on its index unless a later one does.
last_at_cons :
    (i : ℕ) (w : Word) (ws : List Word)
    → last_at i ws ≡ none
    → last_at i (w ∷ ws) ≡ (if lands i w then some w.value else none)
unfolding last_at
last_at_cons i w ws h = rw h

last_at_later :
    (i v : ℕ) (w : Word) (ws : List Word) → last_at i ws ≡ some v → last_at i (w ∷ ws) ≡ some v
unfolding last_at
last_at_later i v w ws h = rw h

misses :
    (i : ℕ) (w : Word) → Fits w.byte_addr 0 → sram_base + 4 * i < w.byte_addr → lands i w ≡ false
misses i w f h = ground arith

hits : (i : ℕ) (w : Word) → Fits w.byte_addr 1 → sram_base + 4 * i ≡ w.byte_addr → lands i w ≡ true
hits i w f h = ground arith

pub chunks_below :
    (i a : ℕ) (bytes : Bytes)
    → Fits a (length bytes)
    → sram_base + 4 * i < a
    → last_at i (chunks a bytes) ≡ none
unfolding chunks last_at
chunks_below i a [] f h = refl
chunks_below i a (x ∷ []) f h = rw (misses i (word_of a x 0 0 0) (omega arith) h)
chunks_below i a (x ∷ y ∷ []) f h = rw (misses i (word_of a x y 0 0) (omega arith) h)
chunks_below i a (x ∷ y ∷ z ∷ []) f h = rw (misses i (word_of a x y z 0) (omega arith) h)
chunks_below i a (x ∷ y ∷ z ∷ w ∷ rest) f h = rw (
  chunks_below i (u32 (a + 4)) rest (omega arith) (omega arith),
  misses i (word_of a x y z w) (omega arith) h,
)

passes :
    (i : ℕ) (w : Word) → Fits w.byte_addr 0 → w.byte_addr < sram_base + 4 * i → lands i w ≡ false
passes i w f h = ground arith

pub chunks_above :
    (i a : ℕ) (bytes : Bytes)
    → Fits a (length bytes)
    → a + length bytes ≤ sram_base + 4 * i
    → last_at i (chunks a bytes) ≡ none
unfolding chunks last_at
chunks_above i a [] f h = refl
chunks_above i a (x ∷ []) f h = rw (passes i (word_of a x 0 0 0) (omega arith) (omega arith))
chunks_above i a (x ∷ y ∷ []) f h = rw (passes i (word_of a x y 0 0) (omega arith) (omega arith))
chunks_above i a (x ∷ y ∷ z ∷ []) f h =
    rw (passes i (word_of a x y z 0) (omega arith) (omega arith))
chunks_above i a (x ∷ y ∷ z ∷ w ∷ rest) f h = rw (
  chunks_above i (u32 (a + 4)) rest (omega arith) (omega arith),
  passes i (word_of a x y z w) (omega arith) (omega arith),
)

-- What lands on the word of byte `j` has that byte in its place.
pub record Lands (i j a : ℕ) (bytes : Bytes) : Type 0 where
  pub word : ℕ
  pub lands_last : last_at i (chunks a bytes) ≡ some word
  pub has_byte : get_elem? bytes j ≡ some (byte_of word (j % 4))

-- The first word of the list, on its own index.
head_lands :
    (i a x y z w : ℕ) (ws : List Word)
    → Fits a 1
    → sram_base + 4 * i ≡ a
    → last_at i ws ≡ none
    → last_at i (word_of a x y z w ∷ ws) ≡ some (le_word x y z w)
head_lands i a x y z w ws f e n =
    rw (last_at_cons i (word_of a x y z w) ws n, hits i (word_of a x y z w) f e)

nothing : (i : ℕ) → last_at i [] ≡ none
unfolding last_at
nothing i = refl

head_Lands :
    (i j a x y z w : ℕ) (ws : List Word) (bytes : Bytes)
    → Fits a 1
    → j < 4
    → sram_base + 4 * i + j % 4 ≡ a + j
    → last_at i ws ≡ none
    → chunks a bytes ≡ word_of a x y z w ∷ ws
    → get_elem? bytes j ≡ some (byte_of (le_word x y z w) j)
    → Lands i j a bytes
head_Lands i j a x y z w ws bytes f l e n c g =
    let same : j % 4 ≡ j = omega arith in
    record {
      word = le_word x y z w;
      lands_last = rw c (head_lands i a x y z w ws f (omega arith) n);
      has_byte = rw same g;
    }

later_Lands :
    (i j a x y z w : ℕ) (rest : Bytes)
    → Lands i j (u32 (a + 4)) rest
    → Lands i (suc (suc (suc (suc j)))) a (x ∷ y ∷ z ∷ w ∷ rest)
unfolding chunks
later_Lands i j a x y z w rest r =
    let same : suc (suc (suc (suc j))) % 4 ≡ j % 4 = omega arith in
    record {
      word = r.word;
      lands_last = last_at_later i r.word (word_of a x y z w) _ r.lands_last;
      has_byte = rw same r.has_byte;
    }

-- A list that agrees with four bytes up to `j`, at a place of its first word.
first_Lands :
    (j i a x y z w : ℕ) (ws : List Word) (bytes : Bytes)
    → (IsByte x × IsByte y × IsByte z × IsByte w)
    → Fits a 1
    → j < 4
    → sram_base + 4 * i + j % 4 ≡ a + j
    → last_at i ws ≡ none
    → chunks a bytes ≡ word_of a x y z w ∷ ws
    → get_elem? bytes j ≡ get_elem? (x ∷ y ∷ z ∷ w ∷ []) j
    → Lands i j a bytes
first_Lands j i a x y z w ws bytes b f l e n c g =
    head_Lands i j a x y z w ws bytes f l e n c (g ∙ four_bytes x y z w b.0 b.1 b.2 b.3 j l)

-- Every byte of the contents is in its place in the last word that lands on its index.
pub chunks-Lands :
    (j i a : ℕ) (bytes : Bytes)
    → Fits a (length bytes)
    → All IsByte bytes
    → j < length bytes
    → sram_base + 4 * i + j % 4 ≡ a + j
    → Lands i j a bytes
unfolding chunks
chunks-Lands j i a [] f b h e = absurd (omega arith)
chunks-Lands zero i a (x ∷ []) f b h e =
    first_Lands 0 i a x 0 0 0 [] _ (omega arith) (omega arith) (omega arith) e (nothing i) refl refl
chunks-Lands (suc j) i a (x ∷ []) f b h e = absurd (omega arith)
chunks-Lands zero i a (x ∷ y ∷ []) f b h e =
    first_Lands 0 i a x y 0 0 [] _ (omega arith) (omega arith) (omega arith) e (nothing i) refl refl
chunks-Lands (suc zero) i a (x ∷ y ∷ []) f b h e =
    first_Lands 1 i a x y 0 0 [] _ (omega arith) (omega arith) (omega arith) e (nothing i) refl refl
chunks-Lands (suc (suc j)) i a (x ∷ y ∷ []) f b h e = absurd (omega arith)
chunks-Lands zero i a (x ∷ y ∷ z ∷ []) f b h e =
    first_Lands 0 i a x y z 0 [] _ (omega arith) (omega arith) (omega arith) e (nothing i) refl refl
chunks-Lands (suc zero) i a (x ∷ y ∷ z ∷ []) f b h e =
    first_Lands 1 i a x y z 0 [] _ (omega arith) (omega arith) (omega arith) e (nothing i) refl refl
chunks-Lands (suc (suc zero)) i a (x ∷ y ∷ z ∷ []) f b h e =
    first_Lands 2 i a x y z 0 [] _ (omega arith) (omega arith) (omega arith) e (nothing i) refl refl
chunks-Lands (suc (suc (suc j))) i a (x ∷ y ∷ z ∷ []) f b h e = absurd (omega arith)
chunks-Lands (suc (suc (suc (suc j)))) i a (x ∷ y ∷ z ∷ w ∷ rest) f b h e =
    later_Lands i j a x y z w rest
      (chunks-Lands j i (u32 (a + 4)) rest (omega arith) b.1.1.1.1 (omega arith) (omega arith))
chunks-Lands zero i a (x ∷ y ∷ z ∷ w ∷ rest) f b h e =
    first_Lands 0 i a x y z w _ _ (b.0, b.1.0, b.1.1.0, b.1.1.1.0) (omega arith) (omega arith) e
      (chunks_below i (u32 (a + 4)) rest (omega arith) (omega arith)) refl refl
chunks-Lands (suc zero) i a (x ∷ y ∷ z ∷ w ∷ rest) f b h e =
    first_Lands 1 i a x y z w _ _ (b.0, b.1.0, b.1.1.0, b.1.1.1.0) (omega arith) (omega arith) e
      (chunks_below i (u32 (a + 4)) rest (omega arith) (omega arith)) refl refl
chunks-Lands (suc (suc zero)) i a (x ∷ y ∷ z ∷ w ∷ rest) f b h e =
    first_Lands 2 i a x y z w _ _ (b.0, b.1.0, b.1.1.0, b.1.1.1.0) (omega arith) (omega arith) e
      (chunks_below i (u32 (a + 4)) rest (omega arith) (omega arith)) refl refl
chunks-Lands (suc (suc (suc zero))) i a (x ∷ y ∷ z ∷ w ∷ rest) f b h e =
    first_Lands 3 i a x y z w _ _ (b.0, b.1.0, b.1.1.0, b.1.1.1.0) (omega arith) (omega arith) e
      (chunks_below i (u32 (a + 4)) rest (omega arith) (omega arith)) refl refl

-- The zero words: none below their first index, and 0 on each of theirs.
pub blanks_below :
    (i n a : ℕ)
    → a + 4 * n < 2 ^ 32
    → sram_base ≤ a
    → sram_base + 4 * i + 4 ≤ a
    → last_at i (blanks a n) ≡ none
unfolding blanks last_at
blanks_below i zero a f g h = refl
blanks_below i (suc n) a f g h =
    rw (blanks_below i n (u32 (a + 4)) (omega arith) (omega arith) (omega arith)) (ground arith)

pub blanks_zero :
    (i n a : ℕ)
    → a + 4 * n < 0x80010004
    → sram_base ≤ a
    → word_index a ≤ i
    → i < word_index a + n
    → last_at i (blanks a n) ≡ some 0
unfolding blanks
blanks_zero i zero a f g h k = absurd (omega arith)
blanks_zero i (suc n) a f g h k = elim (Bool-cases (word_index a == i)) [
  | inl e ↦
      last_at_cons i (record { byte_addr = a; value = 0 }) _
        (blanks_below i n (u32 (a + 4)) (omega arith) (omega arith) (ground arith))
      ∙ ground arith
  | inr e ↦
      last_at_later i 0 (record { byte_addr = a; value = 0 }) _
        (blanks_zero i n (u32 (a + 4)) (omega arith) (omega arith) (ground arith) (omega arith))
]

pub blanks_above :
    (i n a : ℕ)
    → a + 4 * n < 2 ^ 32
    → sram_base ≤ a
    → word_index a + n ≤ i
    → last_at i (blanks a n) ≡ none
unfolding blanks last_at
blanks_above i zero a f g h = refl
blanks_above i (suc n) a f g h =
    rw (blanks_above i n (u32 (a + 4)) (omega arith) (omega arith) (omega arith)) (ground arith)
