-- ===== src/Sim/Load/Image.antt =====
-- What the loading loop leaves in the SRAM, word by word and byte by byte.
use qinglong_core.Prelude.{
  ℕ, ◌+◌, ◌≡◌, refl, u32, leb, ltb, ◌==◌, Bool, ◌&&◌, if◌then◌else◌, List, [], ◌∷◌, Option, none,
  some, length, arith,
}
use qinglong_core.Elf.Segments.{Word}
use qinglong_core.Sim.Load.{Loading, load_word, load_words, word_index, sram_base, sram_words}

-- A word that lies in the SRAM, at its index.
abbrev pub lands : ℕ → Word → Bool
lands i w = leb sram_base w.byte_addr && ltb i sram_words && word_index w.byte_addr == i

-- The last word of the list that lands on index `i`.
unfoldable pub last_at : ℕ → List Word → Option ℕ
last_at i [] = none
last_at i (w ∷ ws) = elim (last_at i ws) [
  | some v ↦ some v
  | none ↦ if lands i w then some w.value else none
]

abbrev pub get_or : Option ℕ → ℕ → ℕ
get_or none d = d
get_or (some v) d = v

load_word-mem :
    (w : Word) (l : Loading) (i : ℕ)
    → (load_word w l).mem i ≡ (if lands i w then w.value else l.mem i)
unfolding load_word
load_word-mem w l i = ground arith

-- After the loop, every index of the SRAM holds the last word that lands on it, and what it held
-- before if none does.
pub load_words-mem :
    (ws : List Word) (l : Loading) (i : ℕ)
    → (load_words ws l).mem i ≡ get_or (last_at i ws) (l.mem i)
unfolding load_words last_at
load_words-mem [] l i = refl
load_words-mem (w ∷ ws) l i =
    ground (arith, load_words-mem ws (load_word w l) i, load_word-mem w l i)

load_word_counts :
    (w : Word) (l : Loading)
    → u32 ((load_word w l).loaded + (load_word w l).skipped) ≡ u32 (l.loaded + l.skipped + 1)
unfolding load_word
load_word_counts w l = ground arith

-- Each word is counted once, as loaded or as skipped (in 32-bit counters).
load_words_counts :
    (ws : List Word) (l : Loading)
    → u32 ((load_words ws l).loaded + (load_words ws l).skipped)
      ≡ u32 (l.loaded + l.skipped + length ws)
unfolding load_words
load_words_counts [] l = omega arith
load_words_counts (w ∷ ws) l =
    omega (arith, load_words_counts ws (load_word w l), load_word_counts w l)
