-- ===== src/Sim/Load.antt =====
-- The loop of `main` that writes the words of the ELF file into the SRAM, counting them.
pub mod Image
pub mod Contents
pub mod Segment
pub mod Whole
use qinglong_core.Prelude.{ℕ, ◌+◌, ◌/◌, u32, sub32, leb, ltb, if◌then◌else◌, List, [], ◌∷◌}
use qinglong_core.Dpi.{Mem, sram_dpi_write}
use qinglong_core.Elf.Segments.{Word}

abbrev pub sram_base : ℕ
sram_base = 0x80000000

abbrev pub sram_words : ℕ
sram_words = 16384

pub record Loading : Type 0 where
  pub mem : Mem
  pub loaded : ℕ
  pub skipped : ℕ

abbrev pub skip : Loading → Loading
skip l = record l { skipped = u32 (l.skipped + 1) }

-- `(w.byte_addr - sram_base) / 4`
abbrev pub word_index : ℕ → ℕ
word_index a = sub32 a sram_base / 4

unfoldable pub load_word : Word → Loading → Loading
unfolding sram_dpi_write
load_word w l =
    if ltb w.byte_addr sram_base
    then skip l
    else if leb sram_words (word_index w.byte_addr)
    then skip l
    else record l {
      mem = sram_dpi_write (word_index w.byte_addr) w.value l.mem;
      loaded = u32 (l.loaded + 1);
    }

unfoldable pub load_words : List Word → Loading → Loading
unfolding load_word
load_words [] l = l
load_words (w ∷ ws) l = load_words ws (load_word w l)
