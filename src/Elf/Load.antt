-- ===== src/Elf/Load.antt =====
-- `load_elf32` on the bytes of the mapped file: the header's checks, then the two walks.
use qinglong_core.Prelude.{ℕ, Bytes, ltb, ◌==◌, if◌then◌else◌, Bool, ◌&&◌, List, length}
use qinglong_core.Elf.Outcome.{
  Outcome, ok, throws, ◌>>=◌, Error, too_small, not_elf, not_elf32, not_little_endian, not_riscv,
}
use qinglong_core.Elf.File.{byte_at, half_at, word_at, sizeof_ehdr, em_riscv}
use qinglong_core.Elf.Segments.{Word, segments}
use qinglong_core.Elf.Symbols.{Symbols, find_symtab, read_tables}

pub record LoadedElf : Type 0 where
  pub words : List Word
  pub symbols : Symbols
  pub entry : ℕ

abbrev require {ℓ} : {A : Type ℓ} → Bool → Error → Outcome A → Outcome A
require b e next = if b then next else throws e

-- memcmp(e_ident, ELFMAG, SELFMAG) == 0
unfoldable pub has_magic : Bytes → Outcome Bool
unfolding byte_at
has_magic file = do
  m0 ← byte_at file 0
  m1 ← byte_at file 1
  m2 ← byte_at file 2
  m3 ← byte_at file 3
  ok (m0 == 0x7f && m1 == b'E' && m2 == b'L' && m3 == b'F')

-- The body below the checks: entry point, program headers, symbols.
unfoldable pub load_body : Bytes → Outcome LoadedElf
unfolding half_at word_at segments find_symtab read_tables
load_body file = do
  entry ← word_at file 24
  phoff ← word_at file 28
  phnum ← half_at file 44
  words ← segments file phnum phoff
  shoff ← word_at file 32
  shnum ← half_at file 48
  tables ← find_symtab file shoff shnum shnum shoff
  symbols ← read_tables file tables.symtab tables.strtab
  ok (record { words = words; symbols = symbols; entry = entry })

-- e_ident[EI_CLASS], e_ident[EI_DATA] and e_machine, in the order of the code.
unfoldable pub check_header : Bytes → Outcome LoadedElf
unfolding byte_at half_at has_magic load_body
check_header file = do
  magic ← has_magic file
  class ← byte_at file 4
  encoding ← byte_at file 5
  machine ← half_at file 18
  require magic not_elf (
      require (class == 1) not_elf32 (
        require (encoding == 1) not_little_endian
          (require (machine == em_riscv) not_riscv (load_body file))))

unfoldable pub load_elf32 : Bytes → Outcome LoadedElf
unfolding check_header
load_elf32 file = if ltb (length file) sizeof_ehdr then throws too_small else check_header file
