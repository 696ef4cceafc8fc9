-- ===== src/Elf/File.antt =====
-- The mapped file and the structures of <elf.h> that elf_loader.cpp reads through pointers into it:
-- the offset of each field in bytes, and the little-endian reads of the host.
use qinglong_core.Prelude.{ℕ, ◌+◌, ◌*◌, Bytes, get_elem?}
use qinglong_core.Elf.Outcome.{Outcome, ok, or_fault, ◌>>=◌}

-- p[i]
unfoldable pub byte_at : Bytes → ℕ → Outcome ℕ
byte_at file i = or_fault (get_elem? file i)

-- A uint16_t or a uint32_t at `p + i`.
unfoldable pub half_at : Bytes → ℕ → Outcome ℕ
unfolding byte_at
half_at file i = do b0 ← byte_at file i; b1 ← byte_at file (i + 1); ok (b0 + b1 * 256)

unfoldable pub word_at : Bytes → ℕ → Outcome ℕ
unfolding half_at
word_at file i = do lo ← half_at file i; hi ← half_at file (i + 2); ok (lo + hi * 65536)

-- sizeof(Elf32_Ehdr), and the sizes of the table entries.
abbrev pub sizeof_ehdr : ℕ
sizeof_ehdr = 52

abbrev pub sizeof_phdr : ℕ
sizeof_phdr = 32

abbrev pub sizeof_shdr : ℕ
sizeof_shdr = 40

abbrev pub sizeof_sym : ℕ
sizeof_sym = 16

abbrev pub pt_load : ℕ
pt_load = 1

abbrev pub sht_symtab : ℕ
sht_symtab = 2

abbrev pub em_riscv : ℕ
em_riscv = 243
