-- ===== src/Tests/Elf.antt =====
-- The loader on the small file.
use qinglong_core.Prelude.{ℕ, ◌≡◌, refl, [], ◌∷◌, All, IsByte, arith, take, Bytes, List}
use qinglong_core.Elf.Outcome.{ok, throws, fault, too_small, not_elf}
use qinglong_core.Elf.Segments.{Word, load_segment}
use qinglong_core.Elf.Segments.Image.{IsLoadable, segment_words, load_segment_lem}
use qinglong_core.Elf.File.{word_at}
use qinglong_core.Elf.Symbols.{Symbols, find, read_symbol, read_symbols, c_string, insert}
use qinglong_core.Elf.Symbols.Last.{
  Defined, unnamed, named, at_end, then_more, last_value, read_symbols-last_value,
}
use qinglong_core.Elf.Load.{LoadedElf, load_elf32}
use qinglong_core.Elf.Mapped.{load_path, load_path_held}
use qinglong_core.Prelude.{codes}
use qinglong_core.Tests.Data.{elf_file, first_phdr, no_files, nothing_held}

abbrev pub word : ℕ → ℕ → Word
word a v = record { byte_addr = a; value = v }

abbrev pub loaded_elf : LoadedElf
loaded_elf = record {
  words =
      word 0x80000000 0x02a00513
      ∷ word 0x80000004 0x8877
      ∷ word 0x80000010 0x04030201
      ∷ word 0x80000014 0x0605
      ∷ word 0x80000016 0
      ∷ word 0x8000001a 0
      ∷ [];
  symbols = (codes "tohost", 0x80001000) ∷ (codes "x", 7) ∷ [];
  entry = 0x80000000;
}

pub load_elf32_runs : load_elf32 elf_file ≡ ok loaded_elf
unfolding load_elf32 read_symbol c_string insert
load_elf32_runs = refl

load_elf32_rejects :
    (load_elf32 (take 51 elf_file) ≡ throws too_small)
    × (load_elf32 (0 ∷ elf_file) ≡ throws not_elf)
    × (load_elf32 (take 60 elf_file) ≡ fault)
unfolding load_elf32
load_elf32_rejects = (refl, refl, refl)

first-IsLoadable : IsLoadable elf_file first_phdr
first-IsLoadable = omega arith

pub elf_file-bytes : All IsByte elf_file
elf_file-bytes = omega arith

load_segment_lem_example : load_segment elf_file first_phdr ≡ ok (segment_words elf_file first_phdr)
load_segment_lem_example = load_segment_lem elf_file first_phdr first-IsLoadable elf_file-bytes

load_path_held_example : (load_path no_files (codes "a") nothing_held).1 ≡ nothing_held
load_path_held_example = load_path_held no_files (codes "a") nothing_held (unfold load_path in tt)

abbrev elf_symbols : List (Bytes × ℕ)
elf_symbols = (codes "tohost", 0x80001000) ∷ (codes "x", 7) ∷ []

elf_defines : Defined elf_file 180 3 132 elf_symbols
unfolding word_at
elf_defines = then_more 2 132 [] elf_symbols (unnamed refl) (
    then_more 1 148 ((codes "tohost", 0x80001000) ∷ []) ((codes "x", 7) ∷ [])
      (named 1 0x80001000 (codes "tohost") _ refl (omega arith) refl (omega arith) refl)
      (then_more 0 164 ((codes "x", 7) ∷ []) []
        (named 8 7 (codes "x") _ refl (omega arith) refl (omega arith) refl) (at_end 180)))

read_symbols-last_value_example :
    (out : Symbols) × (read_symbols elf_file 180 3 132 [] ≡ ok out)
    × ((name : Bytes) → find name out ≡ last_value name elf_symbols (find name []))
read_symbols-last_value_example =
    read_symbols-last_value elf_file 180 3 132 elf_symbols [] elf_defines
