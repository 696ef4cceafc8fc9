-- ===== src/Tests/Whole.antt =====
-- The small file in the SRAM: the last byte of its first segment, with the second one behind it.
use qinglong_core.Prelude.{◌≡◌, refl, [], ◌∷◌, some, arith, inl}
use qinglong_core.Elf.File.{word_at, half_at}
use qinglong_core.Elf.Segments.{load_addr, read_phdr}
use qinglong_core.Elf.Segments.Table.{Table, no_more, loadable}
use qinglong_core.Sim.Load.{Loading, load_words}
use qinglong_core.Sim.Load.Segment.{sram_byte}
use qinglong_core.Sim.Load.Whole.{load_elf32-load_words, load_elf32_zeroed}
use qinglong_core.Tests.Data.{elf_file, first_phdr, second_phdr}
use qinglong_core.Tests.Elf.{elf_file-bytes, loaded_elf, load_elf32_runs}

abbrev blank_sram : Loading
blank_sram = record { mem = λ i. 0; loaded = 0; skipped = 0 }

its_headers : Table elf_file 2 52 (first_phdr ∷ second_phdr ∷ [])
unfolding word_at read_phdr
its_headers = loadable 1 first_phdr refl refl refl (loadable 1 second_phdr refl refl refl no_more)

load_elf32-load_words_example :
    some 0x88 ≡ some (sram_byte (load_words loaded_elf.words blank_sram).mem 0x80000005)
unfolding load_addr word_at half_at
load_elf32-load_words_example =
    load_elf32-load_words elf_file loaded_elf 52 2 [] (second_phdr ∷ []) first_phdr blank_sram 5
      elf_file-bytes load_elf32_runs refl refl its_headers (omega arith, (omega arith, tt))
      (omega arith, (omega arith, tt)) (inl (omega arith)) (omega arith) (inl (omega arith), tt)

-- The last two bytes of the second segment's contents are lost: the one here is 5 in the file.
load_elf32_zeroed_example : sram_byte (load_words loaded_elf.words blank_sram).mem 0x80000014 ≡ 0
unfolding load_addr word_at half_at
load_elf32_zeroed_example =
    load_elf32_zeroed elf_file loaded_elf 52 2 (first_phdr ∷ []) [] second_phdr blank_sram 4
      elf_file-bytes load_elf32_runs refl refl its_headers (omega arith, (omega arith, tt))
      (omega arith, tt) (omega arith) (omega arith) tt
