-- ===== src/Tests/Data.antt =====
-- The inputs of the tests: a small ELF file, an environment and a model of the SoC.
use qinglong_core.Prelude.{
  ℕ, ◌+◌, ◌==◌, if◌then◌else◌, Bool, true, false, not, ◌&&◌, Bytes, List, [], ◌∷◌, none, some, refl,
}
use qinglong_core.Dpi.{Mem, update}
use qinglong_core.Elf.Segments.{Phdr}
use qinglong_core.Elf.Mapped.{Os, Held}
use qinglong_core.Sim.Soc.{Soc, Outputs}
use qinglong_core.Prelude.{codes}
use qinglong_core.Sim.Main.{Host}

-- Two segments of six bytes: one without zeros at 0x80000000, one with `memsz` 12 at 0x80000010; and
-- the symbols `tohost` = 0x80001000 and `x` = 7.
abbrev pub elf_file : Bytes
elf_file =
    127 ∷ 69 ∷ 76 ∷ 70 ∷ 1 ∷ 1 ∷ 1 ∷ 0 ∷ 0 ∷ 0 ∷ 0 ∷ 0 ∷ 0 ∷ 0 ∷ 0 ∷ 0 ∷ 2 ∷ 0 ∷ 243 ∷ 0 ∷ 1 ∷ 0 ∷ 0
    ∷ 0 ∷ 0 ∷ 0 ∷ 0 ∷ 128 ∷ 52 ∷ 0 ∷ 0 ∷ 0 ∷ 192 ∷ 0 ∷ 0 ∷ 0 ∷ 0 ∷ 0 ∷ 0 ∷ 0 ∷ 52 ∷ 0 ∷ 32 ∷ 0 ∷ 2
    ∷ 0 ∷ 40 ∷ 0 ∷ 3 ∷ 0 ∷ 2 ∷ 0 ∷ 1 ∷ 0 ∷ 0 ∷ 0 ∷ 116 ∷ 0 ∷ 0 ∷ 0 ∷ 0 ∷ 0 ∷ 0 ∷ 128 ∷ 0 ∷ 0 ∷ 0
    ∷ 128 ∷ 6 ∷ 0 ∷ 0 ∷ 0 ∷ 6 ∷ 0 ∷ 0 ∷ 0 ∷ 5 ∷ 0 ∷ 0 ∷ 0 ∷ 4 ∷ 0 ∷ 0 ∷ 0 ∷ 1 ∷ 0 ∷ 0 ∷ 0 ∷ 124 ∷ 0
    ∷ 0 ∷ 0 ∷ 16 ∷ 0 ∷ 0 ∷ 128 ∷ 0 ∷ 0 ∷ 0 ∷ 0 ∷ 6 ∷ 0 ∷ 0 ∷ 0 ∷ 12 ∷ 0 ∷ 0 ∷ 0 ∷ 6 ∷ 0 ∷ 0 ∷ 0 ∷ 4
    ∷ 0 ∷ 0 ∷ 0 ∷ 19 ∷ 5 ∷ 160 ∷ 2 ∷ 119 ∷ 136 ∷ 0 ∷ 0 ∷ 1 ∷ 2 ∷ 3 ∷ 4 ∷ 5 ∷ 6 ∷ 0 ∷ 0 ∷ 0 ∷ 0 ∷ 0
    ∷ 0 ∷ 0 ∷ 0 ∷ 0 ∷ 0 ∷ 0 ∷ 0 ∷ 0 ∷ 0 ∷ 0 ∷ 0 ∷ 0 ∷ 0 ∷ 1 ∷ 0 ∷ 0 ∷ 0 ∷ 0 ∷ 16 ∷ 0 ∷ 128 ∷ 0 ∷ 0
    ∷ 0 ∷ 0 ∷ 0 ∷ 0 ∷ 1 ∷ 0 ∷ 8 ∷ 0 ∷ 0 ∷ 0 ∷ 7 ∷ 0 ∷ 0 ∷ 0 ∷ 0 ∷ 0 ∷ 0 ∷ 0 ∷ 0 ∷ 0 ∷ 1 ∷ 0 ∷ 0
    ∷ 116 ∷ 111 ∷ 104 ∷ 111 ∷ 115 ∷ 116 ∷ 0 ∷ 120 ∷ 0 ∷ 0 ∷ 0 ∷ 0 ∷ 0 ∷ 0 ∷ 0 ∷ 0 ∷ 0 ∷ 0 ∷ 0 ∷ 0
    ∷ 0 ∷ 0 ∷ 0 ∷ 0 ∷ 0 ∷ 0 ∷ 0 ∷ 0 ∷ 0 ∷ 0 ∷ 0 ∷ 0 ∷ 0 ∷ 0 ∷ 0 ∷ 0 ∷ 0 ∷ 0 ∷ 0 ∷ 0 ∷ 0 ∷ 0 ∷ 0 ∷ 0
    ∷ 0 ∷ 0 ∷ 0 ∷ 0 ∷ 0 ∷ 0 ∷ 0 ∷ 0 ∷ 0 ∷ 0 ∷ 0 ∷ 2 ∷ 0 ∷ 0 ∷ 0 ∷ 0 ∷ 0 ∷ 0 ∷ 0 ∷ 0 ∷ 0 ∷ 0 ∷ 0
    ∷ 132 ∷ 0 ∷ 0 ∷ 0 ∷ 48 ∷ 0 ∷ 0 ∷ 0 ∷ 2 ∷ 0 ∷ 0 ∷ 0 ∷ 0 ∷ 0 ∷ 0 ∷ 0 ∷ 4 ∷ 0 ∷ 0 ∷ 0 ∷ 16 ∷ 0 ∷ 0
    ∷ 0 ∷ 0 ∷ 0 ∷ 0 ∷ 0 ∷ 3 ∷ 0 ∷ 0 ∷ 0 ∷ 0 ∷ 0 ∷ 0 ∷ 0 ∷ 0 ∷ 0 ∷ 0 ∷ 0 ∷ 180 ∷ 0 ∷ 0 ∷ 0 ∷ 10 ∷ 0
    ∷ 0 ∷ 0 ∷ 0 ∷ 0 ∷ 0 ∷ 0 ∷ 0 ∷ 0 ∷ 0 ∷ 0 ∷ 1 ∷ 0 ∷ 0 ∷ 0 ∷ 0 ∷ 0 ∷ 0 ∷ 0 ∷ []

abbrev pub first_phdr : Phdr
first_phdr = record {
  p_offset = 116;
  p_vaddr = 0x80000000;
  p_paddr = 0x80000000;
  p_filesz = 6;
  p_memsz = 6;
}

abbrev pub second_phdr : Phdr
second_phdr = record {
  p_offset = 124;
  p_vaddr = 0x80000010;
  p_paddr = 0;
  p_filesz = 6;
  p_memsz = 12;
}

-- Every path leads to the file, as descriptor 3.
abbrev pub toy_os : Os
toy_os = record {
  open_file = λ path. some 3;
  fstat = λ fd. some 312;
  mmap = λ fd size. some elf_file;
}

abbrev pub no_files : Os
no_files = record { open_file = λ path. some 3; fstat = λ fd. none; mmap = λ fd size. none }

abbrev pub nothing_held : Held
nothing_held = record { fds = []; maps = [] }

-- The state of the toy SoC: the rising edges since the reset, and the SRAM.
pub record Toy : Type 0 where
  pub time : ℕ
  pub mem : Mem

abbrev toy_outputs : Toy → Outputs
toy_outputs s = record {
  commit_valid = s.time == 2;
  commit_pc = 0x80000000;
  commit_insn = 0x02a00513;
  commit_rd_wen = true;
  commit_rd_addr = 10;
  commit_rd_data = 42;
  commit_trap = false;
  commit_cause = 0;
  console_valid = s.time == 1;
  console_byte = b'A';
  exit_valid = false;
  exit_code = 0;
}

-- A rising edge counts; with the third one the program writes 1 to `tohost`, word 1024.
abbrev toy_eval : Bool → Bool → Toy → Toy
toy_eval clk rst s =
    if clk && not rst
    then record { time = s.time + 1; mem = if s.time == 2 then update s.mem 1024 1 else s.mem }
    else s

abbrev pub toy : Soc
toy = record {
  State = Toy;
  initial = record { time = 0; mem = λ i. 0 };
  eval = toy_eval;
  outputs = toy_outputs;
  got_finish = λ s. false;
  sram = λ s. s.mem;
  with_sram = λ m s. record s { mem = m };
  sram-with_sram = λ m s. refl;
}

abbrev pub toy_host : Host
toy_host = record { os = toy_os; can_create = λ path. true; has_scope = true }

abbrev pub toy_args : List Bytes
toy_args = codes "+quiet" ∷ codes "+trace=t" ∷ codes "+elf=a" ∷ codes "+timeout=0x40" ∷ []
