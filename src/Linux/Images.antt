-- ===== src/Linux/Images.antt =====
-- The part of `main` in sim_linux.cpp that fills the memories before the reset: the check of the
-- DDR backdoor, the images, the BootROM and its handshake words.
pub mod Intact
use qinglong_core.Prelude.{
  ℕ, zero, suc, ◌+◌, ◌/◌, u32, u64, ◌==◌, if◌then◌else◌, Bool, true, false, Bytes, List, [], ◌∷◌,
  Option, none, some, length,
}
use qinglong_core.Dpi.{Mem, sram_dpi_write, ddr_dpi_write, ddr_dpi_read}
use qinglong_core.Args.Number.{strtoull}
use qinglong_core.Linux.Blob.{pack, Loaded, loaded, failed, Failure, ddr_base, load_blob_at}

abbrev pub Files : Type 0
Files = Bytes → Option Bytes

infixl 5 ◌>>=◌
abbrev pub ◌>>=◌ : Loaded → (Mem → Loaded) → Loaded
loaded m >>= f = f m
failed e >>= f = failed e

-- `kernel_path && !load_blob_at(…)`: a null path is skipped, which is what the call does with one.
unfoldable pub load_images :
    Files → Option Bytes → Option Bytes → Option Bytes → Option Bytes → Mem → Loaded
load_images files fw kernel dtb initrd m = do
  m1 ← load_blob_at files fw 0x40000000 m
  m2 ← load_blob_at files kernel 0x40400000 m1
  m3 ← load_blob_at files dtb 0x42200000 m2
  load_blob_at files initrd 0x43000000 m3

-- `s.find('@')`: the text before it and behind it.
unfoldable pub split_at : Bytes → Bytes × Option Bytes
split_at [] = ([], none)
split_at (c ∷ s) = let rest = split_at s in if c == b'@' then ([], some s) else (c ∷ rest.0, rest.1)

-- +raw=<path>@<base>; `base` is cut to 32 bits.
unfoldable pub raw_base : Option Bytes → ℕ
raw_base none = ddr_base
raw_base (some s) = u32 (strtoull s)

unfoldable pub load_raw : Files → Bytes → Mem → Loaded
unfolding split_at raw_base
load_raw files s m = load_blob_at files (some (split_at s).0) (raw_base (split_at s).1) m

-- The self-check writes a pattern to word 0, reads it back and clears the word; `none` is a failure.
unfoldable pub self_check : Mem → Option Mem
unfolding ddr_dpi_write ddr_dpi_read
self_check m =
    if ddr_dpi_read 0 (ddr_dpi_write 0 0xDEADBEEF m) == 0xDEADBEEF
    then some (ddr_dpi_write 0 0 (ddr_dpi_write 0 0xDEADBEEF m))
    else none

-- The BootROM's words, from word `i` of the SRAM on, with `left` to go.
unfoldable pub copy_rom : Bytes → ℕ → ℕ → Mem → Mem
unfolding sram_dpi_write
copy_rom buf zero i m = m
copy_rom buf (suc left) i m =
    copy_rom buf left (i + 1) (sram_dpi_write (u32 i) (pack buf i 4 0 0) m)

unfoldable pub load_bootrom : Bytes → Mem → Mem
unfolding copy_rom
load_bootrom buf m = copy_rom buf (u64 (length buf + 3) / 4) 0 m

-- (0x47000000 - 0x40000000) / 4
abbrev pub hs_word : ℕ
hs_word = 0x1C00000

-- The entry point, the device tree, and the magic word last.
unfoldable pub arm_handshake : Mem → Mem
unfolding ddr_dpi_write
arm_handshake m =
    ddr_dpi_write hs_word 0xDEADBEEF
      (ddr_dpi_write (hs_word + 2) 0x42200000 (ddr_dpi_write (hs_word + 1) 0x40000000 m))
