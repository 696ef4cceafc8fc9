-- ===== src/Dpi.antt =====
-- The DPI backdoors by which the testbenches reach the memory arrays: `sram_dpi_write` and
-- `sram_dpi_read` of rtl/mem/sram_dp.sv, `ddr_dpi_write` and `ddr_dpi_read` of
-- rtl/mem/axil_bram_big.sv. An `int` argument is its 32-bit pattern.
use qinglong_core.Prelude.{ℕ, ltb, ◌==◌, if◌then◌else◌, Bool, ◌&&◌}

-- `logic [31:0] mem [0:WORDS-1]`, read below `WORDS` only.
abbrev pub Mem : Type 0
Mem = ℕ → ℕ

abbrev pub update : Mem → ℕ → ℕ → Mem
update m a v b = if a == b then v else m b

-- SRAM_WORDS of rtl/soc/soc_top.sv, and the size that rtl/soc/soc_tb_linux.sv gives `u_ddr`.
abbrev pub sram_size : ℕ
sram_size = 16384

abbrev pub ddr_size : ℕ
ddr_size = 33554432

-- `word_addr >= 0 && word_addr < WORDS`, for a signed `word_addr`.
abbrev pub in_range : ℕ → ℕ → Bool
in_range words a = ltb a 0x80000000 && ltb a words

unfoldable pub sram_dpi_write : ℕ → ℕ → Mem → Mem
sram_dpi_write a v m = if in_range sram_size a then update m a v else m

unfoldable pub sram_dpi_read : ℕ → Mem → ℕ
sram_dpi_read a m = if in_range sram_size a then m a else 0xDEADBEEF

unfoldable pub ddr_dpi_write : ℕ → ℕ → Mem → Mem
ddr_dpi_write a v m = if in_range ddr_size a then update m a v else m

unfoldable pub ddr_dpi_read : ℕ → Mem → ℕ
ddr_dpi_read a m = if in_range ddr_size a then m a else 0xDEADBEEF
