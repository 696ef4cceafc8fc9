-- ===== src/Sw/Mmio.antt =====
-- sw/common/mmio.h.
use qinglong_core.Prelude.{ℕ, ◌%◌, u32, [], ◌∷◌, Bytes}
use qinglong_core.Sw.Code.{Code, store, spin, byte, word, each}

abbrev pub mmio_console : ℕ
mmio_console = 0xD0580000

abbrev pub mmio_exit_addr : ℕ
mmio_exit_addr = 0xD0580004

abbrev pub mmio_status : ℕ
mmio_status = 0xD0580008

-- (uint8_t)c
unfoldable pub mmio_putc : ℕ → Code
mmio_putc c = store byte mmio_console (c % 256) ∷ []

unfoldable pub mmio_puts : Bytes → Code
unfolding mmio_putc each
mmio_puts s = each mmio_putc s

-- (uint32_t)code, of the pattern of an int.
unfoldable pub mmio_exit : ℕ → Code
mmio_exit code = store word mmio_exit_addr (u32 code) ∷ spin ∷ []
