-- ===== src/Sw/Uartlite.antt =====
-- sw/common/uartlite.h, with the base address of the simulator and the FPGA image.
pub mod Puts
pub mod Getc
use qinglong_core.Prelude.{
  ℕ, zero, suc, ◌+◌, ◌%◌, ◌==◌, if◌then◌else◌, bit_and, [], ◌∷◌, Bytes, Option, none, some,
}
use qinglong_core.Sw.Code.{Code, wait_clear, store, word, each}

abbrev pub uartlite_base : ℕ
uartlite_base = 0xC0000000

abbrev pub ul_rx_fifo : ℕ
ul_rx_fifo = uartlite_base + 0x00

abbrev pub ul_tx_fifo : ℕ
ul_tx_fifo = uartlite_base + 0x04

abbrev pub ul_stat : ℕ
ul_stat = uartlite_base + 0x08

abbrev pub ul_stat_rx_valid : ℕ
ul_stat_rx_valid = 1

abbrev pub ul_stat_tx_full : ℕ
ul_stat_tx_full = 8

unfoldable pub uartlite_putc : ℕ → Code
uartlite_putc c = wait_clear ul_stat ul_stat_tx_full ∷ store word ul_tx_fifo (c % 256) ∷ []

unfoldable pub uartlite_puts : Bytes → Code
unfolding uartlite_putc each
uartlite_puts s = each uartlite_putc s

-- The receiving side returns values, so it is a function of a bus: a volatile load gives a word and
-- leaves the bus in another state.
module _ {S : Type 0} (load : ℕ → S → ℕ × S) where
  unfoldable pub uartlite_rx_has : S → ℕ × S
  uartlite_rx_has s = let (v, s') = load ul_stat s in (bit_and v ul_stat_rx_valid, s')

  -- while (!uartlite_rx_has()) { }, on fuel: `none` is a loop that is still polling.
  unfoldable pub await_rx : ℕ → S → Option S
  unfolding uartlite_rx_has
  await_rx zero s = none
  await_rx (suc fuel) s =
      let again = await_rx fuel (uartlite_rx_has s).1 in
      if (uartlite_rx_has s).0 == 0 then again else some (uartlite_rx_has s).1

  -- The char is given as a byte.
  unfoldable pub uartlite_getc : ℕ → S → Option (ℕ × S)
  unfolding await_rx
  uartlite_getc fuel s = elim (await_rx fuel s) [
    | none ↦ none
    | some s' ↦ let (v, s2) = load ul_rx_fifo s' in some (bit_and v 0xFF, s2)
  ]
