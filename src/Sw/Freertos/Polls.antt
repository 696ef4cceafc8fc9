-- ===== src/Sw/Freertos/Polls.antt =====
-- Code whose every store to the transmit FIFO stands directly behind a wait for room in it.
use qinglong_core.Prelude.{
  ℕ, ◌^◌, ◌<◌, ◌≡◌, refl, ap, ◌∙◌, ◌==◌, ◌&&◌, not, if◌then◌else◌, Bool, true, false, [], ◌∷◌, ◌+◌,
  ◌++◌, Bytes, codes, length, Bool-cases, inl, inr, u32,
}
use qinglong_core.Sw.Code.{Code, store, wait_clear, delay, call, spin, overrun, word, byte, each}
use qinglong_core.Sw.Mmio.{mmio_exit}
use qinglong_core.Sw.Machine.{is_uart}
use qinglong_core.Sw.Uartlite.{uartlite_puts, ul_stat, ul_stat_tx_full, ul_tx_fifo}
use qinglong_core.Sw.Freertos.{hello_round, hello_exit, blink_round, put_dec, buf_size}
use qinglong_core.Sw.Freertos.Decimal.{decimal, put_dec-decimal}

-- `ready` says that a wait for room stands directly before the code. Besides these stores the code
-- leaves the UART alone.
unfoldable pub guarded : Bool → Code → Bool
guarded ready [] = true
guarded ready (store word a v ∷ code) =
    (if a == ul_tx_fifo then ready else not (is_uart a)) && guarded false code
guarded ready (store byte a v ∷ code) = false
guarded ready (wait_clear a mask ∷ code) =
    (a == ul_stat) && (mask == ul_stat_tx_full) && guarded true code
guarded ready (delay ms ∷ code) = guarded false code
guarded ready (call c ∷ code) = guarded false code
guarded ready (spin ∷ code) = guarded false code
guarded ready (overrun ∷ code) = false

guarded-puts :
    (s : Bytes) (code : Code)
    → guarded false code ≡ true
    → guarded false (uartlite_puts s ++ code) ≡ true
unfolding guarded uartlite_puts each
guarded-puts [] code h = h
guarded-puts (c ∷ s) code h = guarded-puts s code h

guarded-hello_exit : (n : ℕ) → guarded false (hello_exit false n ++ delay 250 ∷ []) ≡ true
unfolding hello_exit guarded uartlite_puts mmio_exit each
guarded-hello_exit n = elim (Bool-cases (n == 10)) [ inl e ↦ rw e refl | inr e ↦ rw e refl ]

module _ (buf : Bytes) (sized : length buf ≡ buf_size) (n : ℕ) (fits : n < 2 ^ 32) where
  guarded-line :
      (before after : Bytes) (code : Code)
      → guarded false code ≡ true
      → guarded false (uartlite_puts before ++ (put_dec buf n ++ (uartlite_puts after ++ code)))
        ≡ true
  guarded-line before after code h = guarded-puts before _ (
      ap (λ (c : Code). guarded false (c ++ (uartlite_puts after ++ code)))
        (put_dec-decimal buf n sized fits)
      ∙ guarded-puts (decimal n) _ (guarded-puts after code h))

  pub guarded-hello_round : guarded false (hello_round false buf n) ≡ true
  unfolding hello_round
  guarded-hello_round =
      guarded-line (codes "hello #") (codes "\r\n") _ (guarded-hello_exit (u32 (n + 1)))

  pub guarded-blink_round : guarded false (blink_round buf n) ≡ true
  unfolding blink_round guarded
  guarded-blink_round = guarded-line (codes "[blink ") (codes "]\r\n") _ refl
