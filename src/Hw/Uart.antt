-- ===== src/Hw/Uart.antt =====
-- What a polling driver relies on in an AXI UartLite (pg142), which is a block of the FPGA vendor.
use qinglong_core.Prelude.{ℕ, ◌%◌, ◌<◌, ◌≡◌, ◌==◌, Bool, true, false, bit_and, Bytes, [], ◌∷◌, ◌++◌}

-- A read or a write of the register at an offset. `sent` is what went into the transmit FIFO since
-- the reset, `full` says that the FIFO has no room, and `busy` bounds the number of reads of STAT
-- until it has. A byte for a full FIFO is dropped.
pub record Uart : Type 1 where
  pub State : Type 0
  pub read : ℕ → State → ℕ × State
  pub write : ℕ → ℕ → State → State
  pub sent : State → Bytes
  pub full : State → Bool
  pub busy : State → ℕ
  pub read-sent : (s : State) → sent (read 8 s).1 ≡ sent s
  pub read-full : (s : State) → bit_and (read 8 s).0 8 ≡ 0 → full (read 8 s).1 ≡ false
  pub read-busy : (s : State) → (bit_and (read 8 s).0 8 == 0) ≡ false → busy (read 8 s).1 < busy s
  pub write-sent :
      (v : ℕ) (s : State) → full s ≡ false → sent (write 4 v s) ≡ sent s ++ v % 256 ∷ []
  pub write-full : (v : ℕ) (s : State) → full s ≡ true → sent (write 4 v s) ≡ sent s
