-- ===== src/Sw/Code.antt =====
-- C code that talks to devices, as the sequence of its volatile accesses and of its calls of the
-- kernel. Everything else that such a function computes is computed while the sequence is built.
use qinglong_core.Prelude.{ℕ, List, [], ◌∷◌, ◌++◌, Bytes}

-- The size of an access: uint8_t or uint32_t.
pub data Width : Type 0 where
  byte word : Width

-- The calls of main.c that create the tasks and start the kernel, with their priorities, and the
-- write of the trap vector.
pub data Call : Type 0 where
  set_mtvec : Call
  create_hello create_blink : (priority : ℕ) → Call
  start_scheduler : Call

-- `overrun` is a write past the end of an array, which C leaves undefined.
pub data Op : Type 0 where
  wait_clear : (addr mask : ℕ) → Op  -- while (*(volatile uint32_t*)addr & mask) { }
  store : Width → (addr value : ℕ) → Op  -- *(volatile uintN_t*)addr = value;
  delay : (ms : ℕ) → Op  -- vTaskDelay(pdMS_TO_TICKS(ms));
  call : Call → Op
  spin : Op  -- for (;;) { }
  overrun : Op

abbrev pub Code : Type 0
Code = List Op

-- while (*s) putc(*s++); for the bytes before the NUL.
unfoldable pub each : (ℕ → Code) → Bytes → Code
each putc [] = []
each putc (c ∷ s) = putc c ++ each putc s
