-- ===== src/Sw/Machine.antt =====
-- A core that executes such a sequence: each access goes to the device that the decoder of
-- rtl/soc/soc_top.sv selects.
pub mod Runs
use qinglong_core.Prelude.{
  ℕ, zero, suc, ◌/◌, ◌%◌, ◌*◌, ◌^◌, ◌==◌, if◌then◌else◌, Bool, true, false, bit_and, [], ◌∷◌,
}
use qinglong_core.Hw.Mmio.{Mmio, Request, clock}
use qinglong_core.Hw.Uart.{Uart}
use qinglong_core.Sw.Code.{
  Code, Op, wait_clear, store, delay, call, spin, overrun, Width, byte, word,
}

-- `addr[31:28] == 4'hC`, and `addr[31:16] == 16'hD058`.
abbrev pub is_uart : ℕ → Bool
is_uart a = a / 0x10000000 == 0xC

abbrev pub is_mmio : ℕ → Bool
is_mmio a = a / 0x10000 == 0xD058

-- The enables and the lanes of a store, as the pipeline sets them: a byte goes to its lane.
abbrev pub store_wmask : Width → ℕ → ℕ
store_wmask byte a = 2 ^ (a % 4)
store_wmask word a = 15

abbrev pub store_wdata : Width → ℕ → ℕ → ℕ
store_wdata byte a v = v % 256 * 2 ^ (8 * (a % 4))
store_wdata word a v = v

abbrev pub load_request : ℕ → Request
load_request a = record { valid = true; addr = a; wen = false; wdata = 0; wmask = 15 }

abbrev pub store_request : Width → ℕ → ℕ → Request
store_request w a v = record {
  valid = true;
  addr = a;
  wen = true;
  wdata = store_wdata w a v;
  wmask = store_wmask w a;
}

pub record Machine (U : Type 0) : Type 0 where
  pub uart : U
  pub mmio : Mmio

-- The devices, and the rest of the address space, which is read as `memory` says and takes stores
-- that change neither device. The console is always ready, as rtl/soc/soc_tb_top.sv ties it.
module _ (dev : Uart) (memory : ℕ → ℕ) where
  open dev use {State, read, write}

  unfoldable pub load : ℕ → Machine State → ℕ × Machine State
  unfolding clock
  load a m =
      if is_uart a
      then ((read (a % 16) m.uart).0, record m { uart = (read (a % 16) m.uart).1 })
      else if is_mmio a
      then (0, record m { mmio = clock false true (load_request a) m.mmio })
      else (memory a, m)

  unfoldable pub write_to : Width → ℕ → ℕ → Machine State → Machine State
  unfolding clock
  write_to w a v m =
      if is_uart a
      then record m { uart = write (a % 16) (store_wdata w a v) m.uart }
      else if is_mmio a
      then record m { mmio = clock false true (store_request w a v) m.mmio }
      else m

  -- One step of an operation: the machine behind it, and whether the code goes on. How long a
  -- delay takes is left to the kernel.
  unfoldable pub exec : Op → Machine State → Machine State × Bool
  exec (wait_clear a mask) m = ((load a m).1, bit_and (load a m).0 mask == 0)
  exec (store w a v) m = (write_to w a v m, true)
  exec (delay ms) m = (m, true)
  exec (call c) m = (m, true)
  exec spin m = (m, false)
  exec overrun m = (m, false)

  -- The code alone on the machine, for `fuel` steps: the code that is left, and the machine.
  unfoldable pub run : ℕ → Code → Machine State → Code × Machine State
  run zero code m = (code, m)
  run (suc fuel) [] m = ([], m)
  run (suc fuel) (op ∷ code) m =
      let on = run fuel code (exec op m).0 in
      let again = run fuel (op ∷ code) (exec op m).0 in if (exec op m).1 then on else again
