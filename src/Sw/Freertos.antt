-- ===== src/Sw/Freertos.antt =====
-- sw/freertos/main.c and FreeRTOSConfig.h: the two tasks, the handlers and `main`. The kernel is
-- another project's: its calls are operations.
pub mod Decimal
pub mod System
pub mod Sends
pub mod Effect
pub mod Hello
pub mod Handlers
pub mod Plain
pub mod Safety
pub mod Polls
pub mod Traffic
pub mod Heard
pub mod Priority
pub mod Fpga
pub mod Progress
use qinglong_core.Prelude.{
  ℕ, zero, suc, ◌+◌, ◌/◌, ◌%◌, ◌==◌, if◌then◌else◌, Bool, not, ◌&&◌, bit_and, bit_or, u32, List, [],
  ◌∷◌, ◌++◌, Bytes, codes, Option, none, some, get_elem?,
}
use qinglong_core.Sw.Code.{
  Code, Op, store, delay, call, set_mtvec, create_hello, create_blink, start_scheduler, overrun,
  word,
}
use qinglong_core.Sw.Mmio.{mmio_exit, mmio_status}
use qinglong_core.Sw.Uartlite.{uartlite_putc, uartlite_puts}

-- buf[i] = c; a write out of range changes nothing here, and is ruled out before.
unfoldable pub set : Bytes → ℕ → ℕ → Bytes
set [] i c = []
set (x ∷ buf) zero c = c ∷ buf
set (x ∷ buf) (suc i) c = x ∷ set buf i c

-- char buf[12];
abbrev pub buf_size : ℕ
buf_size = 12

-- while (v) { buf[i++] = '0' + (v % 10); v /= 10; } with `left` places behind `i`; `none` is a write
-- past the end of `buf`.
unfoldable pub fill : ℕ → ℕ → ℕ → Bytes → Option (ℕ × Bytes)
unfolding set
fill zero v i buf = if v == 0 then some (i, buf) else none
fill (suc left) v i buf =
    let more = fill left (v / 10) (i + 1) (set buf i (b'0' + v % 10)) in
    if v == 0 then some (i, buf) else more

-- buf[i], which was written.
unfoldable pub put_at : Bytes → ℕ → Code
put_at buf i = elim (get_elem? buf i) [ none ↦ overrun ∷ [] | some c ↦ uartlite_putc c ]

-- while (i--) uartlite_putc(buf[i]);
unfoldable pub drain : ℕ → Bytes → Code
drain zero buf = []
drain (suc i) buf = put_at buf i ++ drain i buf

unfoldable pub print : Option (ℕ × Bytes) → Code
print none = overrun ∷ []
print (some (i, buf)) = drain i buf

-- `buf` is what the stack holds when put_dec is called, 12 bytes.
unfoldable pub put_dec : Bytes → ℕ → Code
put_dec buf v = if v == 0 then uartlite_putc b'0' else print (fill buf_size v 0 buf)

-- One round of the `for (;;)` of task_blink with the counter at `n`, and the counter after it.
unfoldable pub blink_round : Bytes → ℕ → Code
blink_round buf n =
    uartlite_puts (codes "[blink ")
    ++ (put_dec buf n
        ++ (uartlite_puts (codes "]\r\n")
            ++ store word mmio_status (bit_or 0xB000 (bit_and (u32 (n + 1)) 0xFF))
              ∷ delay 500
              ∷ []))

-- `#ifndef FREERTOS_FPGA`, with `n` already counted up.
unfoldable pub hello_exit : Bool → ℕ → Code
hello_exit fpga n =
    if not fpga && (n == 10) then uartlite_puts (codes "PASS\r\n") ++ mmio_exit 0 else []

-- The same for task_hello.
unfoldable pub hello_round : Bool → Bytes → ℕ → Code
hello_round fpga buf n =
    uartlite_puts (codes "hello #")
    ++ (put_dec buf n
        ++ (uartlite_puts (codes "\r\n") ++ (hello_exit fpga (u32 (n + 1)) ++ delay 250 ∷ [])))

unfoldable pub assert_called : Code
assert_called = uartlite_puts (codes "ASSERT\r\n") ++ mmio_exit 2

-- configASSERT(x)
unfoldable pub config_assert : ℕ → Code
config_assert x = if x == 0 then assert_called else []

unfoldable pub exception_handler : Code
exception_handler = uartlite_puts (codes "EXC\r\n") ++ mmio_exit 3

unfoldable pub interrupt_handler : Code
interrupt_handler = uartlite_puts (codes "IRQ?\r\n") ++ mmio_exit 4

-- What `main` does up to the call of the scheduler, and behind it: the scheduler returns only if it
-- could not start.
unfoldable pub boot_code : Code
boot_code =
    uartlite_puts (codes "\r\nFreeRTOS booting on RV32IMA SoC\r\n")
    ++ call set_mtvec ∷ call (create_hello 2) ∷ call (create_blink 1) ∷ call start_scheduler ∷ []

unfoldable pub scheduler_returned : Code
scheduler_returned = uartlite_puts (codes "scheduler returned?\r\n") ++ mmio_exit 5

unfoldable pub main_code : Code
main_code = boot_code ++ scheduler_returned
