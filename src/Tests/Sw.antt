-- ===== src/Tests/Sw.antt =====
-- The software on a UART with room for one byte, which takes one poll of STAT to send it.
use qinglong_core.Prelude.{
  zero, suc, ℕ, ◌%◌, ◌<◌, ◌≡◌, refl, ◌≤◌, ◌==◌, if◌then◌else◌, Bool, true, false, bit_and, [], ◌∷◌,
  ◌++◌, Bytes, codes, length, some, arith,
}
use qinglong_core.Hw.Mmio.{reset_mmio}
use qinglong_core.Hw.Uart.{Uart}
use qinglong_core.Sw.Code.{each}
use qinglong_core.Sw.Mmio.{mmio_exit}
use qinglong_core.Sw.Uartlite.{uartlite_putc, uartlite_puts}
use qinglong_core.Sw.Uartlite.Puts.{Sends, uartlite_puts-Sends}
use qinglong_core.Sw.Machine.{Machine, exec, load, run, write_to}
use qinglong_core.Sw.Freertos.{set, fill, put_at, drain, print, put_dec}
use qinglong_core.Sw.Freertos.Decimal.{read_digits, first, put_dec-read_digits}
use qinglong_core.Sw.Freertos.Sends.{hello_report}
use qinglong_core.Sw.Freertos.System.{System, start, later, by_hello, fresh_thread}
use qinglong_core.Sw.Freertos.Heard.{Within}
use qinglong_core.Sw.Freertos.Priority.{
  delayed, Scheduled, scheduler, turn, hello_turn, blink_turn, Scheduled-Reach, Scheduled-sent,
}
use qinglong_core.Sw.Freertos.Progress.{Alone, here, next, Exits, Reach-Exits}
use qinglong_core.Sw.Freertos.{config_assert, exception_handler, interrupt_handler, main_code}
use qinglong_core.Sw.Freertos.{hello_round, blink_round, hello_exit}
use qinglong_core.Sw.Freertos.System.{hello_step, blink_step, thread_step, advance, sends}
use qinglong_core.Sw.Freertos.Fpga.{Reach-runs_on}
use qinglong_core.Sw.Freertos.Handlers.{GivesUp, handlers-GivesUp}

-- The bytes that are sent, and whether the place is taken.
record Slow : Type 0 where
  log : Bytes
  taken : Bool

abbrev slow_read : ℕ → Slow → ℕ × Slow
slow_read a s = (if s.taken then 8 else 0, record s { taken = false })

abbrev slow_write : ℕ → ℕ → Slow → Slow
slow_write a v s =
    if s.taken
    then s
    else if a == 4
    then record { log = s.log ++ v % 256 ∷ []; taken = true }
    else s

slow_busy : Bool → ℕ
slow_busy b = if b then 1 else 0

slow_busy_falls :
    (b : Bool) → (bit_and (if b then 8 else 0) 8 == 0) ≡ false → slow_busy false < slow_busy b
unfolding slow_busy
slow_busy_falls true h = omega arith
slow_busy_falls false h = cc

slow_sends : (v : ℕ) (s : Slow) → s.taken ≡ false → (slow_write 4 v s).log ≡ s.log ++ v % 256 ∷ []
slow_sends v s h = rw (h) refl

slow_drops : (v : ℕ) (s : Slow) → s.taken ≡ true → (slow_write 4 v s).log ≡ s.log
slow_drops v s h = rw (h) refl

abbrev slow_uart : Uart
slow_uart = record {
  State = Slow;
  read = slow_read;
  write = slow_write;
  sent = λ s. s.log;
  full = λ s. s.taken;
  busy = λ s. slow_busy s.taken;
  read-sent = λ s. refl;
  read-full = λ s h. refl;
  read-busy = λ s h. slow_busy_falls s.taken h;
  write-sent = slow_sends;
  write-full = slow_drops;
}

abbrev no_memory : ℕ → ℕ
no_memory a = 0

abbrev empty : Slow
empty = record { log = []; taken = true }

abbrev machine : Machine Slow
machine = record { uart = empty; mmio = reset_mmio }

abbrev stack_bytes : Bytes
stack_bytes = 7 ∷ 7 ∷ 7 ∷ 7 ∷ 7 ∷ 7 ∷ 7 ∷ 7 ∷ 7 ∷ 7 ∷ 7 ∷ 7 ∷ []

abbrev stack : ℕ → Bytes
stack n = stack_bytes

put_dec_runs :
    (put_dec stack_bytes 4096 ≡ uartlite_puts (codes "4096"))
    × (put_dec stack_bytes 0 ≡ uartlite_puts (codes "0"))
unfolding put_dec fill set drain put_at print uartlite_puts uartlite_putc each
put_dec_runs = (refl, refl)

printed : (run slow_uart no_memory 9 (uartlite_puts (codes "ok")) machine).1.uart.log ≡ codes "ok"
unfolding run exec load write_to uartlite_puts uartlite_putc each
printed = refl

put_dec-read_digits_example :
    (s : Bytes) × (put_dec stack_bytes 4096 ≡ uartlite_puts s)
    × (read_digits 0 s ≡ some 4096)
    × (length s ≤ 10)
    × (first s ≡ b'0' → ◌≡◌ {A = ℕ} 4096 0)
put_dec-read_digits_example = put_dec-read_digits stack_bytes 4096 refl (omega arith)

uartlite_puts-Sends_example :
    Sends slow_uart no_memory
      (codes "ok")
      (uartlite_puts (codes "ok") ++ mmio_exit 0)
      (mmio_exit 0)
      machine
uartlite_puts-Sends_example =
    uartlite_puts-Sends slow_uart no_memory (codes "ok") (mmio_exit 0) machine (omega arith)

abbrev scheduled : System Slow
scheduled = record { machine = machine; hello = fresh_thread; blink = fresh_thread }

Reach-Exits_example : Exits slow_uart no_memory stack (λ n. refl) scheduled
Reach-Exits_example =
    Reach-Exits slow_uart no_memory stack (λ n. refl) empty scheduled (start reset_mmio refl)

-- So many steps of a task.
abbrev hello_runs : ℕ → System Slow → System Slow
hello_runs zero s = s
hello_runs (suc k) s = hello_runs k (hello_step slow_uart no_memory false stack s)

abbrev blink_runs : ℕ → System Slow → System Slow
blink_runs zero s = s
blink_runs (suc k) s = blink_runs k (blink_step slow_uart no_memory false stack s)

-- task_hello prints a line and waits, task_blink finds room for its first byte, task_hello prints
-- its second line and waits again, and task_blink stores the byte to the FIFO, which is full now.
abbrev refilled : System Slow
refilled = hello_runs 31 (blink_runs 3 (hello_runs 31 scheduled))

abbrev raced : System Slow
raced = blink_runs 1 refilled

byte_lost :
    (delayed (hello_runs 31 scheduled).hello.rest ≡ true)
    × (raced.blink.stored ≡ codes "[")
    × (delayed refilled.hello.rest ≡ true)
    × (raced.machine.uart.log ≡ codes "hello #0\r\nhello #1\r\n")
unfolding hello_step blink_step thread_step advance sends delayed hello_round blink_round hello_exit
    put_dec fill set put_at drain print uartlite_puts uartlite_putc each exec load write_to
byte_lost = (refl, refl, refl, refl)

hello_runs-Scheduled :
    (k : ℕ) (s : System Slow)
    → Scheduled slow_uart no_memory stack empty s
    → Scheduled slow_uart no_memory stack empty (hello_runs k s)
hello_runs-Scheduled zero s r = r
hello_runs-Scheduled (suc k) s r = hello_runs-Scheduled k _ (turn r (hello_turn refl))

blink_runs-Scheduled :
    (k : ℕ) (s : System Slow)
    → delayed s.hello.rest ≡ true
    → Scheduled slow_uart no_memory stack empty s
    → Scheduled slow_uart no_memory stack empty (blink_runs k s)
unfolding blink_step
blink_runs-Scheduled zero s d r = r
blink_runs-Scheduled (suc k) s d r = blink_runs-Scheduled k _ d (turn r (blink_turn d refl))

raced-Scheduled : Scheduled slow_uart no_memory stack empty raced
raced-Scheduled = blink_runs-Scheduled 1 refilled byte_lost.2 (
    hello_runs-Scheduled 31 (blink_runs 3 (hello_runs 31 scheduled)) (
      blink_runs-Scheduled 3 (hello_runs 31 scheduled) byte_lost.0
        (hello_runs-Scheduled 31 scheduled (scheduler reset_mmio refl))))

-- From there on task_hello runs alone, up to its exit.
abbrev exited : Exits slow_uart no_memory stack (λ n. refl) raced
exited =
    Reach-Exits slow_uart no_memory stack (λ n. refl) empty raced
      (Scheduled-Reach slow_uart no_memory stack raced-Scheduled)

Alone-Scheduled :
    (s s' : System Slow)
    → Scheduled slow_uart no_memory stack empty s
    → Alone slow_uart no_memory stack (λ n. refl) s s'
    → Scheduled slow_uart no_memory stack empty s'
Alone-Scheduled s _ r here = r
Alone-Scheduled s _ r (next a e) = turn (Alone-Scheduled s _ r a) (hello_turn e)

Scheduled-sent_example :
    (exited.0.machine.mmio.exit_code ≡ 0)
    × (log : Bytes) × (exited.0.machine.uart.log ≡ [] ++ log)
    × Within (hello_report 10) log
Scheduled-sent_example =
    Scheduled-sent slow_uart no_memory stack (λ n. refl) empty exited.0
      (Alone-Scheduled raced exited.0 raced-Scheduled exited.1) exited.2

abbrev greeted : System Slow
greeted = hello_step slow_uart no_memory true stack scheduled

Reach-runs_on_example : greeted.machine.mmio.exit_valid ≡ false
Reach-runs_on_example =
    Reach-runs_on slow_uart no_memory stack (λ n. refl) empty greeted
      (later (start reset_mmio refl) (by_hello refl))

handlers-GivesUp_example :
    GivesUp slow_uart no_memory (config_assert 0) (codes "ASSERT\r\n") 2 machine
    × GivesUp slow_uart no_memory exception_handler (codes "EXC\r\n") 3 machine
    × GivesUp slow_uart no_memory interrupt_handler (codes "IRQ?\r\n") 4 machine
    × GivesUp slow_uart no_memory main_code
        (codes "\r\nFreeRTOS booting on RV32IMA SoC\r\nscheduler returned?\r\n")
        5
        machine
handlers-GivesUp_example = handlers-GivesUp slow_uart no_memory machine
