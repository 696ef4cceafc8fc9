-- ===== src/Sw/Freertos/System.antt =====
-- The two tasks of main.c under the kernel, which may switch between them before every access and
-- may let a delay end at any time.
use qinglong_core.Prelude.{
  ℕ, ◌+◌, ◌%◌, ◌==◌, ◌≡◌, if◌then◌else◌, Bool, false, u32, [], ◌∷◌, ◌++◌, Bytes,
}
use qinglong_core.Hw.Mmio.{Mmio}
use qinglong_core.Hw.Uart.{Uart}
use qinglong_core.Sw.Code.{Code, Op, store, wait_clear, delay, call, spin, overrun, word, byte}
use qinglong_core.Sw.Uartlite.{ul_tx_fifo}
use qinglong_core.Sw.Machine.{Machine, exec}
use qinglong_core.Sw.Freertos.{hello_round, blink_round}

-- A task: the counter `n` of its loop, the code that is left of the round, and the bytes that it
-- has stored to the transmit FIFO, which only the theorems read.
pub record Thread : Type 0 where
  pub n : ℕ
  pub rest : Code
  pub stored : Bytes

abbrev pub fresh_thread : Thread
fresh_thread = record { n = 0; rest = []; stored = [] }

-- What an operation stores to the transmit FIFO.
unfoldable pub sends : Op → Bytes
sends (store word a v) = if a == ul_tx_fifo then v % 256 ∷ [] else []
sends (store byte a v) = []
sends (wait_clear a mask) = []
sends (delay ms) = []
sends (call c) = []
sends spin = []
sends overrun = []

pub record System (U : Type 0) : Type 0 where
  pub machine : Machine U
  pub hello : Thread
  pub blink : Thread

module _ (dev : Uart) (memory : ℕ → ℕ) where
  open dev use {State}

  -- The first operation of `code`, at the head of the task's round.
  unfoldable pub advance : Op → Code → Thread → Machine State → Thread × Machine State
  advance op code t m = (
    if (exec dev memory op m).1 then record t { rest = code; stored = t.stored ++ sends op } else t,
    (exec dev memory op m).0,
  )

  -- One access of a task, or the step to the next round of its `for (;;)`, in which `n++` counts.
  unfoldable pub thread_step : (ℕ → Code) → Code → Thread → Machine State → Thread × Machine State
  thread_step round [] t m = (record t { n = u32 (t.n + 1); rest = round t.n }, m)
  thread_step round (op ∷ code) t m = advance op code t m

  -- The stack of a task holds anything when put_dec is called; `stack` says what, for each round.
  module _ (fpga : Bool) (stack : ℕ → Bytes) where
    unfoldable pub hello_step : System State → System State
    hello_step s =
        let r = thread_step (λ n. hello_round fpga (stack n) n) s.hello.rest s.hello s.machine in
        record s { machine = r.1; hello = r.0 }

    unfoldable pub blink_step : System State → System State
    blink_step s =
        let r = thread_step (λ n. blink_round (stack n) n) s.blink.rest s.blink s.machine in
        record s { machine = r.1; blink = r.0 }

    pub data Step (s s' : System State) : Type 0 where
      by_hello : s' ≡ hello_step s → Step s s'
      by_blink : s' ≡ blink_step s → Step s s'

    -- The scheduler starts on a machine on which nothing has exited.
    pub data Reach (u : State) : System State → Type 0 where
      start :
          (mmio : Mmio)
          → mmio.exit_valid ≡ false
          → Reach u (record {
            machine = record { uart = u; mmio = mmio };
            hello = fresh_thread;
            blink = fresh_thread;
          })
      later : {s s' : System State} → Reach u s → Step s s' → Reach u s'
