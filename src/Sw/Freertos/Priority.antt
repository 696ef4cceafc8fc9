-- ===== src/Sw/Freertos/Priority.antt =====
-- The two tasks under the fixed priorities that `main` gives them, task_hello above task_blink, and
-- what the UART gets to send.
use mathlib.Core.Path.{subst}
use qinglong_core.Prelude.{
  ℕ, ◌≡◌, refl, ap, ◌∙◌, sym, Bool, true, false, [], ◌∷◌, ◌++◌, append-nil, append_assoc, Bytes,
  length, arith,
}
use qinglong_core.Hw.Mmio.{Mmio}
use qinglong_core.Hw.Uart.{Uart}
use qinglong_core.Sw.Code.{Code, store, wait_clear, delay, call, spin, overrun}
use qinglong_core.Sw.Machine.{Machine}
use qinglong_core.Sw.Freertos.{hello_round, blink_round, buf_size}
use qinglong_core.Sw.Freertos.Polls.{guarded, guarded-hello_round, guarded-blink_round}
use qinglong_core.Sw.Freertos.Sends.{hello_report}
use qinglong_core.Sw.Freertos.System.{
  Thread, System, fresh_thread, hello_step, blink_step, Step, by_hello, by_blink, Reach, start,
  later,
}
use qinglong_core.Sw.Freertos.Heard.{
  nothing, Within, Within-grown, Heard, Polite, Gets, no_byte, one_byte, step-Heard, step-Polite,
}
use qinglong_core.Sw.Freertos.Safety.{Reach-reports}

-- The task is in its vTaskDelay, which ends with its next step.
unfoldable pub delayed : Code → Bool
delayed [] = false
delayed (store w a v ∷ code) = false
delayed (wait_clear a mask ∷ code) = false
delayed (delay ms ∷ code) = true
delayed (call c ∷ code) = false
delayed (spin ∷ code) = false
delayed (overrun ∷ code) = false

module _ (dev : Uart) (memory : ℕ → ℕ) where
  open dev use {State, sent}

  -- A task that waits in its delay does not rely on room in the FIFO.
  delayed-guarded :
      (ready : Bool) (code : Code)
      → delayed code ≡ true
      → guarded ready code ≡ true
      → guarded false code ≡ true
  unfolding delayed guarded
  delayed-guarded ready [] w h = refl
  delayed-guarded ready (store a b v ∷ code) w h = cc
  delayed-guarded ready (wait_clear a mask ∷ code) w h = cc
  delayed-guarded ready (delay ms ∷ code) w h = h
  delayed-guarded ready (call c ∷ code) w h = cc
  delayed-guarded ready (spin ∷ code) w h = cc
  delayed-guarded ready (overrun ∷ code) w h = cc

  Heard-kept :
      (u : State) (t : Thread) (m m' : Machine State)
      → delayed t.rest ≡ true
      → Heard dev memory u t m
      → Gets dev memory m m'
      → Heard dev memory u t m'
  Heard-kept u t m m' w h (no_byte e) = record {
    small = h.small;
    ready = false;
    shape = delayed-guarded h.ready t.rest w h.shape;
    room = λ x. cc;
    log = h.log;
    grown = e ∙ h.grown;
    inside = h.inside;
  }
  Heard-kept u t m m' w h (one_byte c e) = record {
    small = h.small;
    ready = false;
    shape = delayed-guarded h.ready t.rest w h.shape;
    room = λ x. cc;
    log = h.log ++ c ∷ [];
    grown = e ∙ ap (λ (b : Bytes). b ++ c ∷ []) h.grown ∙ append_assoc (sent u) h.log (c ∷ []);
    inside = Within-grown c h.inside;
  }

  module _ (stack : ℕ → Bytes) where
    -- Under fixed priorities with preemption task_blink runs only while task_hello is in its delay;
    -- task_hello runs as soon as its delay is over, whatever task_blink is at.
    pub data Turn (s s' : System State) : Type 0 where
      hello_turn : s' ≡ hello_step dev memory false stack s → Turn s s'
      blink_turn :
          delayed s.hello.rest ≡ true → s' ≡ blink_step dev memory false stack s → Turn s s'

    pub data Scheduled (u : State) : System State → Type 0 where
      scheduler :
          (mmio : Mmio)
          → mmio.exit_valid ≡ false
          → Scheduled u (record {
            machine = record { uart = u; mmio = mmio };
            hello = fresh_thread;
            blink = fresh_thread;
          })
      turn : {s s' : System State} → Scheduled u s → Turn s s' → Scheduled u s'

    Turn-Step : {s s' : System State} → Turn s s' → Step dev memory false stack s s'
    Turn-Step (hello_turn e) = by_hello e
    Turn-Step (blink_turn w e) = by_blink e

    pub Scheduled-Reach :
        {u : State} {s : System State} → Scheduled u s → Reach dev memory false stack u s
    Scheduled-Reach (scheduler mmio clear) = start mmio clear
    Scheduled-Reach (turn r t) = later (Scheduled-Reach r) (Turn-Step t)

    module _ (sized : (n : ℕ) → length (stack n) ≡ buf_size) where
      record Sound (u : State) (s : System State) : Type 0 where
        hello_heard : Heard dev memory u s.hello s.machine
        blink_polite : Polite dev memory s.blink

      Turn-Sound : (u : State) {s s' : System State} → Turn s s' → Sound u s → Sound u s'
      unfolding hello_step blink_step
      Turn-Sound u {s} (hello_turn e) h = subst (Sound u) (sym e) (record {
        hello_heard =
            step-Heard dev memory (λ n. hello_round false (stack n) n)
              (λ n f. guarded-hello_round (stack n) (sized n) n f) u s.hello.rest s.hello s.machine
              refl h.hello_heard;
        blink_polite = h.blink_polite;
      })
      Turn-Sound u {s} (blink_turn w e) h =
          let (p, g) =
            step-Polite dev memory (λ n. blink_round (stack n) n)
              (λ n f. guarded-blink_round (stack n) (sized n) n f) s.blink.rest s.blink s.machine
              refl h.blink_polite in
          subst (Sound u) (sym e) (record {
            hello_heard = Heard-kept u s.hello s.machine _ w h.hello_heard g;
            blink_polite = p;
          })

      Scheduled-Sound : (u : State) {s : System State} → Scheduled u s → Sound u s
      unfolding guarded
      Scheduled-Sound u (scheduler mmio clear) = record {
        hello_heard = record {
          small = omega arith;
          ready = false;
          shape = refl;
          room = λ x. cc;
          log = [];
          grown = sym (append-nil (sent u));
          inside = nothing;
        };
        blink_polite = record { small = omega arith; ready = false; shape = refl };
      }
      Scheduled-Sound u (turn r t) = Turn-Sound u t (Scheduled-Sound u r)

      -- Under the fixed priorities, wherever the delays end and on any UART of the interface: once
      -- the exit register is written it holds 0, and among the bytes that went into the transmit
      -- FIFO since the scheduler started are the ten numbered lines of task_hello and PASS, every
      -- byte, in this order. Other bytes may stand between them.
      pub Scheduled-sent :
          (u : State) (s : System State)
          → Scheduled u s
          → s.machine.mmio.exit_valid ≡ true
          → (s.machine.mmio.exit_code ≡ 0)
            × (log : Bytes) × (sent s.machine.uart ≡ sent u ++ log)
            × Within (hello_report 10) log
      Scheduled-sent u s r x =
          let (c, all) = Reach-reports dev memory stack sized u s (Scheduled-Reach r) x in
          let h = (Scheduled-Sound u r).hello_heard in
          (c, h.log, h.grown, subst (λ (b : Bytes). Within b h.log) all h.inside)
