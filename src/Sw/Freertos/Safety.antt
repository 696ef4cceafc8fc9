-- ===== src/Sw/Freertos/Safety.antt =====
-- Whatever the kernel does between two accesses, the demo exits with 0, and only behind its report.
use mathlib.Core.Path.{subst}
use qinglong_core.Prelude.{
  ℕ, ◌^◌, ◌<◌, ◌≡◌, refl, sym, ap, ◌∙◌, true, false, ◌++◌, append-nil, Bytes, length, arith,
}
use qinglong_core.Hw.Mmio.{Mmio}
use qinglong_core.Hw.Uart.{Uart}
use qinglong_core.Sw.Freertos.{blink_round, buf_size}
use qinglong_core.Sw.Freertos.Sends.{
  sends_all, plain, stuck_silent, outlook, hello_report, outlook-blink_round,
}
use qinglong_core.Sw.Freertos.System.{
  Thread, System, hello_step, blink_step, Step, by_hello, by_blink, Reach, start, later,
}
use qinglong_core.Sw.Freertos.Plain.{Plain, step-KeepsExit}
use qinglong_core.Sw.Freertos.Hello.{HelloOk, step-HelloOk}

module _ (dev : Uart) (memory : ℕ → ℕ) where
  open dev use {State}

  module _ (stack : ℕ → Bytes) (sized : (n : ℕ) → length (stack n) ≡ buf_size) where
    pub record Ok (s : System State) : Type 0 where
      pub hello_ok : HelloOk s.hello s.machine.mmio
      pub blink_ok : Plain s.blink

    -- A step of the other task that keeps the exit register.
    HelloOk-kept :
        (t : Thread) (mmio mmio' : Mmio)
        → HelloOk t mmio
        → mmio'.exit_valid ≡ mmio.exit_valid
        → mmio'.exit_code ≡ mmio.exit_code
        → HelloOk t mmio'
    HelloOk-kept t mmio mmio' h ev ec = record {
      n_le = h.n_le;
      covered = h.covered;
      before = λ x. h.before (sym ev ∙ x);
      after = λ x. let (c, n, o) = h.after (sym ev ∙ x) in (ec ∙ c, n, o);
    }

    blink_plain : (n : ℕ) → n < 2 ^ 32 → outlook (blink_round (stack n) n) ≡ plain
    blink_plain n small = outlook-blink_round (stack n) (sized n) n small

    pub Step-Ok : {s s' : System State} → Step dev memory false stack s s' → Ok s → Ok s'
    unfolding hello_step blink_step
    Step-Ok {s} (by_hello e) h = subst Ok (sym e) (record {
      hello_ok = step-HelloOk dev memory stack sized s.hello.rest s.hello s.machine refl h.hello_ok;
      blink_ok = h.blink_ok;
    })
    Step-Ok {s} (by_blink e) h =
        let b =
          step-KeepsExit dev memory (λ n. blink_round (stack n) n) blink_plain s.blink.rest s.blink
            s.machine refl h.blink_ok in
        subst Ok (sym e) (record {
          hello_ok = HelloOk-kept s.hello s.machine.mmio _ h.hello_ok b.same_valid b.same_code;
          blink_ok = b.still;
        })

    pub Reach-Ok : {u : State} {s : System State} → Reach dev memory false stack u s → Ok s
    unfolding hello_report sends_all outlook
    Reach-Ok (start mmio clear) = record {
      hello_ok = record { n_le = omega arith; covered = refl; before = λ x. refl; after = λ x. cc };
      blink_ok = record { small = omega arith; harmless = refl };
    }
    Reach-Ok (later r st) = Step-Ok st (Reach-Ok r)

    -- However the kernel interleaves the two tasks: once the exit register is written it holds 0,
    -- and task_hello has then stored its ten numbered lines and PASS to the register of the transmit
    -- FIFO, in this order and complete. A store to a FIFO that is full counts too.
    pub Reach-reports :
        (u : State) (s : System State)
        → Reach dev memory false stack u s
        → s.machine.mmio.exit_valid ≡ true
        → (s.machine.mmio.exit_code ≡ 0) × (s.hello.stored ≡ hello_report 10)
    Reach-reports u s r x =
        let ok = Reach-Ok r in
        let (c, n, o) = ok.hello_ok.after x in
        (
          c,
          sym (append-nil s.hello.stored)
              ∙ ap (λ (b : Bytes). s.hello.stored ++ b) (sym (stuck_silent s.hello.rest o))
              ∙ ok.hello_ok.covered
              ∙ ap hello_report n,
        )
