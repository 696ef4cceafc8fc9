-- ===== src/Sw/Freertos/Fpga.antt =====
-- The image for the FPGA, compiled with FREERTOS_FPGA.
use mathlib.Core.Path.{subst}
use qinglong_core.Prelude.{ℕ, ◌^◌, ◌<◌, ◌≡◌, refl, sym, ◌∙◌, true, false, Bytes, length, arith}
use qinglong_core.Hw.Uart.{Uart}
use qinglong_core.Sw.Freertos.{hello_round, blink_round, buf_size}
use qinglong_core.Sw.Freertos.Sends.{plain, outlook, outlook-blink_round, outlook-hello_fpga}
use qinglong_core.Sw.Freertos.System.{
  System, hello_step, blink_step, Step, by_hello, by_blink, Reach, start, later,
}
use qinglong_core.Sw.Freertos.Plain.{Plain, step-KeepsExit}

module _ (dev : Uart) (memory : ℕ → ℕ) (stack : ℕ → Bytes)
    (sized : (n : ℕ) → length (stack n) ≡ buf_size) where
  open dev use {State}

  -- No exit, and both tasks go on.
  record Runs (s : System State) : Type 0 where
    hello_ok : Plain s.hello
    blink_ok : Plain s.blink
    no_exit : s.machine.mmio.exit_valid ≡ false

  hello_plain : (n : ℕ) → n < 2 ^ 32 → outlook (hello_round true (stack n) n) ≡ plain
  hello_plain n small = outlook-hello_fpga (stack n) (sized n) n small

  blink_plain : (n : ℕ) → n < 2 ^ 32 → outlook (blink_round (stack n) n) ≡ plain
  blink_plain n small = outlook-blink_round (stack n) (sized n) n small

  Step-Runs : {s s' : System State} → Step dev memory true stack s s' → Runs s → Runs s'
  unfolding hello_step blink_step
  Step-Runs {s} (by_hello e) h =
      let b =
        step-KeepsExit dev memory (λ n. hello_round true (stack n) n) hello_plain s.hello.rest
          s.hello s.machine refl h.hello_ok in
      subst Runs (sym e)
        (record { hello_ok = b.still; blink_ok = h.blink_ok; no_exit = b.same_valid ∙ h.no_exit })
  Step-Runs {s} (by_blink e) h =
      let b =
        step-KeepsExit dev memory (λ n. blink_round (stack n) n) blink_plain s.blink.rest s.blink
          s.machine refl h.blink_ok in
      subst Runs (sym e)
        (record { hello_ok = h.hello_ok; blink_ok = b.still; no_exit = b.same_valid ∙ h.no_exit })

  Reach-Runs : {u : State} {s : System State} → Reach dev memory true stack u s → Runs s
  unfolding outlook
  Reach-Runs (start mmio clear) = record {
    hello_ok = record { small = omega arith; harmless = refl };
    blink_ok = record { small = omega arith; harmless = refl };
    no_exit = clear;
  }
  Reach-Runs (later r st) = Step-Runs st (Reach-Runs r)

  -- Compiled for the FPGA, the demo never writes the exit register: in every state that the two tasks
  -- can reach, through any interleaving and also when a counter has wrapped, nothing has exited.
  pub Reach-runs_on :
      (u : State) (s : System State)
      → Reach dev memory true stack u s
      → s.machine.mmio.exit_valid ≡ false
  Reach-runs_on u s r = let h = Reach-Runs r in h.no_exit
