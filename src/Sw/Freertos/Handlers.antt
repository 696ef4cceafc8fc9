-- ===== src/Sw/Freertos/Handlers.antt =====
-- The ways in which main.c gives up, with the exit code of each.
use mathlib.Core.Path.{subst}
use qinglong_core.Prelude.{
  ℕ, suc, zero, ◌%◌, ◌^◌, ◌<◌, ◌≡◌, refl, sym, ap, ◌∙◌, true, [], ◌∷◌, ◌++◌, append_assoc, Bytes,
  codes, IsByte, All, u32, arith,
}
use qinglong_core.Hw.Mmio.{clock, accept, req_ready, addr_exit}
use qinglong_core.Hw.Uart.{Uart}
use qinglong_core.Sw.Code.{
  Code, Call, call, set_mtvec, create_hello, create_blink, start_scheduler, spin, store, word,
}
use qinglong_core.Sw.Mmio.{mmio_exit}
use qinglong_core.Sw.Uartlite.{uartlite_puts}
use qinglong_core.Sw.Uartlite.Puts.{uartlite_puts-Sends}
use qinglong_core.Sw.Machine.{Machine, exec, write_to, run}
use qinglong_core.Sw.Machine.Runs.{Runs, Runs-done, Runs-none, Runs-trans}
use qinglong_core.Sw.Freertos.{
  assert_called, config_assert, exception_handler, interrupt_handler, scheduler_returned, main_code,
  boot_code,
}

module _ (dev : Uart) (memory : ℕ → ℕ) where
  open dev use {State, sent}

  -- The code sends `text`, leaves `n` in the exit register and hangs for good.
  pub record GivesUp (code : Code) (text : Bytes) (n : ℕ) (m : Machine State) : Type 0 where
    pub to : Machine State
    pub ran : Runs dev memory code (spin ∷ []) m to
    pub told : sent to.uart ≡ sent m.uart ++ text
    pub exited : to.mmio.exit_valid ≡ true
    pub exit_is : to.mmio.exit_code ≡ n
    pub hangs : (k : ℕ) → run dev memory k (spin ∷ []) to ≡ (spin ∷ [], to)

  spins : (k : ℕ) (m : Machine State) → run dev memory k (spin ∷ []) m ≡ (spin ∷ [], m)
  unfolding run exec
  spins zero m = refl
  spins (suc k) m = spins k m

  exit_store : ℕ → Machine State → Machine State
  exit_store n m = (exec dev memory (store word addr_exit n) m).0

  exit_store_is :
      (n : ℕ) (m : Machine State)
      → ((exit_store n m).mmio.exit_valid ≡ true)
        × ((exit_store n m).mmio.exit_code ≡ n)
        × (sent (exit_store n m).uart ≡ sent m.uart)
  unfolding exit_store exec write_to clock accept req_ready
  exit_store_is n m = (refl, refl, refl)

  exec-exit :
      (n : ℕ) (m : Machine State)
      → exec dev memory (store word addr_exit n) m ≡ (exit_store n m, true)
  unfolding exit_store exec
  exec-exit n m = refl

  exit_Runs :
      (n : ℕ) (m : Machine State)
      → n < 2 ^ 32
      → Runs dev memory (mmio_exit n) (spin ∷ []) m (exit_store n m)
  unfolding mmio_exit
  exit_Runs n m small =
      let same : n % 2 ^ 32 ≡ n = omega (arith, small) in
      Runs-done dev memory (store word addr_exit (u32 n)) (spin ∷ []) (spin ∷ []) m (exit_store n m)
        (exit_store n m)
        (ap (λ (x : ℕ). exec dev memory (store word addr_exit x) m) same ∙ exec-exit n m)
        (Runs-none dev memory (spin ∷ []) (exit_store n m))

  puts_exit :
      (text : Bytes) (n : ℕ) (m : Machine State)
      → All IsByte text
      → n < 2 ^ 32
      → GivesUp (uartlite_puts text ++ mmio_exit n) text n m
  puts_exit text n m h small =
      let s = uartlite_puts-Sends dev memory text (mmio_exit n) m h in
      let (v, c, u) = exit_store_is n s.to in
      record {
        to = exit_store n s.to;
        ran =
            Runs-trans dev memory _ (mmio_exit n) (spin ∷ []) m s.to _ s.ran
              (exit_Runs n s.to small);
        told = u ∙ s.sent_all;
        exited = v;
        exit_is = c;
        hangs = λ k. spins k (exit_store n s.to);
      }

  after_puts :
      (s text : Bytes) (code : Code) (n : ℕ) (m : Machine State)
      → All IsByte s
      → ((m1 : Machine State) → GivesUp code text n m1)
      → GivesUp (uartlite_puts s ++ code) (s ++ text) n m
  after_puts s text code n m h g =
      let p = uartlite_puts-Sends dev memory s code m h in
      let r = g p.to in
      record {
        to = r.to;
        ran = Runs-trans dev memory _ code (spin ∷ []) m p.to _ p.ran r.ran;
        told =
            r.told ∙ ap (λ (x : Bytes). x ++ text) p.sent_all ∙ append_assoc (sent m.uart) s text;
        exited = r.exited;
        exit_is = r.exit_is;
        hangs = r.hangs;
      }

  after_call :
      (c : Call) (text : Bytes) (code : Code) (n : ℕ) (m : Machine State)
      → GivesUp code text n m
      → GivesUp (call c ∷ code) text n m
  after_call c text code n m g = record {
    to = g.to;
    ran = Runs-done dev memory (call c) code (spin ∷ []) m m g.to (unfold exec in refl) g.ran;
    told = g.told;
    exited = g.exited;
    exit_is = g.exit_is;
    hangs = g.hangs;
  }

  returned_GivesUp :
      (m : Machine State) → GivesUp scheduler_returned (codes "scheduler returned?\r\n") 5 m
  unfolding scheduler_returned
  returned_GivesUp m = puts_exit (codes "scheduler returned?\r\n") 5 m (omega arith) (omega arith)

  abbrev banner : Bytes
  banner = codes "\r\nFreeRTOS booting on RV32IMA SoC\r\n"

  main_code-GivesUp :
      (m : Machine State) → GivesUp main_code (banner ++ codes "scheduler returned?\r\n") 5 m
  unfolding main_code boot_code
  main_code-GivesUp m =
      subst (λ (x : Code). GivesUp x (banner ++ codes "scheduler returned?\r\n") 5 m)
        (sym (append_assoc (uartlite_puts banner) _ scheduler_returned))
        (after_puts banner (codes "scheduler returned?\r\n") _ 5 m (omega arith) λ m1.
          after_call set_mtvec _ _ 5 m1 (
            after_call (create_hello 2) _ _ 5 m1 (
              after_call (create_blink 1) _ _ 5 m1
                (after_call start_scheduler _ _ 5 m1 (returned_GivesUp m1)))))

  -- On any UART and from any machine, each way to give up sends its own text whole, leaves its own
  -- code in the exit register and then hangs there: a failed configASSERT with 2, an unexpected
  -- exception with 3, an unexpected interrupt with 4, and main, behind its banner, with 5 if the
  -- scheduler returns.
  pub handlers-GivesUp :
      (m : Machine State)
      → GivesUp (config_assert 0) (codes "ASSERT\r\n") 2 m
        × GivesUp exception_handler (codes "EXC\r\n") 3 m
        × GivesUp interrupt_handler (codes "IRQ?\r\n") 4 m
        × GivesUp main_code (banner ++ codes "scheduler returned?\r\n") 5 m
  unfolding config_assert assert_called exception_handler interrupt_handler
  handlers-GivesUp m = (
    puts_exit (codes "ASSERT\r\n") 2 m (omega arith) (omega arith),
    puts_exit (codes "EXC\r\n") 3 m (omega arith) (omega arith),
    puts_exit (codes "IRQ?\r\n") 4 m (omega arith) (omega arith),
    main_code-GivesUp m,
  )
