-- ===== src/Sim/Loop/Run.antt =====
-- The whole run against the clock: it stops at the first cycle that ends it, with that cycle's exit
-- code and the output of all cycles up to it, or at the cap with exit code 124.
use qinglong_core.Prelude.{
  ℕ, zero, suc, ◌+◌, ◌-◌, ◌<◌, ◌≡◌, refl, true, false, ◌++◌, append_assoc, sym, ◌∙◌, ap, append-nil,
  arith, lt→ltb, le→not-ltb,
}
use qinglong_core.Sim.Soc.{Soc}
use qinglong_core.Sim.Loop.{Sim, Options, cycle, run, check_timeout, simulate, minus_one}
use qinglong_core.Sim.Loop.Clock.{
  fall, after, verdict, code_or, ends, traces, consoles, Cycles, cycle-Cycles, quiet_code,
}

module _ (soc : Soc) where
  open soc use {State}

  -- No cycle from `t` up to the `n`-th ends the run.
  abbrev pub Quiet : Options → ℕ → State → Type 0
  Quiet o zero t = Unit
  Quiet o (suc n) t = (ends soc o t ≡ false) × Quiet o n (fall soc t)

  -- How the run ended: after `n` cycles, with an exit code.
  pub record Ended (o : Options) (n code : ℕ) (s s' : Sim State) : Type 0 where
    pub final_top : s'.top ≡ after soc n s.top
    pub final_cycles : s'.cycles ≡ s.cycles + n
    pub final_trace : s'.trace ≡ s.trace ++ traces soc o n s.top
    pub final_console : s'.console ≡ s.console ++ consoles soc n s.top
    pub final_code : s'.exit_code ≡ code

  run-suc :
      (o : Options) (fuel timeout : ℕ) (s : Sim State)
      → s.done ≡ false
      → s.cycles < timeout
      → run soc (suc fuel) o timeout s ≡ run soc fuel o timeout (cycle soc o s)
  unfolding run
  run-suc o fuel timeout s d h = rw (d, lt→ltb s.cycles timeout h)

  run-done :
      (o : Options) (fuel timeout : ℕ) (s : Sim State)
      → s.done ≡ true
      → run soc fuel o timeout s ≡ s
  unfolding run
  run-done o zero timeout s d = refl
  run-done o (suc fuel) timeout s d = rw d

  Ended-suc :
      (o : Options) (n code : ℕ) (s s1 s' : Sim State)
      → Cycles soc o s s1
      → Ended o n code s1 s'
      → Ended o (suc n) code s s'
  unfolding traces consoles
  Ended-suc o n code s s1 s' c e = record {
    final_top = ground (arith, c, e);
    final_cycles = omega (arith, c, e);
    final_trace = rw (e.final_trace, c.traced, c.top_falls) (append_assoc s.trace _ _);
    final_console = rw (e.final_console, c.shown, c.top_falls) (append_assoc s.console _ _);
    final_code = e.final_code;
  }

  Ended-code :
      {o : Options} {n code code' : ℕ} {s s' : Sim State}
      → Ended o n code s s'
      → code ≡ code'
      → Ended o n code' s s'
  Ended-code e h = record {
    final_top = e.final_top;
    final_cycles = e.final_cycles;
    final_trace = e.final_trace;
    final_console = e.final_console;
    final_code = e.final_code ∙ h;
  }

  Ended-zero : (o : Options) (code : ℕ) (s : Sim State) → s.exit_code ≡ code → Ended o 0 code s s
  unfolding traces consoles
  Ended-zero o code s e = record {
    final_top = refl;
    final_cycles = omega arith;
    final_trace = sym (append-nil s.trace);
    final_console = sym (append-nil s.console);
    final_code = e;
  }

  -- The loop stops right behind the first cycle that ends the run.
  run-Ended :
      (n : ℕ) (o : Options) (fuel timeout : ℕ) (s : Sim State) (t : State)
      → s.top ≡ t
      → s.done ≡ false
      → Quiet o n t
      → ends soc o (after soc n t) ≡ true
      → s.cycles + n < timeout
      → n < fuel
      → Ended o
          (suc n)
          (code_or soc (verdict soc o (after soc n t)) s.exit_code)
          s
          (run soc fuel o timeout s)
        × ((run soc fuel o timeout s).done ≡ true)
  run-Ended n o zero timeout s t p d q e h f = absurd (omega arith)
  run-Ended zero o (suc fuel) timeout s t p d q e h f =
      let k = cycle-Cycles soc o s d in
      let stops : (cycle soc o s).done ≡ true = k.ends_as ∙ ap (ends soc o) p ∙ e in
      rw (run-suc o fuel timeout s d (omega arith), run-done o fuel timeout (cycle soc o s) stops)
        (
          Ended-suc o 0 _ s (cycle soc o s) (cycle soc o s) k (
              Ended-zero o _ (cycle soc o s)
                (k.code_as ∙ ap (λ u. code_or soc (verdict soc o u) s.exit_code) p)),
          stops,
        )
  run-Ended (suc n) o (suc fuel) timeout s t p d q e h f =
      let k = cycle-Cycles soc o s d in
      let goes : (cycle soc o s).done ≡ false = k.ends_as ∙ ap (ends soc o) p ∙ q.0 in
      let same : (cycle soc o s).exit_code ≡ s.exit_code =
        k.code_as ∙ quiet_code soc o s.top s.exit_code (ap (ends soc o) p ∙ q.0) in
      let rest =
        run-Ended n o fuel timeout (cycle soc o s) (fall soc t) (k.top_falls ∙ ap (fall soc) p) goes
          q.1 e (omega (arith, k.counts)) (omega arith) in
      rw (run-suc o fuel timeout s d (omega arith)) (
        Ended-suc o (suc n) _ s (cycle soc o s) _ k
            (Ended-code rest.0 (ap (code_or soc (verdict soc o (after soc n (fall soc t)))) same)),
        rest.1,
      )

  -- With no such cycle below the cap, the loop runs up to the cap.
  run-Ended_at_cap :
      (n : ℕ) (o : Options) (timeout : ℕ) (s : Sim State) (t : State)
      → s.top ≡ t
      → s.done ≡ false
      → Quiet o n t
      → s.cycles + n ≡ timeout
      → Ended o n s.exit_code s (run soc n o timeout s) × ((run soc n o timeout s).done ≡ false)
  run-Ended_at_cap zero o timeout s t p d q h = unfold run in (Ended-zero o s.exit_code s refl, d)
  run-Ended_at_cap (suc n) o timeout s t p d q h =
      let k = cycle-Cycles soc o s d in
      let goes : (cycle soc o s).done ≡ false = k.ends_as ∙ ap (ends soc o) p ∙ q.0 in
      let same : (cycle soc o s).exit_code ≡ s.exit_code =
        k.code_as ∙ quiet_code soc o s.top s.exit_code (ap (ends soc o) p ∙ q.0) in
      let rest =
        run-Ended_at_cap n o timeout (cycle soc o s) (fall soc t) (k.top_falls ∙ ap (fall soc) p)
          goes q.1 (omega (arith, k.counts)) in
      rw (run-suc o n timeout s d (omega arith))
        (Ended-suc o n _ s (cycle soc o s) _ k (Ended-code rest.0 same), rest.1)

  check_timeout-Ended :
      (o : Options) (n code timeout : ℕ) (s s' : Sim State)
      → Ended o n code s s'
      → s'.done ≡ true
      → Ended o n code s (check_timeout soc timeout s')
  unfolding check_timeout
  check_timeout-Ended o n code timeout s s' e d =
      let same : check_timeout soc timeout s' ≡ s' = ground arith in rw same e

  check_timeout_cap :
      (o : Options) (n timeout : ℕ) (s s' : Sim State)
      → Ended o n s.exit_code s s'
      → s'.done ≡ false
      → s.cycles + n ≡ timeout
      → Ended o n 124 s (check_timeout soc timeout s')
  unfolding check_timeout
  check_timeout_cap o n timeout s s' e d h =
      rw (d, le→not-ltb s'.cycles timeout (omega (arith, e.final_cycles)))
        (record {
          final_top = e.final_top;
          final_cycles = e.final_cycles;
          final_trace = e.final_trace;
          final_console = e.final_console;
          final_code = refl;
        })

  -- The run from a fresh state: if cycle `n` is the first to end it and comes below the cap, the
  -- loop makes exactly `n + 1` cycles and returns the exit code that cycle `n` sets, -1 if it only
  -- finishes; the trace and the console hold the output of exactly these cycles, in order.
  pub simulate-Ended :
      (n : ℕ) (o : Options) (timeout : ℕ) (s : Sim State)
      → s.done ≡ false
      → s.exit_code ≡ minus_one
      → Quiet o n s.top
      → ends soc o (after soc n s.top) ≡ true
      → s.cycles + n < timeout
      → Ended o
          (suc n)
          (code_or soc (verdict soc o (after soc n s.top)) minus_one)
          s
          (simulate soc o timeout s)
  unfolding simulate
  simulate-Ended n o timeout s d c q e h =
      let r = run-Ended n o (timeout - s.cycles) timeout s s.top refl d q e h (omega arith) in
      Ended-code (check_timeout-Ended o (suc n) _ timeout s _ r.0 r.1)
        (ap (code_or soc (verdict soc o (after soc n s.top))) c)

  -- If no cycle below the cap ends the run, all of them are made and the exit code is 124.
  pub simulate_cap :
      (n : ℕ) (o : Options) (timeout : ℕ) (s : Sim State)
      → s.done ≡ false
      → Quiet o n s.top
      → s.cycles + n ≡ timeout
      → Ended o n 124 s (simulate soc o timeout s)
  unfolding simulate
  simulate_cap n o timeout s d q h =
      let left : timeout - s.cycles ≡ n = omega arith in
      let r = run-Ended_at_cap n o timeout s s.top refl d q h in
      rw left (check_timeout_cap o n timeout s _ r.0 r.1 h)
