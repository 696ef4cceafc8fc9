-- ===== src/Tests/Top.antt =====
-- A program that prints a letter and stores 7 to the exit register, as a counter in place of the SoC.
use qinglong_core.Prelude.{ℕ, ◌+◌, ◌≡◌, refl, ◌==◌, if◌then◌else◌, true, false, [], ◌∷◌, arith}
use qinglong_core.Dpi.{Mem}
use qinglong_core.Hw.Mmio.{Request, clock, accept, req_ready, reset_mmio}
use qinglong_core.Sim.Loop.{
  Options, simulate, reset, run, cycle, sample, take_exit, poll_tohost, take_finish, say,
  check_timeout, reset_edges,
}
use qinglong_core.Sim.Top.{Rest, Top, eval_top, top}
use qinglong_core.Sim.Top.Exit.{Stops, simulate-Stops}

-- The state counts the edges without reset.
abbrev store : ℕ → ℕ → Request
store a v = record { valid = true; addr = a; wen = true; wdata = v; wmask = 1 }

abbrev counter : Rest
counter = record {
  State = ℕ × Mem;
  initial = (0, λ i. 0);
  edge = λ rst m s. (if rst then 0 else s.0 + 1, s.1);
  request = λ s m.
      if s.0 == 1
      then store 0xD0580000 72
      else if s.0 == 3
      then store 0xD0580004 7
      else record { valid = false; addr = 0; wen = false; wdata = 0; wmask = 0 };
  commits = λ s m. record {
    commit_valid = false;
    commit_pc = 0;
    commit_insn = 0;
    commit_rd_wen = false;
    commit_rd_addr = 0;
    commit_rd_data = 0;
    commit_trap = false;
    commit_cause = 0;
  };
  got_finish = λ s. false;
  sram = λ s. s.1;
  with_sram = λ m s. (s.0, m);
  sram-with_sram = λ m s. refl;
}

abbrev options : Options
options = record { tracing = false; quiet = false; tohost_addr = 0; tohost_widx = 0 }

abbrev at_start : Top counter
at_start = record { clk = false; mmio = reset_mmio; inner = (0, λ i. 0) }

it_stops :
    ((simulate (top counter) options 100 (reset (top counter) at_start)).exit_code ≡ 7)
    × ((simulate (top counter) options 100 (reset (top counter) at_start)).cycles ≡ 14)
    × ((simulate (top counter) options 100 (reset (top counter) at_start)).console ≡ 72 ∷ [])
    × ((simulate (top counter) options 13 (reset (top counter) at_start)).exit_code ≡ 124)
unfolding simulate reset run cycle sample take_exit poll_tohost take_finish say check_timeout
    reset_edges eval_top clock accept req_ready
it_stops = (refl, refl, refl, refl)

simulate-Stops_example :
    Stops counter options refl
      (λ r. refl)
      100
      (reset (top counter) at_start).top
      (simulate (top counter) options 100 (reset (top counter) at_start))
simulate-Stops_example = simulate-Stops counter options refl (λ r. refl) 100 at_start (omega arith)
