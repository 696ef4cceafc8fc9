-- ===== src/Sim/Loop.antt =====
-- The main loop of sim_main.cpp: reset, one clock cycle with what the testbench samples in it, and
-- the loop up to an end or the cap on cycles.
pub mod Clock
pub mod Run
pub mod Pass
use qinglong_core.Prelude.{
  ℕ, zero, suc, ◌+◌, ◌-◌, ◌/◌, sub32, u32, ltb, ◌==◌, if◌then◌else◌, Bool, true, false, not, ◌&&◌,
  Bytes, List, [], ◌∷◌, ◌++◌,
}
use qinglong_core.Dpi.{sram_dpi_read}
use qinglong_core.Sim.Soc.{Soc, Outputs}
use qinglong_core.Sim.Text.{commit_line}

-- The messages on stderr, with their values.
pub data Message : Type 0 where
  mmio_exit : ℕ → ℕ → Message
  tohost_pass : ℕ → Message
  tohost_fail : ℕ → ℕ → ℕ → Message
  finished : ℕ → Message
  timed_out : ℕ → Message

-- The variables of the loop, the files it writes to, and g_cycles. `exit_code` is the pattern of
-- an int; `trace` is what went to the trace file.
pub record Sim (S : Type 0) : Type 0 where
  pub top : S
  pub cycles : ℕ
  pub done : Bool
  pub exit_code : ℕ
  pub trace : Bytes
  pub console : Bytes
  pub messages : List Message

-- What the loop reads and never sets: is there a trace file, `quiet`, `tohost_addr` and the index.
pub record Options : Type 0 where
  pub tracing : Bool
  pub quiet : Bool
  pub tohost_addr : ℕ
  pub tohost_widx : ℕ

-- int exit_code = -1;
abbrev pub minus_one : ℕ
minus_one = 0xFFFFFFFF

-- `val >> 1` of an int: the sign stays.
abbrev pub sar1 : ℕ → ℕ
sar1 v = if ltb v 0x80000000 then v / 2 else v / 2 + 0x80000000

module _ (soc : Soc) where
  open soc use {State, eval, outputs, got_finish, sram}

  unfoldable pub say : Options → Message → Sim State → Sim State
  say o m s = if o.quiet then s else record s { messages = s.messages ++ m ∷ [] }

  -- The commit line and the console byte, sampled after the rising edge.
  unfoldable pub sample : Options → Sim State → Sim State
  unfolding commit_line
  sample o s =
      let out = outputs s.top in
      let s1 : Sim State =
        if out.commit_valid && o.tracing
        then record s { trace = s.trace ++ commit_line out }
        else s in
      if out.console_valid then record s1 { console = s1.console ++ out.console_byte ∷ [] } else s1

  -- `if (top->exit_valid) { … }`
  unfoldable pub take_exit : Options → Sim State → Sim State
  unfolding say
  take_exit o s =
      let out = outputs s.top in
      if out.exit_valid
      then say o (mmio_exit out.exit_code s.cycles)
          (record s { exit_code = out.exit_code; done = true })
      else s

  -- `if (val != 0) { … }`
  unfoldable pub take_tohost : Options → ℕ → Sim State → Sim State
  unfolding say
  take_tohost o val s =
      if val == 0
      then s
      else if val == 1
      then say o (tohost_pass s.cycles) (record s { exit_code = 0; done = true })
      else say o (tohost_fail val (sar1 val) s.cycles) (record s { exit_code = 1; done = true })

  -- `if (!done && tohost_addr) { … }`
  unfoldable pub poll_tohost : Options → Sim State → Sim State
  unfolding take_tohost sram_dpi_read
  poll_tohost o s =
      if not s.done && not (o.tohost_addr == 0)
      then take_tohost o (sram_dpi_read o.tohost_widx (sram s.top)) s
      else s

  -- `if (Verilated::gotFinish()) { … }`
  unfoldable pub take_finish : Options → Sim State → Sim State
  unfolding say
  take_finish o s =
      if got_finish s.top then say o (finished s.cycles) (record s { done = true }) else s

  -- The body of the loop. g_cycles stays below the cap, so `g_cycles++` does not wrap.
  unfoldable pub cycle : Options → Sim State → Sim State
  unfolding sample take_exit poll_tohost take_finish
  cycle o s =
      let s1 = take_exit o (sample o (record s { top = eval true false s.top })) in
      let s2 = poll_tohost o (record s1 { top = eval false false s1.top }) in
      take_finish o (record s2 { cycles = s2.cycles + 1 })

  -- `while (!done && g_cycles < timeout)`, on fuel.
  unfoldable pub run : ℕ → Options → ℕ → Sim State → Sim State
  run zero o timeout s = s
  run (suc fuel) o timeout s =
      let next = run fuel o timeout (cycle o s) in
      if not s.done && ltb s.cycles timeout then next else s

  -- `if (!done && g_cycles >= timeout) { … }`; this message ignores `quiet`.
  unfoldable pub check_timeout : ℕ → Sim State → Sim State
  check_timeout timeout s =
      if not s.done && not (ltb s.cycles timeout)
      then record s { messages = s.messages ++ timed_out s.cycles ∷ []; exit_code = 124 }
      else s

  -- The reset pulse: ten half cycles with `rst` set, each counted as a cycle, then `rst` cleared.
  unfoldable pub reset_edges : ℕ → Bool → State → State
  reset_edges zero clk t = t
  reset_edges (suc n) clk t = reset_edges n (not clk) (eval (not clk) true t)

  unfoldable pub reset : State → Sim State
  unfolding reset_edges
  reset t = record {
    top = reset_edges 10 false t;
    cycles = 10;
    done = false;
    exit_code = minus_one;
    trace = [];
    console = [];
    messages = [];
  }

  -- The loop and the test behind it. Each round counts a cycle, so `timeout` rounds are enough.
  unfoldable pub simulate : Options → ℕ → Sim State → Sim State
  unfolding run check_timeout
  simulate o timeout s = check_timeout timeout (run (timeout - s.cycles) o timeout s)
