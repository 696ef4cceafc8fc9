-- ===== src/Linux/Run.antt =====
-- The run in sim_linux.cpp, from the reset on: one clock cycle with its traces and messages, the
-- loop up to an end or the cap on cycles, and the probe of the DDR behind it.
pub mod Log
pub mod Bus
pub mod Ending
pub mod News
pub mod Seen
pub mod Written
use qinglong_core.Prelude.{
  ℕ, zero, suc, ◌+◌, ◌-◌, ◌/◌, ◌%◌, u64, sub32, ltb, leb, ◌==◌, if◌then◌else◌, Bool, true, false,
  not, ◌&&◌, ◌||◌, List, [], ◌∷◌, ◌++◌, map,
}
use qinglong_core.Dpi.{ddr_dpi_read}
use qinglong_core.Linux.Blob.{ddr_base}
use qinglong_core.Linux.Soc.{Soc, Outputs}

-- A line of the commit trace: the cycle, and the outputs that the line is printed from.
pub data CommitLine : Type 0 where
  commit : ℕ → Outputs → CommitLine

-- A request or a response on the data bus: virtual address, physical address, and is it a store.
pub record Access : Type 0 where
  pub va : ℕ
  pub pa : ℕ
  pub wen : Bool

-- A line of the memory trace, an "i" or an "r" with its cycle; the rest of an "i" is printed from
-- the outputs, and the rest of an "r" from the request that is pending and the outputs.
pub data BusLine : Type 0 where
  issue : ℕ → Outputs → BusLine
  response : ℕ → Access → Outputs → BusLine

-- The messages on stderr, with their values.
pub data Message : Type 0 where
  readback : ℕ → ℕ → ℕ → Message
  mmio_exit : ℕ → ℕ → Message
  finished : ℕ → Message
  trap : ℕ → ℕ → ℕ → ℕ → Message
  priv_change : ℕ → ℕ → ℕ → ℕ → Message
  heartbeat : ℕ → ℕ → ℕ → ℕ → Message
  timed_out : ℕ → ℕ → Message
  probed : ℕ → ℕ → Message

-- What the loop reads and never sets. The bounds are inclusive.
pub record Options : Type 0 where
  pub tracing : Bool
  pub mem_tracing : Bool
  pub tfrom : ℕ
  pub tto : ℕ
  pub tpcmin : ℕ
  pub tpcmax : ℕ
  pub mtpamin : ℕ
  pub mtpamax : ℕ

-- The variables of the loop, g_cycles, and what was written. `pending` is pending_va, pending_pa
-- and pending_wen.
pub record Sim (S : Type 0) : Type 0 where
  pub top : S
  pub cycles : ℕ
  pub done : Bool
  pub exit_code : ℕ
  pub prev_priv : ℕ
  pub traps_seen : ℕ
  pub pending_rsp : Bool
  pub pending : Access
  pub trace : List CommitLine
  pub bus_trace : List BusLine
  pub log : List Message

abbrev pub minus_one : ℕ
minus_one = 0xFFFFFFFF

-- low <= x && x <= high
abbrev pub within : ℕ → ℕ → ℕ → Bool
within low high x = leb low x && leb x high

-- `top->tap_priv_mode & 3`
abbrev pub priv_of : Outputs → ℕ
priv_of out = out.tap_priv_mode % 4

abbrev pub request_of : Outputs → Access
request_of out = record { va = out.tap_dm_req_va; pa = out.tap_dm_req_pa; wen = out.tap_dm_req_wen }

abbrev pub say : {S : Type 0} → Message → Sim S → Sim S
say m s = record s { log = s.log ++ m ∷ [] }

module _ {S : Type 0} where
  unfoldable pub tap_commit : Options → Outputs → Sim S → Sim S
  tap_commit o out s =
      if out.commit_valid
        && o.tracing
        && within o.tfrom o.tto s.cycles
        && within o.tpcmin o.tpcmax out.commit_pc
      then record s { trace = s.trace ++ commit s.cycles out ∷ [] }
      else s

  unfoldable pub tap_issue : Options → Outputs → Sim S → Sim S
  tap_issue o out s =
      if out.tap_dm_req_fire && within o.mtpamin o.mtpamax out.tap_dm_req_pa
      then record s {
        bus_trace = s.bus_trace ++ issue s.cycles out ∷ [];
        pending_rsp = true;
        pending = request_of out;
      }
      else s

  unfoldable pub tap_response : Options → Outputs → Sim S → Sim S
  tap_response o out s =
      if out.tap_dm_rsp_fire && s.pending_rsp && within o.mtpamin o.mtpamax s.pending.pa
      then record s {
        bus_trace = s.bus_trace ++ response s.cycles s.pending out ∷ [];
        pending_rsp = false;
      }
      else s

  -- An issue and a response of one cycle are a pair.
  unfoldable pub tap_bus : Options → Outputs → Sim S → Sim S
  unfolding tap_issue tap_response
  tap_bus o out s =
      if o.mem_tracing && within o.tfrom o.tto s.cycles
      then tap_response o out (tap_issue o out s)
      else s

  -- `if (top->exit_valid) { … }`
  unfoldable pub take_exit : Outputs → Sim S → Sim S
  take_exit out s =
      if out.exit_valid
      then say (mmio_exit out.exit_code s.cycles)
          (record s { exit_code = out.exit_code; done = true })
      else s

  unfoldable pub take_finish : Bool → Sim S → Sim S
  take_finish finish s = if finish then say (finished s.cycles) (record s { done = true }) else s

  -- The first 64 traps are printed, and every 65536th. There is at most one in a cycle, so
  -- `traps_seen` does not wrap.
  unfoldable pub count_trap : Outputs → Sim S → Sim S
  count_trap out s =
      let n = s.traps_seen + 1 in
      let s1 : Sim S = record s { traps_seen = n } in
      if out.commit_valid && out.commit_trap
      then (if leb n 64 || (n % 0x10000 == 0)
          then say (trap s.cycles out.commit_pc out.commit_cause (priv_of out)) s1
          else s1)
      else s

  unfoldable pub watch_priv : Outputs → Sim S → Sim S
  watch_priv out s =
      if priv_of out == s.prev_priv
      then s
      else say (priv_change s.prev_priv (priv_of out) s.cycles out.commit_pc)
          (record s { prev_priv = priv_of out })

  -- `if ((g_cycles & 0x3FFFFFF) == 0 && g_cycles != 0) { … }`
  unfoldable pub beat : Outputs → Sim S → Sim S
  beat out s =
      if (s.cycles % 0x4000000 == 0) && not (s.cycles == 0)
      then say (heartbeat s.cycles out.commit_pc (priv_of out) s.traps_seen) s
      else s

module _ (soc : Soc) where
  open soc use {State, eval, outputs, got_finish, ddr}

  -- From the rising edge to the exit register.
  unfoldable pub rising : Options → Sim State → Sim State
  unfolding tap_commit tap_bus take_exit
  rising o s =
      let t = eval true false s.top in
      let out = outputs t in take_exit out (tap_bus o out (tap_commit o out (record s { top = t })))

  -- From the falling edge on. g_cycles stays below the cap, so `g_cycles++` does not wrap.
  unfoldable pub falling : Sim State → Sim State
  unfolding take_finish count_trap watch_priv beat
  falling s =
      let t = eval false false s.top in
      let out = outputs t in
      let s1 : Sim State = record s { top = t; cycles = s.cycles + 1 } in
      beat out (watch_priv out (count_trap out (take_finish (got_finish t) s1)))

  -- The body of the loop.
  unfoldable pub cycle : Options → Sim State → Sim State
  unfolding rising falling
  cycle o s = falling (rising o s)

  -- `while (!done && g_cycles < timeout)`, on fuel.
  unfoldable pub run : ℕ → Options → ℕ → Sim State → Sim State
  run zero o timeout s = s
  run (suc fuel) o timeout s =
      let next = run fuel o timeout (cycle o s) in
      if not s.done && ltb s.cycles timeout then next else s

  unfoldable pub check_timeout : ℕ → Sim State → Sim State
  check_timeout timeout s =
      if not s.done && not (ltb s.cycles timeout)
      then say (timed_out s.cycles (outputs s.top).commit_pc) (record s { exit_code = 124 })
      else s

  abbrev pub probe : List ℕ
  probe =
      0x420bf000 ∷ 0x420bfc00 ∷ 0x420bfc04 ∷ 0x420bfc08 ∷ 0x420c0000 ∷ 0x420c0c00 ∷ 0x420c0c04
      ∷ 0x41982010 ∷ 0x41982014 ∷ 0x41982038 ∷ []

  abbrev pub probe_word : State → ℕ → Message
  probe_word t pa = probed pa (ddr_dpi_read (sub32 pa ddr_base / 4) (ddr t))

  unfoldable pub probe_ddr : Sim State → Sim State
  unfolding ddr_dpi_read
  probe_ddr s = record s { log = s.log ++ map (probe_word s.top) probe }

  -- The reset pulse: ten half cycles with `rst` set, each counted as a cycle, then `rst` cleared.
  unfoldable pub reset_edges : ℕ → Bool → State → State
  reset_edges zero clk t = t
  reset_edges (suc n) clk t = reset_edges n (not clk) (eval (not clk) true t)

  abbrev pub no_access : Access
  no_access = record { va = 0; pa = 0; wen = false }

  abbrev pub readback_of : State → Message
  readback_of t =
      readback (ddr_dpi_read 0 (ddr t)) (ddr_dpi_read 1 (ddr t)) (ddr_dpi_read 2 (ddr t))

  unfoldable pub reset : State → Sim State
  unfolding reset_edges ddr_dpi_read
  reset t = record {
    top = reset_edges 10 false t;
    cycles = 10;
    done = false;
    exit_code = minus_one;
    prev_priv = 3;
    traps_seen = 0;
    pending_rsp = false;
    pending = no_access;
    trace = [];
    bus_trace = [];
    log = readback_of (reset_edges 10 false t) ∷ [];
  }

  -- The whole run, whose exit code `main` returns. Each round counts a cycle, so `timeout` rounds
  -- are enough.
  unfoldable pub simulate : Options → ℕ → State → Sim State
  unfolding reset run check_timeout probe_ddr
  simulate o timeout t =
      let s = reset t in probe_ddr (check_timeout timeout (run (timeout - s.cycles) o timeout s))
