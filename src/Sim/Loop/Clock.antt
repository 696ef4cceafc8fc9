-- ===== src/Sim/Loop/Clock.antt =====
-- The clock seen without the loop: the state after each cycle, what a cycle shows, and whether and
-- how it ends the run. One lemma ties the body of the loop to it.
use qinglong_core.Prelude.{
  ℕ, zero, suc, ◌+◌, ◌≡◌, ◌==◌, if◌then◌else◌, Bool, true, false, ◌&&◌, ◌||◌, Bytes, [], ◌∷◌, ◌++◌,
  Option, none, some, arith, append-nil, Bool-cases, inl, inr,
}
use qinglong_core.Dpi.{sram_dpi_read}
use qinglong_core.Sim.Soc.{Soc, Outputs}
use qinglong_core.Sim.Text.{commit_line}
use qinglong_core.Sim.Loop.{
  Sim, Options, Message, mmio_exit, say, sample, take_exit, take_tohost, poll_tohost, take_finish,
  cycle,
}

module _ (soc : Soc) where
  open soc use {State, eval, outputs, got_finish, sram}

  abbrev pub rise : State → State
  rise t = eval true false t

  abbrev pub fall : State → State
  fall t = eval false false (rise t)

  -- The state after `n` cycles.
  abbrev pub after : ℕ → State → State
  after zero t = t
  after (suc n) t = after n (fall t)

  -- What `tohost` says: 1 is a pass, 0 nothing.
  unfoldable pub tohost_verdict : Options → State → Option ℕ
  tohost_verdict o t =
      let val = sram_dpi_read o.tohost_widx (sram t) in
      if o.tohost_addr == 0
      then none
      else if val == 0
      then none
      else if val == 1
      then some 0
      else some 1

  -- The exit code that a cycle from `t` sets: the MMIO register comes first, then `tohost`, which
  -- is read after the falling edge.
  unfoldable pub verdict : Options → State → Option ℕ
  unfolding tohost_verdict
  verdict o t =
      if (outputs (rise t)).exit_valid
      then some (outputs (rise t)).exit_code
      else tohost_verdict o (fall t)

  abbrev pub is_set : Option ℕ → Bool
  is_set none = false
  is_set (some c) = true

  abbrev pub code_or : Option ℕ → ℕ → ℕ
  code_or none c = c
  code_or (some d) c = d

  unfoldable pub ends : Options → State → Bool
  unfolding verdict
  ends o t = is_set (verdict o t) || got_finish (fall t)

  unfoldable pub trace_of : Options → State → Bytes
  unfolding commit_line
  trace_of o t =
      let out = outputs (rise t) in if out.commit_valid && o.tracing then commit_line out else []

  unfoldable pub console_of : State → Bytes
  console_of t =
      let out = outputs (rise t) in if out.console_valid then out.console_byte ∷ [] else []

  -- What the first `n` cycles show.
  unfoldable pub traces : Options → ℕ → State → Bytes
  unfolding trace_of
  traces o zero t = []
  traces o (suc n) t = trace_of o t ++ traces o n (fall t)

  unfoldable pub consoles : ℕ → State → Bytes
  unfolding console_of
  consoles zero t = []
  consoles (suc n) t = console_of t ++ consoles n (fall t)

  -- The body of the loop, while the run has not ended.
  pub record Cycles (o : Options) (s s' : Sim State) : Type 0 where
    pub top_falls : s'.top ≡ fall s.top
    pub counts : s'.cycles ≡ s.cycles + 1
    pub ends_as : s'.done ≡ ends o s.top
    pub code_as : s'.exit_code ≡ code_or (verdict o s.top) s.exit_code
    pub traced : s'.trace ≡ s.trace ++ trace_of o s.top
    pub shown : s'.console ≡ s.console ++ console_of s.top

  record Same (s s' : Sim State) : Type 0 where
    same_top : s'.top ≡ s.top
    same_cycles : s'.cycles ≡ s.cycles
    same_trace : s'.trace ≡ s.trace
    same_console : s'.console ≡ s.console

  say-Same : (o : Options) (m : Message) (s : Sim State) → Same s (say soc o m s)
  unfolding say
  say-Same o m s = ground arith

  say-done : (o : Options) (m : Message) (s : Sim State) → (say soc o m s).done ≡ s.done
  unfolding say
  say-done o m s = ground arith

  say-exit_code :
      (o : Options) (m : Message) (s : Sim State) → (say soc o m s).exit_code ≡ s.exit_code
  unfolding say
  say-exit_code o m s = ground arith

  record Samples (o : Options) (out : Outputs) (s s' : Sim State) : Type 0 where
    same_top : s'.top ≡ s.top
    same_cycles : s'.cycles ≡ s.cycles
    same_done : s'.done ≡ s.done
    same_code : s'.exit_code ≡ s.exit_code
    adds_line :
        s'.trace ≡ s.trace ++ (if out.commit_valid && o.tracing then commit_line out else [])
    adds_byte : s'.console ≡ s.console ++ (if out.console_valid then out.console_byte ∷ [] else [])

  sample-Samples : (o : Options) (s : Sim State) → Samples o (outputs s.top) s (sample soc o s)
  unfolding sample
  sample-Samples o s = ground (arith, append-nil s.trace, append-nil s.console)

  record Exits (out : Outputs) (s s' : Sim State) : Type 0 where
    same : Same s s'
    done_as : s'.done ≡ out.exit_valid || s.done
    code_as : s'.exit_code ≡ (if out.exit_valid then out.exit_code else s.exit_code)

  take_exit-Exits : (o : Options) (s : Sim State) → Exits (outputs s.top) s (take_exit soc o s)
  unfolding take_exit
  take_exit-Exits o s =
      let out = outputs s.top in
      let m = mmio_exit out.exit_code s.cycles in
      let t : Sim State = record s { exit_code = out.exit_code; done = true } in
      ground (arith, say-Same o m t, say-done o m t, say-exit_code o m t)

  record Polls (s s' : Sim State) (v : Option ℕ) : Type 0 where
    same : Same s s'
    done_as : s'.done ≡ is_set v
    code_as : s'.exit_code ≡ code_or v s.exit_code

  poll_tohost-Polls :
      (o : Options) (s : Sim State)
      → s.done ≡ false
      → Polls s (poll_tohost soc o s) (tohost_verdict o s.top)
  unfolding poll_tohost take_tohost tohost_verdict say
  poll_tohost-Polls o s h = ground arith

  poll_tohost_done : (o : Options) (s : Sim State) → s.done ≡ true → poll_tohost soc o s ≡ s
  unfolding poll_tohost
  poll_tohost_done o s h = rw h

  record Finishes (s s' : Sim State) : Type 0 where
    same : Same s s'
    done_as : s'.done ≡ s.done || got_finish s.top
    code_as : s'.exit_code ≡ s.exit_code

  take_finish-Finishes : (o : Options) (s : Sim State) → Finishes s (take_finish soc o s)
  unfolding take_finish say
  take_finish-Finishes o s = ground arith

  -- The state after the rising edge and its samples.
  abbrev risen : Options → Sim State → Sim State
  risen o s = take_exit soc o (sample soc o (record s { top = rise s.top }))

  abbrev fallen : Sim State → Sim State
  fallen s = record s { top = eval false false s.top }

  record Rises (o : Options) (s s' : Sim State) : Type 0 where
    rises_top : s'.top ≡ rise s.top
    same_cycles : s'.cycles ≡ s.cycles
    done_as : s'.done ≡ (outputs (rise s.top)).exit_valid
    code_as : s'.exit_code ≡ (
        if (outputs (rise s.top)).exit_valid then (outputs (rise s.top)).exit_code else s.exit_code)
    traced : s'.trace ≡ s.trace ++ trace_of o s.top
    shown : s'.console ≡ s.console ++ console_of s.top

  risen-Rises : (o : Options) (s : Sim State) → s.done ≡ false → Rises o s (risen o s)
  unfolding trace_of console_of
  risen-Rises o s h =
      let a : Sim State = record s { top = rise s.top } in
      let p = sample-Samples o a in
      let q = take_exit-Exits o (sample soc o a) in ground (arith, p, q)

  pub cycle-Cycles : (o : Options) (s : Sim State) → s.done ≡ false → Cycles o s (cycle soc o s)
  unfolding cycle ends verdict
  cycle-Cycles o s h =
      let r = risen-Rises o s h in
      let c = fallen (risen o s) in
      let d = poll_tohost soc o c in
      let f = take_finish-Finishes o (record d { cycles = d.cycles + 1 }) in
      elim (Bool-cases (outputs (rise s.top)).exit_valid) [
        | inl e ↦ ground (arith, e, r, poll_tohost_done o c, f)
        | inr e ↦ ground (arith, e, r, poll_tohost-Polls o c, f)
      ]

  -- A cycle that does not end the run sets no exit code.
  pub quiet_code :
      (o : Options) (t : State) (c : ℕ) → ends o t ≡ false → code_or (verdict o t) c ≡ c
  unfolding ends
  quiet_code o t c h = ground arith
