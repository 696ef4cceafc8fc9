-- ===== src/Linux/Run/Ending.antt =====
-- When and how a run of sim_linux.cpp ends.
use qinglong_core.Prelude.{
  ℕ, zero, suc, ◌+◌, ◌-◌, ◌≤◌, ◌<◌, ◌≡◌, refl, if◌then◌else◌, Bool, true, false, ◌||◌, inl, inr,
  arith, ◌∙◌, Bool-cases, le_or_lt, ap, sym, lt→ltb, le→not-ltb,
}
use mathlib.Core.Path.{subst}
use qinglong_core.Linux.Soc.{Soc, Outputs}
use qinglong_core.Linux.Run.{
  Sim, Options, tap_commit, tap_issue, tap_response, tap_bus, take_exit, take_finish, count_trap,
  watch_priv, beat, rising, falling, cycle, run, check_timeout, probe_ddr, reset, simulate,
}

-- A step that leaves the model, the clock and the end of the run alone.
record Same {S : Type 0} (s s' : Sim S) : Type 0 where
  same_top : s'.top ≡ s.top
  same_cycles : s'.cycles ≡ s.cycles
  same_done : s'.done ≡ s.done
  same_code : s'.exit_code ≡ s.exit_code

module _ {S : Type 0} where
  tap_commit-Same : (o : Options) (out : Outputs) (s : Sim S) → Same s (tap_commit o out s)
  unfolding tap_commit
  tap_commit-Same o out s = ground arith

  tap_bus-Same : (o : Options) (out : Outputs) (s : Sim S) → Same s (tap_bus o out s)
  unfolding tap_bus tap_issue tap_response
  tap_bus-Same o out s = ground arith

  count_trap-Same : (out : Outputs) (s : Sim S) → Same s (count_trap out s)
  unfolding count_trap
  count_trap-Same out s = ground arith

  watch_priv-Same : (out : Outputs) (s : Sim S) → Same s (watch_priv out s)
  unfolding watch_priv
  watch_priv-Same out s = ground arith

  beat-Same : (out : Outputs) (s : Sim S) → Same s (beat out s)
  unfolding beat
  beat-Same out s = ground arith

module _ (soc : Soc) where
  open soc use {State, eval, outputs, got_finish}

  abbrev pub rise : State → State
  rise t = eval true false t

  abbrev pub fall : State → State
  fall t = eval false false (rise t)

  -- The state after `n` cycles.
  abbrev pub after : ℕ → State → State
  after zero t = t
  after (suc n) t = after n (fall t)

  -- A cycle from `t` ends the run: by the exit register, or by `$finish`.
  abbrev pub ends : State → Bool
  ends t = (outputs (rise t)).exit_valid || got_finish (fall t)

  abbrev pub code_after : State → ℕ → ℕ
  code_after t c = if (outputs (rise t)).exit_valid then (outputs (rise t)).exit_code else c

  -- No cycle from `t` up to the `n`-th ends the run.
  abbrev pub Quiet : ℕ → State → Type 0
  Quiet zero t = Unit
  Quiet (suc n) t = (ends t ≡ false) × Quiet n (fall t)

  record Rises (s s' : Sim State) : Type 0 where
    rises_top : s'.top ≡ rise s.top
    same_cycles : s'.cycles ≡ s.cycles
    done_as : s'.done ≡ (outputs (rise s.top)).exit_valid || s.done
    code_as : s'.exit_code ≡ code_after s.top s.exit_code

  rising-Rises : (o : Options) (s : Sim State) → Rises s (rising soc o s)
  unfolding rising take_exit
  rising-Rises o s =
      let out = outputs (rise s.top) in
      let s1 : Sim State = record s { top = rise s.top } in
      let p = tap_commit-Same o out s1 in
      let q = tap_bus-Same o out (tap_commit o out s1) in ground (arith, p, q)

  record Falls (s s' : Sim State) : Type 0 where
    falls_top : s'.top ≡ eval false false s.top
    counts : s'.cycles ≡ s.cycles + 1
    done_as : s'.done ≡ s.done || got_finish (eval false false s.top)
    same_code : s'.exit_code ≡ s.exit_code

  falling-Falls : (s : Sim State) → Falls s (falling soc s)
  unfolding falling take_finish
  falling-Falls s =
      let t = eval false false s.top in
      let out = outputs t in
      let s1 : Sim State = record s { top = t; cycles = s.cycles + 1 } in
      let s2 = take_finish (got_finish t) s1 in
      let p = count_trap-Same out s2 in
      let q = watch_priv-Same out (count_trap out s2) in
      let r = beat-Same out (watch_priv out (count_trap out s2)) in ground (arith, p, q, r)

  record Cycles (s s' : Sim State) : Type 0 where
    falls_top : s'.top ≡ fall s.top
    counts : s'.cycles ≡ s.cycles + 1
    ends_as : s'.done ≡ ends s.top
    code_as : s'.exit_code ≡ code_after s.top s.exit_code

  cycle-Cycles : (o : Options) (s : Sim State) → s.done ≡ false → Cycles s (cycle soc o s)
  unfolding cycle
  cycle-Cycles o s h =
      let p = rising-Rises o s in let q = falling-Falls (rising soc o s) in ground (arith, p, q)

  -- How a run ends that starts at `s`: by its first ending cycle `n`, or at the cap.
  pub record EndsAt (n code : ℕ) (s s' : Sim State) : Type 0 where
    pub final_top : s'.top ≡ after n s.top
    pub final_cycles : s'.cycles ≡ s.cycles + n
    pub final_code : s'.exit_code ≡ code

  pub data Endings (timeout : ℕ) (s s' : Sim State) : Type 0 where
    by_cycle :
        (n : ℕ)
        → s.cycles + n < timeout
        → Quiet n s.top
        → ends (after n s.top) ≡ true
        → EndsAt (suc n) (code_after (after n s.top) s.exit_code) s s'
        → Endings timeout s s'
    at_cap :
        (n : ℕ) → s.cycles + n ≡ timeout → Quiet n s.top → EndsAt n 124 s s' → Endings timeout s s'
    late : timeout < s.cycles → EndsAt 0 124 s s' → Endings timeout s s'

  -- The loop and the tests behind it, from any state.
  abbrev finish : ℕ → Options → ℕ → Sim State → Sim State
  finish fuel o timeout s = probe_ddr soc (check_timeout soc timeout (run soc fuel o timeout s))

  record Done (s s' : Sim State) : Type 0 where
    same_top : s'.top ≡ s.top
    same_cycles : s'.cycles ≡ s.cycles
    same_code : s'.exit_code ≡ s.exit_code

  finish_done :
      (fuel : ℕ) (o : Options) (timeout : ℕ) (s : Sim State)
      → s.done ≡ true
      → Done s (finish fuel o timeout s)
  unfolding probe_ddr check_timeout run
  finish_done zero o timeout s d = ground arith
  finish_done (suc fuel) o timeout s d = ground arith

  finish_cap :
      (fuel : ℕ) (o : Options) (timeout : ℕ) (s : Sim State)
      → s.done ≡ false
      → timeout ≤ s.cycles
      → EndsAt 0 124 s (finish fuel o timeout s)
  unfolding probe_ddr check_timeout run
  finish_cap zero o timeout s d h = let e = le→not-ltb s.cycles timeout h in ground arith
  finish_cap (suc fuel) o timeout s d h = let e = le→not-ltb s.cycles timeout h in ground arith

  run-suc :
      (fuel : ℕ) (o : Options) (timeout : ℕ) (s : Sim State)
      → s.done ≡ false
      → s.cycles < timeout
      → run soc (suc fuel) o timeout s ≡ run soc fuel o timeout (cycle soc o s)
  unfolding run
  run-suc fuel o timeout s d h = rw (d, lt→ltb s.cycles timeout h)

  quiet_code : (t : State) (c : ℕ) → ends t ≡ false → code_after t c ≡ c
  quiet_code t c h = ground arith

  -- One cycle that does not end the run, before the others.
  Endings-suc :
      (timeout : ℕ) (s s1 s' : Sim State)
      → s.cycles < timeout
      → ends s.top ≡ false
      → Cycles s s1
      → Endings timeout s1 s'
      → Endings timeout s s'
  Endings-suc timeout s s1 s' h e c (by_cycle n l q f r) =
      by_cycle (suc n) (omega (arith, c.counts)) (e, rw (← c.falls_top) q) (rw (← c.falls_top) f)
        (record {
          final_top = rw (← c.falls_top) r.final_top;
          final_cycles = omega (arith, c.counts, r.final_cycles);
          final_code =
              r.final_code
              ∙ ap (code_after (after n s1.top)) (c.code_as ∙ quiet_code s.top s.exit_code e)
              ∙ ap (λ (t : State). code_after (after n t) s.exit_code) c.falls_top;
        })
  Endings-suc timeout s s1 s' h e c (at_cap n l q r) =
      at_cap (suc n) (omega (arith, c.counts)) (e, rw (← c.falls_top) q)
        (record {
          final_top = rw (← c.falls_top) r.final_top;
          final_cycles = omega (arith, c.counts, r.final_cycles);
          final_code = r.final_code;
        })
  Endings-suc timeout s s1 s' h e c (late l r) = absurd (omega (arith, c.counts))

  -- One cycle that ends it.
  finish_one :
      (fuel : ℕ) (o : Options) (timeout : ℕ) (s : Sim State)
      → s.done ≡ false
      → ends s.top ≡ true
      → EndsAt 1 (code_after s.top s.exit_code) s (finish fuel o timeout (cycle soc o s))
  finish_one fuel o timeout s d e =
      let c = cycle-Cycles o s d in
      let r = finish_done fuel o timeout (cycle soc o s) (c.ends_as ∙ e) in
      record {
        final_top = r.same_top ∙ c.falls_top;
        final_cycles = r.same_cycles ∙ c.counts;
        final_code = r.same_code ∙ c.code_as;
      }

  finish_more :
      (fuel : ℕ) (o : Options) (timeout : ℕ) (s : Sim State)
      → s.done ≡ false
      → s.cycles < timeout
      → (ends s.top ≡ false
          → Endings timeout (cycle soc o s) (finish fuel o timeout (cycle soc o s)))
      → Endings timeout s (finish fuel o timeout (cycle soc o s))
  finish_more fuel o timeout s d h rest = elim (Bool-cases (ends s.top)) [
    | inl e ↦ by_cycle 0 (omega arith) tt e (finish_one fuel o timeout s d e)
    | inr e ↦ Endings-suc timeout s (cycle soc o s) _ h e (cycle-Cycles o s d) (rest e)
  ]

  finish-suc :
      (fuel : ℕ) (o : Options) (timeout : ℕ) (s : Sim State)
      → s.done ≡ false
      → s.cycles < timeout
      → Endings timeout s (finish fuel o timeout (cycle soc o s))
      → Endings timeout s (finish (suc fuel) o timeout s)
  finish-suc fuel o timeout s d h r =
      subst (λ (s' : Sim State). Endings timeout s (probe_ddr soc (check_timeout soc timeout s')))
        (sym (run-suc fuel o timeout s d h)) r

  finish-Endings :
      (fuel : ℕ) (o : Options) (timeout : ℕ) (s : Sim State)
      → s.done ≡ false
      → s.cycles ≤ timeout
      → timeout ≤ s.cycles + fuel
      → Endings timeout s (finish fuel o timeout s)
  finish-Endings zero o timeout s d l f =
      at_cap 0 (omega arith) tt (finish_cap zero o timeout s d (omega arith))
  finish-Endings (suc fuel) o timeout s d l f = elim (le_or_lt timeout s.cycles) [
    | inl h ↦ at_cap 0 (omega arith) tt (finish_cap (suc fuel) o timeout s d h)
    | inr h ↦
        let c = cycle-Cycles o s d in
        finish-suc fuel o timeout s d h (
          finish_more fuel o timeout s d h λ e.
            finish-Endings fuel o timeout (cycle soc o s) (c.ends_as ∙ e) (omega (arith, c.counts))
              (omega (arith, c.counts)))
  ]

  -- Every run of the Linux testbench returns: by its first cycle that ends it, with the code of the
  -- exit register or, for `$finish` alone, -1; at the cap, with 124; or at once, with 124, if the
  -- reset alone took more cycles than the cap. The fuel is enough, and the status is this code.
  pub simulate-Endings :
      (o : Options) (timeout : ℕ) (t : State)
      → Endings timeout (reset soc t) (simulate soc o timeout t)
  unfolding simulate reset
  simulate-Endings o timeout t = elim (le_or_lt 10 timeout) [
    | inl h ↦ finish-Endings (timeout - 10) o timeout (reset soc t) refl h (omega arith)
    | inr h ↦ late h (finish_cap (timeout - 10) o timeout (reset soc t) refl (omega arith))
  ]
