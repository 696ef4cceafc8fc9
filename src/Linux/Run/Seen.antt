-- ===== src/Linux/Run/Seen.antt =====
-- What the run reports on stderr about traps and privilege modes, against the outputs of the model
-- after every falling edge of the clock.
use qinglong_core.Prelude.{
  ℕ, zero, suc, ◌+◌, ◌≡◌, refl, if◌then◌else◌, true, false, List, [], ◌++◌, append_assoc, arith, ap,
  ◌∙◌,
}
use qinglong_core.Linux.Soc.{Soc}
use qinglong_core.Linux.Run.{
  Message, Sim, Options, priv_of, tap_commit, tap_bus, take_finish, count_trap, watch_priv, rising,
  falling, cycle,
}
use qinglong_core.Linux.Run.News.{
  news, traps_now, trap_line, mode_line, Silent, tap_commit-Silent, tap_bus-Silent,
  take_exit-Silent, take_finish-Silent, count_trap-Counts, watch_priv-Watches, beat-Silent,
}

module _ (soc : Soc) where
  open soc use {State, eval, outputs, got_finish}

  -- A cycle of the clock, and the state after the `n`-th one.
  abbrev pub clocked : State → State
  clocked t = eval false false (eval true false t)

  abbrev pub at : State → ℕ → State
  at t zero = t
  at t (suc n) = clocked (at t n)

  -- The mode that the model shows after the `n`-th cycle, and M-mode before the first.
  abbrev pub mode_at : State → ℕ → ℕ
  mode_at t zero = 3
  mode_at t (suc n) = priv_of (outputs (at t (suc n)))

  -- The number of the cycles up to the `n`-th after which the model shows a trap.
  abbrev pub traps_up_to : State → ℕ → ℕ
  traps_up_to t zero = 0
  traps_up_to t (suc n) = traps_up_to t n + (if traps_now (outputs (at t (suc n))) then 1 else 0)

  -- The lines about traps and modes for the first `n` cycles; the first one is number 11.
  abbrev pub told_up_to : State → ℕ → List Message
  told_up_to t zero = []
  told_up_to t (suc n) =
      told_up_to t n
      ++ (trap_line (traps_up_to t n) (outputs (at t (suc n))) (10 + n + 1)
          ++ mode_line (mode_at t n) (outputs (at t (suc n))) (10 + n + 1))

  -- The variables and the log after the `n`-th cycle from `t` on.
  pub record Tracks (t : State) (s : Sim State) (n : ℕ) : Type 0 where
    pub at_top : s.top ≡ at t n
    pub at_cycle : s.cycles ≡ 10 + n
    pub at_mode : s.prev_priv ≡ mode_at t n
    pub at_traps : s.traps_seen ≡ traps_up_to t n
    pub at_news : news s.log ≡ told_up_to t n

  record Turns (s s' : Sim State) : Type 0 where
    turned : s'.top ≡ clocked s.top
    counted : s'.cycles ≡ s.cycles + 1
    mode_now : s'.prev_priv ≡ priv_of (outputs (clocked s.top))
    traps_since :
        s'.traps_seen ≡ s.traps_seen + (if traps_now (outputs (clocked s.top)) then 1 else 0)
    told :
        news s'.log
        ≡ news s.log
          ++ (trap_line s.traps_seen (outputs (clocked s.top)) (s.cycles + 1)
              ++ mode_line s.prev_priv (outputs (clocked s.top)) (s.cycles + 1))

  rising-Silent :
      (o : Options) (s : Sim State)
      → Silent (record s { top = eval true false s.top }) (rising soc o s)
  unfolding rising
  rising-Silent o s =
      let out = outputs (eval true false s.top) in
      let s1 : Sim State = record s { top = eval true false s.top } in
      let a = tap_commit-Silent o out s1 in
      let b = tap_bus-Silent o out (tap_commit o out s1) in
      let c = take_exit-Silent out (tap_bus o out (tap_commit o out s1)) in
      record {
        same_top = c.same_top ∙ b.same_top ∙ a.same_top;
        same_cycles = c.same_cycles ∙ b.same_cycles ∙ a.same_cycles;
        same_mode = c.same_mode ∙ b.same_mode ∙ a.same_mode;
        same_traps = c.same_traps ∙ b.same_traps ∙ a.same_traps;
        same_news = c.same_news ∙ b.same_news ∙ a.same_news;
      }

  falling-Turns :
      (s s0 : Sim State)
      → Silent (record s0 { top = eval true false s0.top }) s
      → Turns s0 (falling soc s)
  unfolding falling
  falling-Turns s s0 h =
      let t = eval false false s.top in
      let out = outputs t in
      let s1 : Sim State = record s { top = t; cycles = s.cycles + 1 } in
      let s2 = take_finish (got_finish t) s1 in
      let s3 = count_trap out s2 in
      let f = take_finish-Silent (got_finish t) s1 in
      let c = count_trap-Counts out s2 in
      let w = watch_priv-Watches out s3 in
      let b = beat-Silent out (watch_priv out s3) in
      let top_is : t ≡ clocked s0.top = ap (eval false false) h.same_top in
      let told_out : news (falling soc s).log
          ≡ news s0.log
            ++ (trap_line s0.traps_seen out (s0.cycles + 1)
                ++ mode_line s0.prev_priv out (s0.cycles + 1)) =
        b.same_news
        ∙ w.tells_mode
        ∙ rw
            (
              c.tells_trap, c.same_mode, c.same_cycles, f.same_mode, f.same_cycles, f.same_news,
              f.same_traps, h.same_news, h.same_mode, h.same_cycles, h.same_traps,
            )
            (append_assoc (news s0.log) _ _) in
      record {
        turned = b.same_top ∙ w.same_top ∙ c.same_top ∙ f.same_top ∙ top_is;
        counted =
            b.same_cycles
            ∙ w.same_cycles
            ∙ c.same_cycles
            ∙ f.same_cycles
            ∙ ap (λ (n : ℕ). n + 1) h.same_cycles;
        mode_now = b.same_mode ∙ w.notes_mode ∙ ap (λ (u : State). priv_of (outputs u)) top_is;
        traps_since =
            b.same_traps
            ∙ w.same_traps
            ∙ c.counts_trap
            ∙ ap (λ (k : ℕ). k + (if traps_now out then 1 else 0)) (f.same_traps ∙ h.same_traps)
            ∙ ap (λ (u : State). s0.traps_seen + (if traps_now (outputs u) then 1 else 0)) top_is;
        told =
            told_out
            ∙ ap
                (λ (u : State).
                  news s0.log
                  ++ (trap_line s0.traps_seen (outputs u) (s0.cycles + 1)
                      ++ mode_line s0.prev_priv (outputs u) (s0.cycles + 1)))
                top_is;
      }

  pub cycle-Tracks :
      (o : Options) (t : State) (s : Sim State) (n : ℕ)
      → Tracks t s n
      → Tracks t (cycle soc o s) (suc n)
  unfolding cycle
  cycle-Tracks o t s n h =
      let r = falling-Turns (rising soc o s) s (rising-Silent o s) in
      record {
        at_top = r.turned ∙ ap clocked h.at_top;
        at_cycle = omega (arith, r.counted, h.at_cycle);
        at_mode = r.mode_now ∙ ap (λ (u : State). priv_of (outputs (clocked u))) h.at_top;
        at_traps = r.traps_since ∙ rw (h.at_traps, h.at_top) refl;
        at_news = r.told ∙ rw (h.at_news, h.at_traps, h.at_mode, h.at_cycle, h.at_top) refl;
      }
