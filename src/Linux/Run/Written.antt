-- ===== src/Linux/Run/Written.antt =====
-- What a whole run leaves in its memory trace and on stderr.
use qinglong_core.Prelude.{
  ℕ, zero, suc, ◌+◌, ◌-◌, ◌++◌, append-nil, ◌≡◌, refl, ltb, not, ◌&&◌, List, [], ◌∷◌, map, some,
  arith, ap, ◌∙◌, Bool-cases, inl, inr,
}
use qinglong_core.Linux.Soc.{Soc}
use qinglong_core.Linux.Run.{
  Sim, Options, Message, timed_out, cycle, run, check_timeout, probe_ddr, probe_word, probe, reset,
  simulate,
}
use qinglong_core.Linux.Run.Log.{
  LogOk, printed, follow_all, follow_all-snoc, traps_in, traps_in-snoc, cycle-LogOk,
  follow_all-append, traps_in-append,
}
use qinglong_core.Linux.Run.News.{news, news-snoc, news-append}
use qinglong_core.Linux.Run.Seen.{mode_at, traps_up_to, told_up_to, Tracks, cycle-Tracks}
use qinglong_core.Linux.Run.Bus.{BusOk, cycle-BusOk, read_all}

module _ (soc : Soc) (o : Options) where
  open soc use {State, outputs, ddr}

  -- What every cycle keeps, the loop keeps.
  run-keeps :
      (P : Sim State → Type 0)
      → ((s : Sim State) → P s → P (cycle soc o s))
      → (fuel timeout : ℕ) (s : Sim State) → P s
      → P (run soc fuel o timeout s)
  unfolding run
  run-keeps P keep zero timeout s h = h
  run-keeps P keep (suc fuel) timeout s h = elim (Bool-cases (not s.done && ltb s.cycles timeout)) [
    | inl e ↦ rw (e, run) (run-keeps P keep fuel timeout (cycle soc o s) (keep s h))
    | inr e ↦ rw (e, run) h
  ]

  check_timeout-BusOk :
      (timeout : ℕ) (s : Sim State) → BusOk o s → BusOk o (check_timeout soc timeout s)
  unfolding check_timeout
  check_timeout-BusOk timeout s h = elim (Bool-cases (not s.done && not (ltb s.cycles timeout))) [
    | inl e ↦ rw (e, check_timeout) (record { last = h.last; last_le = h.last_le; reads = h.reads })
    | inr e ↦ rw (e, check_timeout) h
  ]

  probe_ddr-BusOk : (s : Sim State) → BusOk o s → BusOk o (probe_ddr soc s)
  unfolding probe_ddr
  probe_ddr-BusOk s h = record { last = h.last; last_le = h.last_le; reads = h.reads }

  reset-BusOk : (t : State) → BusOk o (reset soc t)
  unfolding reset read_all
  reset-BusOk t = record { last = 0; last_le = omega arith; reads = refl }

  -- A reader gets through the memory trace of a run: every line lies in the window of cycles and
  -- addresses, the cycles do not decrease, every response repeats the addresses and the direction
  -- of the request directly before it, and the request that is left open is the one that the
  -- testbench has pending.
  pub simulate-BusOk : (timeout : ℕ) (t : State) → BusOk o (simulate soc o timeout t)
  unfolding simulate
  simulate-BusOk timeout t = probe_ddr-BusOk _ (
      check_timeout-BusOk timeout _
        (run-keeps (BusOk o) (cycle-BusOk soc o) _ timeout (reset soc t) (reset-BusOk t)))

  check_timeout-LogOk :
      (timeout : ℕ) (s : Sim State) → LogOk s → LogOk (check_timeout soc timeout s)
  unfolding check_timeout
  check_timeout-LogOk timeout s h =
      let m = timed_out s.cycles (outputs s.top).commit_pc in
      ground (arith, h, follow_all-snoc s.log m (some 3), traps_in-snoc s.log m)

  -- The lines of the probe are no traps and no changes of the mode.
  probes-follow_all :
      (t : State) (pas : List ℕ) (p : ℕ) → follow_all (map (probe_word soc t) pas) (some p) ≡ some p
  unfolding follow_all
  probes-follow_all t [] p = refl
  probes-follow_all t (pa ∷ pas) p = probes-follow_all t pas p

  probes-traps_in : (t : State) (pas : List ℕ) → traps_in (map (probe_word soc t) pas) ≡ 0
  unfolding traps_in
  probes-traps_in t [] = refl
  probes-traps_in t (pa ∷ pas) = omega (arith, probes-traps_in t pas)

  probe_ddr-LogOk : (s : Sim State) → LogOk s → LogOk (probe_ddr soc s)
  unfolding probe_ddr
  probe_ddr-LogOk s h = record {
    chained =
        follow_all-append s.log _ _
        ∙ ap (follow_all (map (probe_word soc s.top) (probe soc))) h.chained
        ∙ probes-follow_all s.top (probe soc) s.prev_priv;
    counted = omega (
      arith,
      h.counted,
      traps_in-append s.log (map (probe_word soc s.top) (probe soc)),
      probes-traps_in s.top (probe soc),
    );
  }

  reset-LogOk : (t : State) → LogOk (reset soc t)
  unfolding reset follow_all traps_in
  reset-LogOk t = record { chained = refl; counted = refl }

  -- The invariant of the loop: what the variables hold and what the log tells.
  record Knows (t : State) (s : Sim State) : Type 0 where
    cycle_count : ℕ
    tracks : Tracks soc t s cycle_count
    log_ok : LogOk s

  cycle-Knows : (t : State) (s : Sim State) → Knows t s → Knows t (cycle soc o s)
  cycle-Knows t s h = record {
    cycle_count = suc h.cycle_count;
    tracks = cycle-Tracks soc o t s h.cycle_count h.tracks;
    log_ok = cycle-LogOk soc o s h.log_ok;
  }

  check_timeout-Tracks :
      (timeout : ℕ) (t : State) (s : Sim State) (n : ℕ)
      → Tracks soc t s n
      → Tracks soc t (check_timeout soc timeout s) n
  unfolding check_timeout
  check_timeout-Tracks timeout t s n h =
      elim (Bool-cases (not s.done && not (ltb s.cycles timeout))) [
        | inl e ↦
            rw (e, check_timeout)
              (record {
                at_top = h.at_top;
                at_cycle = h.at_cycle;
                at_mode = h.at_mode;
                at_traps = h.at_traps;
                at_news =
                    news-snoc s.log (timed_out s.cycles (outputs s.top).commit_pc)
                    ∙ append-nil (news s.log)
                    ∙ h.at_news;
              })
        | inr e ↦ rw (e, check_timeout) h
      ]

  probes-news : (t : State) (pas : List ℕ) → news (map (probe_word soc t) pas) ≡ []
  unfolding news
  probes-news t [] = refl
  probes-news t (pa ∷ pas) = probes-news t pas

  probe_ddr-Tracks :
      (t : State) (s : Sim State) (n : ℕ) → Tracks soc t s n → Tracks soc t (probe_ddr soc s) n
  unfolding probe_ddr
  probe_ddr-Tracks t s n h = record {
    at_top = h.at_top;
    at_cycle = h.at_cycle;
    at_mode = h.at_mode;
    at_traps = h.at_traps;
    at_news =
        news-append s.log (map (probe_word soc s.top) (probe soc))
        ∙ ap (λ (x : List Message). news s.log ++ x) (probes-news s.top (probe soc))
        ∙ append-nil (news s.log)
        ∙ h.at_news;
  }

  reset-Tracks : (t : State) → Tracks soc (reset soc t).top (reset soc t) 0
  unfolding reset news
  reset-Tracks t = record {
    at_top = refl;
    at_cycle = refl;
    at_mode = refl;
    at_traps = refl;
    at_news = refl;
  }

  -- What the log of a run that starts on the state `t` tells, of `cycle_count` cycles.
  pub record Reports (t : State) (s : Sim State) : Type 0 where
    pub cycle_count : ℕ
    pub all_cycles : s.cycles ≡ 10 + cycle_count
    pub told : news s.log ≡ told_up_to soc t cycle_count
    pub counted : traps_in s.log ≡ printed (traps_up_to soc t cycle_count)
    pub chained : follow_all s.log (some 3) ≡ some (mode_at soc t cycle_count)

  Knows-Reports : (t : State) (s : Sim State) → Knows t s → Reports t s
  Knows-Reports t s h = record {
    cycle_count = h.cycle_count;
    all_cycles = h.tracks.at_cycle;
    told = h.tracks.at_news;
    counted = h.log_ok.counted ∙ ap printed h.tracks.at_traps;
    chained = h.log_ok.chained ∙ ap (λ (p : ℕ). some p) h.tracks.at_mode;
  }

  -- The messages on stderr about traps and privilege modes, against the outputs of the model after
  -- each of the cycles that the run counts behind the ten of the reset: they are, in the order of the
  -- cycles and with their cycle, pc, cause and mode, a line for each of the first 64 cycles that
  -- show a committed trap and for every 65536th such cycle, and a line for each cycle whose mode is
  -- not that of the cycle before it, M-mode before the first; no such line is missing and there is no
  -- other. If k cycles show a committed trap, min(k, 64) + k / 65536 trap lines are printed; and the
  -- changes lead from M-mode to the mode that the last cycle shows.
  pub simulate-Reports :
      (timeout : ℕ) (t : State) → Reports (reset soc t).top (simulate soc o timeout t)
  unfolding simulate
  simulate-Reports timeout t =
      let u = (reset soc t).top in
      let h =
        run-keeps (Knows u) (cycle-Knows u) (timeout - (reset soc t).cycles) timeout (reset soc t)
          (record { cycle_count = 0; tracks = reset-Tracks t; log_ok = reset-LogOk t }) in
      Knows-Reports u _ (record {
        cycle_count = h.cycle_count;
        tracks =
            probe_ddr-Tracks u _ h.cycle_count
              (check_timeout-Tracks timeout u _ h.cycle_count h.tracks);
        log_ok = probe_ddr-LogOk _ (check_timeout-LogOk timeout _ h.log_ok);
      })
