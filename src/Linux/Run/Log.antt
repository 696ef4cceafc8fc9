-- ===== src/Linux/Run/Log.antt =====
-- The messages on stderr during the run: the chain of the privilege modes and the number of the
-- traps that are printed.
use qinglong_core.Prelude.{
  ℕ, ◌+◌, ◌/◌, ◌%◌, ◌≡◌, refl, min, ◌==◌, if◌then◌else◌, not, ◌&&◌, Bool, true, false, List, [],
  ◌∷◌, ◌++◌, Option, none, some, arith,
}
use qinglong_core.Linux.Soc.{Soc, Outputs}
use qinglong_core.Linux.Run.{
  Message, readback, mmio_exit, finished, trap, priv_change, heartbeat, timed_out, probed, Sim,
  Options, tap_commit, tap_issue, tap_response, tap_bus, take_exit, take_finish, count_trap,
  watch_priv, beat, rising, falling, cycle,
}

-- A reader of the log that follows the privilege mode: each change must start from the mode at
-- hand and lead to another one.
abbrev pub follow : Message → ℕ → Option ℕ
follow (priv_change a b c pc) p = if (a == p) && not (b == p) then some b else none
follow (readback a b c) p = some p
follow (mmio_exit a b) p = some p
follow (finished a) p = some p
follow (trap a b c d) p = some p
follow (heartbeat a b c d) p = some p
follow (timed_out a b) p = some p
follow (probed a b) p = some p

abbrev pub follow_on : Message → Option ℕ → Option ℕ
follow_on m none = none
follow_on m (some p) = follow m p

-- From a mode on; `none` when the chain breaks.
unfoldable pub follow_all : List Message → Option ℕ → Option ℕ
follow_all [] p = p
follow_all (m ∷ ms) p = follow_all ms (follow_on m p)

abbrev pub is_trap : Message → ℕ
is_trap (trap a b c d) = 1
is_trap (readback a b c) = 0
is_trap (mmio_exit a b) = 0
is_trap (finished a) = 0
is_trap (priv_change a b c d) = 0
is_trap (heartbeat a b c d) = 0
is_trap (timed_out a b) = 0
is_trap (probed a b) = 0

unfoldable pub traps_in : List Message → ℕ
traps_in [] = 0
traps_in (m ∷ ms) = is_trap m + traps_in ms

pub follow_all-append :
    (ms ns : List Message) (p : Option ℕ)
    → follow_all (ms ++ ns) p ≡ follow_all ns (follow_all ms p)
unfolding follow_all
follow_all-append [] ns p = refl
follow_all-append (m ∷ ms) ns p = follow_all-append ms ns (follow_on m p)

pub traps_in-append : (ms ns : List Message) → traps_in (ms ++ ns) ≡ traps_in ms + traps_in ns
unfolding traps_in
traps_in-append [] ns = omega arith
traps_in-append (m ∷ ms) ns = omega (arith, traps_in-append ms ns)

pub follow_all-snoc :
    (ms : List Message) (m : Message) (p : Option ℕ)
    → follow_all (ms ++ m ∷ []) p ≡ follow_on m (follow_all ms p)
unfolding follow_all
follow_all-snoc ms m p = follow_all-append ms (m ∷ []) p

pub traps_in-snoc :
    (ms : List Message) (m : Message) → traps_in (ms ++ m ∷ []) ≡ traps_in ms + is_trap m
unfolding traps_in
traps_in-snoc ms m = omega (arith, traps_in-append ms (m ∷ []))

-- How many of `n` traps are printed: the first 64, and every 65536th.
abbrev pub printed : ℕ → ℕ
printed n = min n 64 + n / 0x10000

pub record LogOk {S : Type 0} (s : Sim S) : Type 0 where
  pub chained : follow_all s.log (some 3) ≡ some s.prev_priv
  pub counted : traps_in s.log ≡ printed s.traps_seen

module _ {S : Type 0} where
  tap_commit-LogOk :
      (o : Options) (out : Outputs) (s : Sim S) → LogOk s → LogOk (tap_commit o out s)
  unfolding tap_commit
  tap_commit-LogOk o out s h = ground arith

  tap_bus-LogOk : (o : Options) (out : Outputs) (s : Sim S) → LogOk s → LogOk (tap_bus o out s)
  unfolding tap_bus tap_issue tap_response
  tap_bus-LogOk o out s h = ground arith

  take_exit-LogOk : (out : Outputs) (s : Sim S) → LogOk s → LogOk (take_exit out s)
  unfolding take_exit
  take_exit-LogOk out s h =
      let m = mmio_exit out.exit_code s.cycles in
      ground (arith, h, follow_all-snoc s.log m (some 3), traps_in-snoc s.log m)

  take_finish-LogOk : (f : Bool) (s : Sim S) → LogOk s → LogOk (take_finish f s)
  unfolding take_finish
  take_finish-LogOk f s h =
      let m = finished s.cycles in
      ground (arith, h, follow_all-snoc s.log m (some 3), traps_in-snoc s.log m)

  count_trap-LogOk : (out : Outputs) (s : Sim S) → LogOk s → LogOk (count_trap out s)
  unfolding count_trap
  count_trap-LogOk out s h =
      let m = trap s.cycles out.commit_pc out.commit_cause (out.tap_priv_mode % 4) in
      ground (arith, h, follow_all-snoc s.log m (some 3), traps_in-snoc s.log m)

  watch_priv-LogOk : (out : Outputs) (s : Sim S) → LogOk s → LogOk (watch_priv out s)
  unfolding watch_priv
  watch_priv-LogOk out s h =
      let m = priv_change s.prev_priv (out.tap_priv_mode % 4) s.cycles out.commit_pc in
      ground (arith, h, follow_all-snoc s.log m (some 3), traps_in-snoc s.log m)

  beat-LogOk : (out : Outputs) (s : Sim S) → LogOk s → LogOk (beat out s)
  unfolding beat
  beat-LogOk out s h =
      let m = heartbeat s.cycles out.commit_pc (out.tap_priv_mode % 4) s.traps_seen in
      ground (arith, h, follow_all-snoc s.log m (some 3), traps_in-snoc s.log m)

module _ (soc : Soc) where
  open soc use {State, eval, outputs, got_finish}

  LogOk-cong :
      {s s' : Sim State}
      → LogOk s
      → s'.log ≡ s.log
      → s'.prev_priv ≡ s.prev_priv
      → s'.traps_seen ≡ s.traps_seen
      → LogOk s'
  LogOk-cong h l p t = record { chained = rw (l, p) h.chained; counted = rw (l, t) h.counted }

  rising-LogOk : (o : Options) (s : Sim State) → LogOk s → LogOk (rising soc o s)
  unfolding rising
  rising-LogOk o s h =
      let out = outputs (eval true false s.top) in
      take_exit-LogOk out _
        (tap_bus-LogOk o out _ (tap_commit-LogOk o out _ (LogOk-cong h refl refl refl)))

  falling-LogOk : (s : Sim State) → LogOk s → LogOk (falling soc s)
  unfolding falling
  falling-LogOk s h =
      let t = eval false false s.top in
      let out = outputs t in
      beat-LogOk out _ (
        watch_priv-LogOk out _ (
          count_trap-LogOk out _
            (take_finish-LogOk (got_finish t) _ (LogOk-cong h refl refl refl))))

  pub cycle-LogOk : (o : Options) (s : Sim State) → LogOk s → LogOk (cycle soc o s)
  unfolding cycle
  cycle-LogOk o s h = falling-LogOk (rising soc o s) (rising-LogOk o s h)
