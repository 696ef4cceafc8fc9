-- ===== src/Linux/Run/News.antt =====
-- The messages about traps and privilege modes, and what each step of a cycle adds to them.
use qinglong_core.Prelude.{
  ℕ, ◌+◌, ◌%◌, ◌≡◌, refl, ◌==◌, if◌then◌else◌, leb, ◌&&◌, ◌||◌, Bool, List, [], ◌∷◌, ◌++◌,
  append_assoc, append-nil, arith, ap, ◌∙◌, sym,
}
use qinglong_core.Linux.Soc.{Outputs}
use qinglong_core.Linux.Run.{
  Message, readback, mmio_exit, finished, trap, priv_change, heartbeat, timed_out, probed, Sim,
  Options, priv_of, tap_commit, tap_issue, tap_response, tap_bus, take_exit, take_finish,
  count_trap, watch_priv, beat,
}

-- A message that is about a trap or the mode.
abbrev pub news_of : Message → List Message
news_of (trap a b c d) = trap a b c d ∷ []
news_of (priv_change a b c d) = priv_change a b c d ∷ []
news_of (readback a b c) = []
news_of (mmio_exit a b) = []
news_of (finished a) = []
news_of (heartbeat a b c d) = []
news_of (timed_out a b) = []
news_of (probed a b) = []

unfoldable pub news : List Message → List Message
news [] = []
news (m ∷ ms) = news_of m ++ news ms

pub news-append : (ms ns : List Message) → news (ms ++ ns) ≡ news ms ++ news ns
unfolding news
news-append [] ns = refl
news-append (m ∷ ms) ns =
    ap (λ (x : List Message). news_of m ++ x) (news-append ms ns)
    ∙ sym (append_assoc (news_of m) (news ms) (news ns))

pub news-snoc : (ms : List Message) (m : Message) → news (ms ++ m ∷ []) ≡ news ms ++ news_of m
unfolding news
news-snoc ms m =
    news-append ms (m ∷ []) ∙ ap (λ (x : List Message). news ms ++ x) (append-nil (news_of m))

-- An instruction retires into a trap.
abbrev pub traps_now : Outputs → Bool
traps_now out = out.commit_valid && out.commit_trap

-- The line for a trap behind `k` others: the first 64 have one, and every 65536th.
abbrev pub trap_line : ℕ → Outputs → ℕ → List Message
trap_line k out at =
    if traps_now out && (leb (k + 1) 64 || ((k + 1) % 0x10000 == 0))
    then trap at out.commit_pc out.commit_cause (priv_of out) ∷ []
    else []

abbrev pub mode_line : ℕ → Outputs → ℕ → List Message
mode_line p out at =
    if priv_of out == p then [] else priv_change p (priv_of out) at out.commit_pc ∷ []

-- A step that tells nothing about traps or modes and notes none.
pub record Silent {S : Type 0} (s s' : Sim S) : Type 0 where
  pub same_top : s'.top ≡ s.top
  pub same_cycles : s'.cycles ≡ s.cycles
  pub same_mode : s'.prev_priv ≡ s.prev_priv
  pub same_traps : s'.traps_seen ≡ s.traps_seen
  pub same_news : news s'.log ≡ news s.log

pub record Counts {S : Type 0} (out : Outputs) (s s' : Sim S) : Type 0 where
  pub same_top : s'.top ≡ s.top
  pub same_cycles : s'.cycles ≡ s.cycles
  pub same_mode : s'.prev_priv ≡ s.prev_priv
  pub counts_trap : s'.traps_seen ≡ s.traps_seen + (if traps_now out then 1 else 0)
  pub tells_trap : news s'.log ≡ news s.log ++ trap_line s.traps_seen out s.cycles

pub record Watches {S : Type 0} (out : Outputs) (s s' : Sim S) : Type 0 where
  pub same_top : s'.top ≡ s.top
  pub same_cycles : s'.cycles ≡ s.cycles
  pub notes_mode : s'.prev_priv ≡ priv_of out
  pub same_traps : s'.traps_seen ≡ s.traps_seen
  pub tells_mode : news s'.log ≡ news s.log ++ mode_line s.prev_priv out s.cycles

module _ {S : Type 0} where
  pub tap_commit-Silent : (o : Options) (out : Outputs) (s : Sim S) → Silent s (tap_commit o out s)
  unfolding tap_commit
  tap_commit-Silent o out s = ground arith

  pub tap_bus-Silent : (o : Options) (out : Outputs) (s : Sim S) → Silent s (tap_bus o out s)
  unfolding tap_bus tap_issue tap_response
  tap_bus-Silent o out s = ground arith

  pub take_exit-Silent : (out : Outputs) (s : Sim S) → Silent s (take_exit out s)
  unfolding take_exit
  take_exit-Silent out s =
      let m = mmio_exit out.exit_code s.cycles in
      ground (arith, news-snoc s.log m, append-nil (news s.log))

  pub take_finish-Silent : (f : Bool) (s : Sim S) → Silent s (take_finish f s)
  unfolding take_finish
  take_finish-Silent f s =
      let m = finished s.cycles in ground (arith, news-snoc s.log m, append-nil (news s.log))

  pub beat-Silent : (out : Outputs) (s : Sim S) → Silent s (beat out s)
  unfolding beat
  beat-Silent out s =
      let m = heartbeat s.cycles out.commit_pc (priv_of out) s.traps_seen in
      ground (arith, news-snoc s.log m, append-nil (news s.log))

  pub count_trap-Counts : (out : Outputs) (s : Sim S) → Counts out s (count_trap out s)
  unfolding count_trap
  count_trap-Counts out s =
      let m = trap s.cycles out.commit_pc out.commit_cause (priv_of out) in
      ground (arith, news-snoc s.log m, append-nil (news s.log))

  pub watch_priv-Watches : (out : Outputs) (s : Sim S) → Watches out s (watch_priv out s)
  unfolding watch_priv
  watch_priv-Watches out s =
      let m = priv_change s.prev_priv (priv_of out) s.cycles out.commit_pc in
      ground (arith, news-snoc s.log m, append-nil (news s.log))
