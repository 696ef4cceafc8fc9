-- ===== src/Linux/Run/Bus.antt =====
-- The memory trace of the run as a reader of the file sees it: responses and requests in pairs.
use qinglong_core.Prelude.{
  ℕ, ◌+◌, ◌≤◌, ◌≡◌, refl, leb, ◌==◌, if◌then◌else◌, Bool, true, false, not, ◌&&◌, List, [], ◌∷◌,
  ◌++◌, Option, none, some, arith, ap, ◌∙◌, Bool-cases, inl, inr,
}
use qinglong_core.Linux.Soc.{Soc, Outputs}
use qinglong_core.Linux.Run.{
  Access, BusLine, issue, response, request_of, within, Sim, Options, tap_commit, tap_issue,
  tap_response, tap_bus, take_exit, take_finish, count_trap, watch_priv, beat, rising, falling,
  cycle,
}

-- What a reader keeps: the request that waits for its response, and the cycle of the last line.
pub record Reader : Type 0 where
  pub open_request : Option Access
  pub last : ℕ

abbrev pub same_access : Access → Access → Bool
same_access a b = (a.va == b.va) && (a.pa == b.pa) && (if a.wen then b.wen else not b.wen)

-- A line in the window, not before the last one.
abbrev pub in_window : Options → ℕ → ℕ → ℕ → Bool
in_window o last c pa = leb last c && within o.tfrom o.tto c && within o.mtpamin o.mtpamax pa

abbrev pub answers : Option Access → Access → Bool
answers none a = false
answers (some b) a = same_access a b

-- A request may follow a request; a response must repeat the request that waits.
abbrev pub read_line : Options → BusLine → Reader → Option Reader
read_line o (issue c out) r =
    if in_window o r.last c out.tap_dm_req_pa
    then some (record { open_request = some (request_of out); last = c })
    else none
read_line o (response c a out) r =
    if in_window o r.last c a.pa && answers r.open_request a
    then some (record { open_request = none; last = c })
    else none

abbrev pub read_on : Options → BusLine → Option Reader → Option Reader
read_on o l none = none
read_on o l (some r) = read_line o l r

unfoldable pub read_all : Options → List BusLine → Option Reader → Option Reader
read_all o [] r = r
read_all o (l ∷ ls) r = read_all o ls (read_on o l r)

read_all-snoc :
    (o : Options) (ls : List BusLine) (l : BusLine) (r : Option Reader)
    → read_all o (ls ++ l ∷ []) r ≡ read_on o l (read_all o ls r)
unfolding read_all
read_all-snoc o [] l r = refl
read_all-snoc o (k ∷ ls) l r = read_all-snoc o ls l (read_on o k r)

abbrev pub first_reader : Reader
first_reader = record { open_request = none; last = 0 }

abbrev pub waiting : Bool → Access → Option Access
waiting false a = none
waiting true a = some a

-- The reader gets through the trace, and is left with what the testbench has pending.
pub record BusOk {S : Type 0} (o : Options) (s : Sim S) : Type 0 where
  pub last : ℕ
  pub last_le : last ≤ s.cycles
  pub reads :
      read_all o s.bus_trace (some first_reader)
      ≡ some (record { open_request = waiting s.pending_rsp s.pending; last = last })

&&-left : (a b : Bool) → (a && b) ≡ true → a ≡ true
&&-left a b h = ground arith

&&-right : (a b : Bool) → (a && b) ≡ true → b ≡ true
&&-right a b h = ground arith

same_access_self : (a : Access) → same_access a a ≡ true
same_access_self a = ground arith

module _ (o : Options) where
  -- The reader takes the line of a request in the window.
  issue-read :
      (c last : ℕ) (out : Outputs) (w : Option Access)
      → within o.tfrom o.tto c ≡ true
      → within o.mtpamin o.mtpamax out.tap_dm_req_pa ≡ true
      → last ≤ c
      → read_line o (issue c out) (record { open_request = w; last = last })
        ≡ some (record { open_request = some (request_of out); last = c })
  issue-read c last out w t p l = ground arith

  response-read :
      (c last : ℕ) (a : Access) (out : Outputs)
      → within o.tfrom o.tto c ≡ true
      → within o.mtpamin o.mtpamax a.pa ≡ true
      → last ≤ c
      → read_line o (response c a out) (record { open_request = some a; last = last })
        ≡ some (record { open_request = none; last = c })
  response-read c last a out t p l = ground (arith, same_access_self a)

-- A step that leaves the memory trace and the pending request alone.
record BusKept {S : Type 0} (s s' : Sim S) : Type 0 where
  cycles_le : s.cycles ≤ s'.cycles
  same_trace : s'.bus_trace ≡ s.bus_trace
  same_rsp : s'.pending_rsp ≡ s.pending_rsp
  same_pending : s'.pending ≡ s.pending

module _ {S : Type 0} where
  tap_commit-BusKept : (o : Options) (out : Outputs) (s : Sim S) → BusKept s (tap_commit o out s)
  unfolding tap_commit
  tap_commit-BusKept o out s = ground arith

  take_exit-BusKept : (out : Outputs) (s : Sim S) → BusKept s (take_exit out s)
  unfolding take_exit
  take_exit-BusKept out s = ground arith

  take_finish-BusKept : (f : Bool) (s : Sim S) → BusKept s (take_finish f s)
  unfolding take_finish
  take_finish-BusKept f s = ground arith

  count_trap-BusKept : (out : Outputs) (s : Sim S) → BusKept s (count_trap out s)
  unfolding count_trap
  count_trap-BusKept out s = ground arith

  watch_priv-BusKept : (out : Outputs) (s : Sim S) → BusKept s (watch_priv out s)
  unfolding watch_priv
  watch_priv-BusKept out s = ground arith

  beat-BusKept : (out : Outputs) (s : Sim S) → BusKept s (beat out s)
  unfolding beat
  beat-BusKept out s = ground arith

module _ {S : Type 0} (o : Options) where
  BusOk-kept : {s s' : Sim S} → BusOk o s → BusKept s s' → BusOk o s'
  BusOk-kept h k = record {
    last = h.last;
    last_le = omega (arith, h.last_le, k.cycles_le);
    reads = rw (k.same_trace, k.same_pending, k.same_rsp) h.reads;
  }

  tap_issue-BusOk :
      (out : Outputs) (s : Sim S)
      → within o.tfrom o.tto s.cycles ≡ true
      → BusOk o s
      → BusOk o (tap_issue o out s)
  unfolding tap_issue
  tap_issue-BusOk out s w h =
      elim (Bool-cases (out.tap_dm_req_fire && within o.mtpamin o.mtpamax out.tap_dm_req_pa)) [
        | inr e ↦ rw (e, tap_issue) h
        | inl e ↦
            rw (e, tap_issue)
              (record {
                last = s.cycles;
                last_le = omega arith;
                reads =
                    read_all-snoc o s.bus_trace _ _
                    ∙ ap (read_on o (issue s.cycles out)) h.reads
                    ∙ issue-read o s.cycles h.last out (waiting s.pending_rsp s.pending) w
                        (&&-right _ _ e) h.last_le;
              })
      ]

  tap_response-BusOk :
      (out : Outputs) (s : Sim S)
      → within o.tfrom o.tto s.cycles ≡ true
      → BusOk o s
      → BusOk o (tap_response o out s)
  unfolding tap_response
  tap_response-BusOk out s w h =
      elim (Bool-cases
        (out.tap_dm_rsp_fire && s.pending_rsp && within o.mtpamin o.mtpamax s.pending.pa)) [
          | inr e ↦ rw (e, tap_response) h
          | inl e ↦
              rw (e, tap_response)
                (record {
                  last = s.cycles;
                  last_le = omega arith;
                  reads =
                      read_all-snoc o s.bus_trace _ _
                      ∙ ap (read_on o (response s.cycles s.pending out)) h.reads
                      ∙ ap
                          (λ (r : Bool).
                            read_line o (response s.cycles s.pending out)
                              (record { open_request = waiting r s.pending; last = h.last }))
                          (&&-right _ _ (&&-left _ _ e))
                      ∙ response-read o s.cycles h.last s.pending out w (&&-right _ _ e) h.last_le;
                })
        ]

  tap_bus-BusOk : (out : Outputs) (s : Sim S) → BusOk o s → BusOk o (tap_bus o out s)
  unfolding tap_bus
  tap_bus-BusOk out s h = elim (Bool-cases (o.mem_tracing && within o.tfrom o.tto s.cycles)) [
    | inr e ↦ rw (e, tap_bus) h
    | inl e ↦
        rw (e, tap_bus)
          (tap_response-BusOk out (tap_issue o out s) (later (&&-right _ _ e))
            (tap_issue-BusOk out s (&&-right _ _ e) h))
  ]
    where
      later :
          within o.tfrom o.tto s.cycles ≡ true
          → within o.tfrom o.tto (tap_issue o out s).cycles ≡ true
      later w = unfold tap_issue in ground arith

module _ (soc : Soc) (o : Options) where
  open soc use {State, eval, outputs, got_finish}

  rising-BusOk : (s : Sim State) → BusOk o s → BusOk o (rising soc o s)
  unfolding rising
  rising-BusOk s h =
      let t = eval true false s.top in
      let out = outputs t in
      let s1 : Sim State = record s { top = t } in
      let h1 : BusOk o s1 = record { last = h.last; last_le = h.last_le; reads = h.reads } in
      let h2 = BusOk-kept o h1 (tap_commit-BusKept o out s1) in
      BusOk-kept o (tap_bus-BusOk o out _ h2) (take_exit-BusKept out _)

  falling-BusOk : (s : Sim State) → BusOk o s → BusOk o (falling soc s)
  unfolding falling
  falling-BusOk s h =
      let t = eval false false s.top in
      let out = outputs t in
      let s1 : Sim State = record s { top = t; cycles = s.cycles + 1 } in
      let h1 : BusOk o s1 = record {
        last = h.last;
        last_le = omega (arith, h.last_le);
        reads = h.reads;
      } in
      let h2 = BusOk-kept o h1 (take_finish-BusKept (got_finish t) s1) in
      let h3 = BusOk-kept o h2 (count_trap-BusKept out _) in
      let h4 = BusOk-kept o h3 (watch_priv-BusKept out _) in BusOk-kept o h4 (beat-BusKept out _)

  pub cycle-BusOk : (s : Sim State) → BusOk o s → BusOk o (cycle soc o s)
  unfolding cycle
  cycle-BusOk s h = falling-BusOk (rising soc o s) (rising-BusOk s h)
