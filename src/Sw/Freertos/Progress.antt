-- ===== src/Sw/Freertos/Progress.antt =====
-- task_hello comes to its exit: no wait for the UART and no round goes on for ever.
use mathlib.Core.Path.{subst}
use qinglong_core.Prelude.{
  ℕ, zero, suc, u32, ◌+◌, ◌≤◌, ◌<◌, ◌≡◌, ◌≢◌, refl, sym, ap, ◌∙◌, ◌⊎◌, inl, inr, ◌==◌, ◌&&◌,
  if◌then◌else◌, true, false, bit_and, [], ◌∷◌, ◌++◌, Bytes, length, arith, Bool-cases,
}
use qinglong_core.Hw.Mmio.{Mmio}
use qinglong_core.Hw.Uart.{Uart}
use qinglong_core.Sw.Code.{Code, Op, store, wait_clear, delay, call, spin, overrun}
use qinglong_core.Sw.Machine.{Machine, exec, load}
use qinglong_core.Sw.Uartlite.{ul_stat, ul_stat_tx_full}
use qinglong_core.Sw.Freertos.{hello_round, buf_size}
use qinglong_core.Sw.Freertos.Sends.{stuck, bad, outlook, hanging, sends_all}
use qinglong_core.Sw.Freertos.System.{
  Thread, sends, System, advance, thread_step, hello_step, by_hello, Reach,
}
use qinglong_core.Sw.Freertos.Hello.{HelloOk, HelloOk-good, idle_below}
use qinglong_core.Sw.Freertos.Safety.{Ok, Step-Ok, Reach-Ok}

module _ (dev : Uart) (memory : ℕ → ℕ) where
  open dev use {State, read, busy}

  -- An operation with a good outlook is over, or polls and the UART gets nearer to being ready, or
  -- hangs for good.
  data Moves (op : Op) (code : Code) (m : Machine State) : Type 0 where
    done : (exec dev memory op m).1 ≡ true → Moves op code m
    polls :
        (exec dev memory op m).1 ≡ false
        → busy (exec dev memory op m).0.uart < busy m.uart
        → Moves op code m
    hangs : outlook (op ∷ code) ≡ stuck → Moves op code m

  wait_polls :
      (a mask : ℕ) (m : Machine State)
      → (a == ul_stat && (mask == ul_stat_tx_full)) ≡ true
      → (bit_and (load dev memory a m).0 mask == 0) ≡ false
      → busy (load dev memory a m).1.uart < busy m.uart
  wait_polls a mask m k =
      let ea : ul_stat ≡ a = ground arith in
      let em : ul_stat_tx_full ≡ mask = ground arith in
      subst
        (λ (x : ℕ).
          (bit_and (load dev memory x m).0 mask == 0) ≡ false
          → busy (load dev memory x m).1.uart < busy m.uart)
        ea
        (subst
          (λ (x : ℕ).
            (bit_and (load dev memory ul_stat m).0 x == 0) ≡ false
            → busy (load dev memory ul_stat m).1.uart < busy m.uart)
          em (unfold load in dev.read-busy m.uart))

  hanging_stuck : (s : Bytes) → hanging s ≢ bad → hanging s ≡ stuck
  hanging_stuck [] h = refl
  hanging_stuck (c ∷ s) h = absurd (h refl)

  exec-Moves :
      (op : Op) (code : Code) (m : Machine State) → outlook (op ∷ code) ≢ bad → Moves op code m
  unfolding exec outlook
  exec-Moves (store w a v) code m h = done refl
  exec-Moves (delay ms) code m h = done refl
  exec-Moves (call c) code m h = done refl
  exec-Moves spin code m h = hangs (hanging_stuck (sends_all code) h)
  exec-Moves overrun code m h = absurd (h refl)
  exec-Moves (wait_clear a mask) code m h =
      elim (Bool-cases (a == ul_stat && (mask == ul_stat_tx_full))) [
        | inr k ↦ absurd (h (rw k))
        | inl k ↦ elim (Bool-cases (bit_and (load dev memory a m).0 mask == 0)) [
          | inl z ↦ done z
          | inr z ↦ polls z (wait_polls a mask m k z)
        ]
      ]

-- A task that hangs has exited.
stuck_exited :
    (t : Thread) (mmio : Mmio) → HelloOk t mmio → outlook t.rest ≡ stuck → mmio.exit_valid ≡ true
stuck_exited t mmio h o = elim (Bool-cases mmio.exit_valid) [
  | inl e ↦ e
  | inr e ↦ let b = h.before e in absurd (ground arith)
]

module _ (dev : Uart) (memory : ℕ → ℕ) (stack : ℕ → Bytes)
    (sized : (n : ℕ) → length (stack n) ≡ buf_size) where
  open dev use {State, busy}

  -- Steps of task_hello alone.
  pub data Alone (s : System State) : System State → Type 0 where
    here : Alone s s
    next :
        {s' s2 : System State} → Alone s s' → s2 ≡ hello_step dev memory false stack s' → Alone s s2

  Alone-trans : {s s' s2 : System State} → Alone s s' → Alone s' s2 → Alone s s2
  Alone-trans a here = a
  Alone-trans a (next b e) = next (Alone-trans a b) e

  -- The machine and the task after a step on `op`.
  stepped : Op → Code → System State → System State
  stepped op code s = record s {
    machine = (exec dev memory op s.machine).0;
    hello =
        if (exec dev memory op s.machine).1
        then record s.hello { rest = code; stored = s.hello.stored ++ sends op }
        else s.hello;
  }

  stepped-eq :
      (op : Op) (code : Code) (s : System State)
      → s.hello.rest ≡ op ∷ code
      → stepped op code s ≡ hello_step dev memory false stack s
  unfolding stepped hello_step thread_step advance
  stepped-eq op code s e =
      ap
        (λ (c : Code). record s {
          machine =
              (thread_step dev memory (λ n. hello_round false (stack n) n) c s.hello s.machine).1;
          hello =
              (thread_step dev memory (λ n. hello_round false (stack n) n) c s.hello s.machine).0;
        })
        (sym e)

  -- What a stretch of the task alone leads to: the rest of its round, or the exit.
  record Reaches (code : Code) (s : System State) : Type 0 where
    to : System State
    alone : Alone s to
    ok : Ok dev memory stack sized to
    ends : (to.machine.mmio.exit_valid ≡ true) ⊎ (to.hello.rest ≡ code) × (to.hello.n ≡ s.hello.n)

  stepped-Ok :
      (op : Op) (code : Code) (s : System State)
      → s.hello.rest ≡ op ∷ code
      → Ok dev memory stack sized s
      → Ok dev memory stack sized (stepped op code s)
  stepped-Ok op code s e h = Step-Ok dev memory stack sized (by_hello (stepped-eq op code s e)) h

  Reaches-after :
      (code : Code) (s s1 : System State)
      → Alone s s1
      → s1.hello.n ≡ s.hello.n
      → Reaches code s1
      → Reaches code s
  Reaches-after code s s1 a same r = record {
    to = r.to;
    alone = Alone-trans a r.alone;
    ok = r.ok;
    ends = elim r.ends [ inl x ↦ inl x | inr (c, n) ↦ inr (c, n ∙ same) ];
  }

  one_op :
      (b : ℕ) (op : Op) (code : Code) (s : System State)
      → busy s.machine.uart < b
      → s.hello.rest ≡ op ∷ code
      → Ok dev memory stack sized s
      → Reaches code s
  one_op zero op code s l e h = absurd (omega arith)
  one_op (suc b) op code s l e h =
      elim (exec-Moves dev memory op code s.machine
        λ k. HelloOk-good s.hello s.machine.mmio h.hello_ok (ap outlook e ∙ k)) [
          | hangs o ↦ record {
            to = s;
            alone = here;
            ok = h;
            ends = inl (stuck_exited s.hello s.machine.mmio h.hello_ok (ap outlook e ∙ o));
          }
          | done g ↦ record {
            to = stepped op code s;
            alone = next here (stepped-eq op code s e);
            ok = stepped-Ok op code s e h;
            ends = inr (unfold stepped in (ground arith, ground arith));
          }
          | polls g less ↦
              let r =
                one_op b op code (stepped op code s) (unfold stepped in omega (arith, less))
                  (unfold stepped in ground arith) (stepped-Ok op code s e h) in
              Reaches-after code s (stepped op code s) (next here (stepped-eq op code s e))
                (unfold stepped in ground arith) r
        ]

  -- The rest of a round.
  round_end :
      (code : Code) (s : System State)
      → s.hello.rest ≡ code
      → Ok dev memory stack sized s
      → Reaches [] s
  round_end [] s e h = record { to = s; alone = here; ok = h; ends = inr (e, refl) }
  round_end (op ∷ code) s e h =
      let r = one_op (suc (busy s.machine.uart)) op code s (omega arith) e h in
      elim r.ends [
        | inl x ↦ record { to = r.to; alone = r.alone; ok = r.ok; ends = inl x }
        | inr (c, n) ↦ Reaches-after [] s r.to r.alone n (round_end code r.to c r.ok)
      ]

  started : System State → System State
  started s = record s {
    hello = record s.hello {
      n = u32 (s.hello.n + 1);
      rest = hello_round false (stack s.hello.n) s.hello.n;
    };
  }

  started-eq :
      (s : System State) → s.hello.rest ≡ [] → started s ≡ hello_step dev memory false stack s
  unfolding started hello_step thread_step
  started-eq s e =
      ap
        (λ (c : Code). record s {
          machine =
              (thread_step dev memory (λ n. hello_round false (stack n) n) c s.hello s.machine).1;
          hello =
              (thread_step dev memory (λ n. hello_round false (stack n) n) c s.hello s.machine).0;
        })
        (sym e)

  abbrev pub Exits : System State → Type 0
  Exits s = (s' : System State) × Alone s s' × (s'.machine.mmio.exit_valid ≡ true)

  Exits-after : {s s' : System State} → Alone s s' → Exits s' → Exits s
  Exits-after a (s2, b, x) = (s2, Alone-trans a b, x)

  -- Between two rounds the counter is below ten.
  idle_lt : (s : System State) → s.hello.rest ≡ [] → Ok dev memory stack sized s → s.hello.n < 10
  unfolding outlook
  idle_lt s e h = (idle_below dev memory s.hello s.machine.mmio h.hello_ok (ap outlook e)).1

  rounds_end :
      (left : ℕ) (s : System State) → 10 ≤ s.hello.n + left → Ok dev memory stack sized s → Exits s
  rounds_end zero s l h =
      let r = round_end s.hello.rest s refl h in
      elim r.ends [
        | inl x ↦ (r.to, r.alone, x)
        | inr (c, n) ↦ absurd (omega (arith, n, idle_lt r.to c r.ok))
      ]
  rounds_end (suc left) s l h =
      let r = round_end s.hello.rest s refl h in
      elim r.ends [
        | inl x ↦ (r.to, r.alone, x)
        | inr (c, n) ↦
            let e = started-eq r.to c in
            Exits-after (next r.alone e) (
              rounds_end left (started r.to)
                (unfold started in omega (arith, l, n, idle_lt r.to c r.ok))
                (Step-Ok dev memory stack sized (by_hello e) r.ok))
      ]

  -- From every state that the demo can reach, task_hello alone comes to the exit register: no wait
  -- for the UART goes on for ever, whatever task_blink has left behind.
  pub Reach-Exits : (u : State) (s : System State) → Reach dev memory false stack u s → Exits s
  Reach-Exits u s r = rounds_end 10 s (omega arith) (Reach-Ok dev memory stack sized r)
