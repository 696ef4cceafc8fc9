-- ===== src/Sw/Freertos/Hello.antt =====
-- task_hello: its report is covered by what it has stored to the transmit FIFO and what it has left
-- to store, and the exit register is written behind the last line only.
use qinglong_core.Prelude.{
  ℕ, suc, ◌+◌, ◌^◌, ◌≤◌, ◌<◌, ◌≡◌, ◌≢◌, refl, sym, ap, ◌∙◌, ◌==◌, if◌then◌else◌, Bool, true, false,
  u32, [], ◌∷◌, ◌++◌, append_assoc, append-nil, Bytes, length, arith, Bool-cases, inl, inr,
}
use qinglong_core.Hw.Mmio.{Mmio}
use qinglong_core.Hw.Uart.{Uart}
use qinglong_core.Sw.Code.{Code, Op}
use qinglong_core.Sw.Machine.{Machine, exec}
use qinglong_core.Sw.Freertos.{hello_round, buf_size}
use qinglong_core.Sw.Freertos.Sends.{
  sends_all, plain, exits, stuck, bad, outlook, hello_text, hello_report, sends_all-hello_round,
  outlook-hello_round,
}
use qinglong_core.Sw.Freertos.System.{Thread, sends, advance, thread_step}
use qinglong_core.Sw.Freertos.Effect.{Effect, keeps, leaves, exec-Effect}

-- What holds of task_hello and the exit register between two steps.
pub record HelloOk (t : Thread) (mmio : Mmio) : Type 0 where
  pub n_le : t.n ≤ 10
  pub covered : t.stored ++ sends_all t.rest ≡ hello_report t.n
  pub before : mmio.exit_valid ≡ false → outlook t.rest ≡ (if t.n == 10 then exits else plain)
  pub after : mmio.exit_valid ≡ true → (mmio.exit_code ≡ 0) × (t.n ≡ 10) × (outlook t.rest ≡ stuck)

-- The outlook of task_hello is never bad.
pub HelloOk-good : (t : Thread) (mmio : Mmio) → HelloOk t mmio → outlook t.rest ≢ bad
HelloOk-good t mmio h = elim (Bool-cases mmio.exit_valid) [
  | inl e ↦ let (c, n, o) = h.after e in λ b. cc
  | inr e ↦ let o = h.before e in λ b. ground arith
]

pub exits-ne-plain : exits ≢ plain
exits-ne-plain e = cc

pub plain-ne-bad : plain ≢ bad
plain-ne-bad e = cc

module _ (dev : Uart) (memory : ℕ → ℕ) where
  open dev use {State}

  -- The operation is done: the rest of the code has what it sends before it.
  sends-cons :
      (op : Op) (code : Code) (t : Thread)
      → t.rest ≡ op ∷ code
      → (t.stored ++ sends op) ++ sends_all code ≡ t.stored ++ sends_all t.rest
  unfolding sends_all
  sends-cons op code t e =
      append_assoc t.stored (sends op) (sends_all code)
      ∙ ap (λ (c : Code). t.stored ++ sends_all c) (sym e)

  keeps-HelloOk :
      (op : Op) (code : Code) (t : Thread) (mmio mmio' : Mmio) (go : Bool)
      → t.rest ≡ op ∷ code
      → HelloOk t mmio
      → (go ≡ true → outlook code ≡ outlook (op ∷ code))
      → mmio'.exit_valid ≡ mmio.exit_valid
      → mmio'.exit_code ≡ mmio.exit_code
      → HelloOk (if go then record t { rest = code; stored = t.stored ++ sends op } else t) mmio'
  keeps-HelloOk op code t mmio mmio' false e h k ev ec = record {
    n_le = h.n_le;
    covered = h.covered;
    before = λ x. h.before (sym ev ∙ x);
    after = λ x. let (c, n, o) = h.after (sym ev ∙ x) in (ec ∙ c, n, o);
  }
  keeps-HelloOk op code t mmio mmio' true e h k ev ec =
      let same : outlook code ≡ outlook t.rest = k refl ∙ ap outlook (sym e) in
      record {
        n_le = h.n_le;
        covered = sends-cons op code t e ∙ h.covered;
        before = λ x. same ∙ h.before (sym ev ∙ x);
        after = λ x. let (c, n, o) = h.after (sym ev ∙ x) in (ec ∙ c, n, same ∙ o);
      }

  -- With an exit ahead the register is clear, and the counter stands at ten.
  exits-ten : (t : Thread) (mmio : Mmio) → HelloOk t mmio → outlook t.rest ≡ exits → t.n ≡ 10
  exits-ten t mmio h o = elim (Bool-cases mmio.exit_valid) [
    | inl e ↦ (h.after e).1
    | inr e ↦ let b = h.before e in ground arith
  ]

  pub idle_below :
      (t : Thread) (mmio : Mmio)
      → HelloOk t mmio
      → outlook t.rest ≡ plain
      → (mmio.exit_valid ≡ false) × (t.n < 10)
  idle_below t mmio h o = elim (Bool-cases mmio.exit_valid) [
    | inl e ↦ let (c, n, k) = h.after e in cc
    | inr e ↦ let b = h.before e in let n = h.n_le in (e, ground arith)
  ]

  advance-HelloOk :
      (op : Op) (code : Code) (t : Thread) (m : Machine State)
      → t.rest ≡ op ∷ code
      → HelloOk t m.mmio
      → Effect dev memory op code m
      → HelloOk (advance dev memory op code t m).0 (advance dev memory op code t m).1.mmio
  unfolding advance
  advance-HelloOk op code t m e h (keeps k ev ec) =
      keeps-HelloOk op code t m.mmio (exec dev memory op m).0.mmio (exec dev memory op m).1 e h k ev
        ec
  advance-HelloOk op code t m e h (leaves g o s ev ec) =
      let n = exits-ten t m.mmio h (ap outlook e ∙ o) in
      rw (g, advance)
        (record {
          n_le = h.n_le;
          covered = sends-cons op code t e ∙ h.covered;
          before = λ x. cc;
          after = λ x. (ec, n, s);
        })

  module _ (stack : ℕ → Bytes) (sized : (n : ℕ) → length (stack n) ≡ buf_size) where
    abbrev round_of : ℕ → Code
    round_of n = hello_round false (stack n) n

    -- The next round starts only below ten.
    round-HelloOk :
        (t : Thread) (mmio : Mmio)
        → t.rest ≡ []
        → HelloOk t mmio
        → HelloOk (record t { n = u32 (t.n + 1); rest = round_of t.n }) mmio
    unfolding outlook sends_all hello_report
    round-HelloOk t mmio e h =
        let (clear, below) = idle_below t mmio h (ap outlook e) in
        let fits : t.n < 2 ^ 32 = omega arith in
        let small : u32 (t.n + 1) ≡ t.n + 1 = omega arith in
        let next : suc t.n ≡ u32 (t.n + 1) = omega arith in
        let before_round : t.stored ≡ hello_report t.n =
          sym (append-nil t.stored)
          ∙ ap (λ (c : Code). t.stored ++ sends_all c) (sym e)
          ∙ h.covered in
        record {
          n_le = omega arith;
          covered =
              ap (λ (s : Bytes). t.stored ++ s)
                (sends_all-hello_round (stack t.n) (sized t.n) t.n fits small)
              ∙ ap (λ (s : Bytes). s ++ hello_text t.n) before_round
              ∙ ap hello_report next;
          before = λ x.
              outlook-hello_round (stack t.n) (sized t.n) t.n fits small
              ∙ ap (λ (k : ℕ). if k == 10 then exits else plain) (sym small);
          after = λ x. cc;
        }

    pub step-HelloOk :
        (code : Code) (t : Thread) (m : Machine State)
        → t.rest ≡ code
        → HelloOk t m.mmio
        → HelloOk
            (thread_step dev memory round_of code t m).0
            (thread_step dev memory round_of code t m).1.mmio
    unfolding thread_step
    step-HelloOk [] t m e h = round-HelloOk t m.mmio e h
    step-HelloOk (op ∷ code) t m e h =
        advance-HelloOk op code t m e h
          (exec-Effect dev memory op code m λ b. HelloOk-good t m.mmio h (ap outlook e ∙ b))
