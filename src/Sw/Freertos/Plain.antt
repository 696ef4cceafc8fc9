-- ===== src/Sw/Freertos/Plain.antt =====
-- A task that leaves the exit register alone.
use qinglong_core.Prelude.{
  ℕ, ◌^◌, ◌<◌, ◌≡◌, refl, sym, ap, ◌∙◌, [], ◌∷◌, arith, Bool-cases, inl, inr,
}
use qinglong_core.Hw.Uart.{Uart}
use qinglong_core.Sw.Code.{Code, Op}
use qinglong_core.Sw.Machine.{Machine, exec}
use qinglong_core.Sw.Freertos.Sends.{plain, outlook}
use qinglong_core.Sw.Freertos.System.{Thread, advance, thread_step}
use qinglong_core.Sw.Freertos.Effect.{Effect, keeps, leaves, exec-Effect}
use qinglong_core.Sw.Freertos.Hello.{exits-ne-plain, plain-ne-bad}

pub record Plain (t : Thread) : Type 0 where
  pub small : t.n < 2 ^ 32
  pub harmless : outlook t.rest ≡ plain

module _ (dev : Uart) (memory : ℕ → ℕ) where
  open dev use {State}

  pub record KeepsExit (t : Thread) (m : Machine State) (r : Thread × Machine State) : Type 0 where
    pub still : Plain r.0
    pub same_valid : r.1.mmio.exit_valid ≡ m.mmio.exit_valid
    pub same_code : r.1.mmio.exit_code ≡ m.mmio.exit_code

  advance-KeepsExit :
      (op : Op) (code : Code) (t : Thread) (m : Machine State)
      → t.rest ≡ op ∷ code
      → Plain t
      → Effect dev memory op code m
      → KeepsExit t m (advance dev memory op code t m)
  unfolding advance
  advance-KeepsExit op code t m e b (keeps k ev ec) = record {
    still = elim (Bool-cases (exec dev memory op m).1) [
      | inl g ↦
          rw (g, advance)
            (record { small = b.small; harmless = k g ∙ ap outlook (sym e) ∙ b.harmless })
      | inr g ↦ rw (g, advance) b
    ];
    same_valid = ev;
    same_code = ec;
  }
  advance-KeepsExit op code t m e b (leaves g o s ev ec) =
      let p = sym (ap outlook e ∙ o) ∙ b.harmless in absurd (exits-ne-plain p)

  module _ (round : ℕ → Code) (plain_round : (n : ℕ) → n < 2 ^ 32 → outlook (round n) ≡ plain) where
    pub step-KeepsExit :
        (code : Code) (t : Thread) (m : Machine State)
        → t.rest ≡ code
        → Plain t
        → KeepsExit t m (thread_step dev memory round code t m)
    unfolding thread_step
    step-KeepsExit [] t m e b = record {
      still = record { small = omega arith; harmless = plain_round t.n b.small };
      same_valid = refl;
      same_code = refl;
    }
    step-KeepsExit (op ∷ code) t m e b =
        advance-KeepsExit op code t m e b
          (exec-Effect dev memory op code m λ k. plain-ne-bad (sym b.harmless ∙ ap outlook e ∙ k))
