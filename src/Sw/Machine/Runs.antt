-- ===== src/Sw/Machine/Runs.antt =====
-- Stretches of a run.
use mathlib.Core.Path.{subst}
use qinglong_core.Prelude.{
  ℕ, zero, suc, ◌≡◌, refl, sym, ap, ◌∙◌, if◌then◌else◌, Bool, true, false, [], ◌∷◌, Bool-cases, inl,
  inr,
}
use qinglong_core.Hw.Uart.{Uart}
use qinglong_core.Sw.Code.{Code, Op}
use qinglong_core.Sw.Machine.{Machine, exec, run}

module _ (dev : Uart) (memory : ℕ → ℕ) where
  open dev use {State}

  -- In some number of steps the code before `rest` is done.
  pub record Runs (code rest : Code) (m m' : Machine State) : Type 0 where
    pub steps : ℕ
    pub runs : run dev memory steps code m ≡ (rest, m')

  run-cons :
      (k : ℕ) (op : Op) (code : Code) (m : Machine State)
      → run dev memory (suc k) (op ∷ code) m ≡ (
          if (exec dev memory op m).1
          then run dev memory k code (exec dev memory op m).0
          else run dev memory k (op ∷ code) (exec dev memory op m).0)
  unfolding run
  run-cons k op code m = refl

  run_step :
      (k : ℕ) (op : Op) (code : Code) (m : Machine State) (go : Bool)
      → (exec dev memory op m).1 ≡ go
      → run dev memory (suc k) (op ∷ code) m ≡ (
          if go
          then run dev memory k code (exec dev memory op m).0
          else run dev memory k (op ∷ code) (exec dev memory op m).0)
  run_step k op code m go e = run-cons k op code m ∙ rw e refl

  pub Runs-done :
      (op : Op) (code rest : Code) (m m1 m' : Machine State)
      → exec dev memory op m ≡ (m1, true)
      → Runs code rest m1 m'
      → Runs (op ∷ code) rest m m'
  Runs-done op code rest m m1 m' e r = record {
    steps = suc r.steps;
    runs =
        run-cons r.steps op code m
        ∙ ap
            (λ (x : Machine State × Bool).
              if x.1
              then run dev memory r.steps code x.0
              else run dev memory r.steps (op ∷ code) x.0)
            e
        ∙ r.runs;
  }

  pub Runs-again :
      (op : Op) (code rest : Code) (m m1 m' : Machine State)
      → exec dev memory op m ≡ (m1, false)
      → Runs (op ∷ code) rest m1 m'
      → Runs (op ∷ code) rest m m'
  Runs-again op code rest m m1 m' e r = record {
    steps = suc r.steps;
    runs =
        run-cons r.steps op code m
        ∙ ap
            (λ (x : Machine State × Bool).
              if x.1
              then run dev memory r.steps code x.0
              else run dev memory r.steps (op ∷ code) x.0)
            e
        ∙ r.runs;
  }

  here_Runs :
      (code rest rest' : Code) (m m1 m' : Machine State)
      → ◌≡◌ {A = Code × Machine State} (code, m) (rest, m1)
      → Runs rest rest' m1 m'
      → Runs code rest' m m'
  here_Runs code rest rest' m m1 m' e r =
      subst (λ (x : Code × Machine State). Runs x.0 rest' x.1 m') (sym e) r

  -- Two stretches, one behind the other.
  run_trans :
      (k : ℕ) (code rest rest' : Code) (m m1 m' : Machine State)
      → run dev memory k code m ≡ (rest, m1)
      → Runs rest rest' m1 m'
      → Runs code rest' m m'
  run_trans zero code rest rest' m m1 m' e r = here_Runs code rest rest' m m1 m' (unfold run in e) r
  run_trans (suc k) [] rest rest' m m1 m' e r = here_Runs [] rest rest' m m1 m' (unfold run in e) r
  run_trans (suc k) (op ∷ code) rest rest' m m1 m' e r =
      elim (Bool-cases (exec dev memory op m).1) [
        | inl g ↦
            Runs-done op code rest' m (exec dev memory op m).0 m'
              (ap (λ (b : Bool). ((exec dev memory op m).0, b)) g)
              (run_trans k code rest rest' (exec dev memory op m).0 m1 m'
                (sym (run_step k op code m true g) ∙ e) r)
        | inr g ↦
            Runs-again op code rest' m (exec dev memory op m).0 m'
              (ap (λ (b : Bool). ((exec dev memory op m).0, b)) g)
              (run_trans k (op ∷ code) rest rest' (exec dev memory op m).0 m1 m'
                (sym (run_step k op code m false g) ∙ e) r)
      ]

  pub Runs-trans :
      (code rest rest' : Code) (m m1 m' : Machine State)
      → Runs code rest m m1
      → Runs rest rest' m1 m'
      → Runs code rest' m m'
  Runs-trans code rest rest' m m1 m' a b = run_trans a.steps code rest rest' m m1 m' a.runs b

  pub Runs-none : (rest : Code) (m : Machine State) → Runs rest rest m m
  unfolding run
  Runs-none rest m = record { steps = 0; runs = refl }
