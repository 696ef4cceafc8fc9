-- ===== src/Sim/Top/Steps.antt =====
-- The cycles of the testbench on that model, without the clock: one edge of its registers each.
use qinglong_core.Prelude.{
  ℕ, zero, suc, ◌≡◌, refl, ap, ap₂, ◌∙◌, true, false, Bytes, List, [], ◌∷◌, ◌++◌,
}
use qinglong_core.Hw.Mmio.{clock, reset_mmio}
use qinglong_core.Hw.Mmio.Tap.{Cycle, next, shown, printed, all_printed, shown-next}
use qinglong_core.Sim.Loop.{reset_edges}
use qinglong_core.Sim.Loop.Clock.{rise, fall, after, consoles, console_of}
use qinglong_core.Sim.Top.{Rest, Top, mmio_request, eval_top, top}

module _ (rest : Rest) where
  -- What the MMIO block gets in the cycle from `t`.
  abbrev pub inputs : Top rest → Cycle
  inputs t = record { console_ready = true; request = mmio_request (rest.request t.inner t.mmio) }

  -- The state behind that cycle, without the clock.
  abbrev pub step : Top rest → Top rest
  step t = record {
    clk = false;
    mmio = next (inputs t) t.mmio;
    inner = rest.edge false t.mmio t.inner;
  }

  pub fall-step : (t : Top rest) → t.clk ≡ false → fall (top rest) t ≡ step t
  unfolding eval_top
  fall-step t e = rw e refl

  pub rise-next : (t : Top rest) → t.clk ≡ false → (rise (top rest) t).mmio ≡ next (inputs t) t.mmio
  unfolding eval_top
  rise-next t e = rw e refl

  -- After the reset pulse the block is as reset, and the clock is low.
  pub reset_low : (t : Top rest) → (reset_edges (top rest) 10 false t).clk ≡ false
  unfolding reset_edges eval_top
  reset_low t = refl

  pub reset-reset_mmio : (t : Top rest) → (reset_edges (top rest) 10 false t).mmio ≡ reset_mmio
  unfolding reset_edges eval_top clock
  reset-reset_mmio t = refl

  -- The first `n` requests from `t`, and the state behind them.
  unfoldable pub requests : ℕ → Top rest → List Cycle
  requests zero t = []
  requests (suc n) t = inputs t ∷ requests n (step t)

  unfoldable pub steps : ℕ → Top rest → Top rest
  steps zero t = t
  steps (suc n) t = steps n (step t)

  pub after-steps : (n : ℕ) (t : Top rest) → t.clk ≡ false → after (top rest) n t ≡ steps n t
  unfolding steps
  after-steps zero t e = refl
  after-steps (suc n) t e = ap (after (top rest) n) (fall-step t e) ∙ after-steps n (step t) refl

  console-printed : (t : Top rest) → t.clk ≡ false → console_of (top rest) t ≡ printed (inputs t)
  unfolding console_of
  console-printed t e = ap shown (rise-next t e) ∙ shown-next (inputs t) t.mmio

  pub consoles-all_printed :
      (n : ℕ) (t : Top rest) → t.clk ≡ false → consoles (top rest) n t ≡ all_printed (requests n t)
  unfolding consoles requests all_printed
  consoles-all_printed zero t e = refl
  consoles-all_printed (suc n) t e =
      ap₂ (λ (a b : Bytes). a ++ b) (console-printed t e)
        (ap (consoles (top rest) n) (fall-step t e) ∙ consoles-all_printed n (step t) refl)
