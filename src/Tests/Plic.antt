-- ===== src/Tests/Plic.antt =====
-- The interrupt controller of the SoC, with four sources and two contexts: the UART's line, claimed and
-- completed by the supervisor.
use qinglong_core.Prelude.{
  ℕ, ◌+◌, ◌≡◌, refl, ◌==◌, if◌then◌else◌, true, false, List, [], ◌∷◌, arith,
}
use qinglong_core.Hw.Vector.{number}
use qinglong_core.Hw.Plic.{
  Plic, reset_plic, pick_loop, pick_best_src, irq, clock, gateway, access, access_prio,
  access_enable, access_ctx, claim, complete,
}
use qinglong_core.Hw.Plic.Best.{Best, any_eligible, pick_best_src-Best}
use qinglong_core.Hw.Plic.Sound.{Edge}
use qinglong_core.Hw.Plic.Once.{after_edges, claims, completions, claims_once}

abbrev put_word : ℕ → ℕ → Edge
put_word a v = record {
  lines = λ s. s == 1;
  request = record { valid = true; addr = a; wen = true; wdata = v; wmask = 15 };
}

abbrev get_word : ℕ → Edge
get_word a = record {
  lines = λ s. s == 1;
  request = record { valid = true; addr = a; wen = false; wdata = 0; wmask = 0 };
}

-- Priority 1 for the source 1, which is enabled for the supervisor; the line stays high.
abbrev set_up : List Edge
set_up = put_word 0x0C000004 1 ∷ put_word 0x0C002080 2 ∷ []

abbrev ready : Plic
ready = after_edges 4 2 set_up reset_plic

-- The first claim gets the source, the second nothing until the completion, and then it comes again.
abbrev claim_it : Edge
claim_it = get_word 0x0C201004

abbrev complete_it : Edge
complete_it = put_word 0x0C201004 1

abbrev a_run : List Edge
a_run =
    put_word 0x0C000004 1
    ∷ put_word 0x0C002080 2
    ∷ claim_it
    ∷ claim_it
    ∷ complete_it
    ∷ put_word 0x0C000000 0
    ∷ claim_it
    ∷ []

it_claims :
    (irq 4 2 ready 1 ≡ true)
    × (irq 4 2 ready 0 ≡ false)
    × ((after_edges 4 2 (claim_it ∷ []) ready).rsp_rdata ≡ 1)
    × ((after_edges 4 2 (claim_it ∷ claim_it ∷ []) ready).rsp_rdata ≡ 0)
    × (claims 4 2 1 a_run reset_plic ≡ 2)
    × (completions 4 2 1 a_run reset_plic ≡ 1)
unfolding after_edges claims completions clock access access_prio access_enable access_ctx claim
    complete gateway pick_best_src pick_loop number
it_claims = (refl, refl, refl, refl, refl, refl)

pick_best_src-Best_example :
    Best ready 1 4 (pick_best_src 4 2 ready 1) × (irq 4 2 ready 1 ≡ any_eligible ready 1 4)
pick_best_src-Best_example = pick_best_src-Best ready 1 4 2 (omega arith)

claims_once_example :
    claims 4 2 1 a_run reset_plic
    ≡ completions 4 2 1 a_run reset_plic
      + (if (after_edges 4 2 a_run reset_plic).inflight 1 then 1 else 0)
claims_once_example = claims_once 4 2 a_run 1 (omega arith) refl
