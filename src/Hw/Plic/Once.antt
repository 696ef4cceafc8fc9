-- ===== src/Hw/Plic/Once.antt =====
-- Claims and completions of rtl/soc/plic.sv over any run.
use mathlib.Core.Path.{subst}
use qinglong_core.Prelude.{
  ℕ, ◌+◌, ◌<◌, ◌≡◌, refl, sym, ap, ◌∙◌, ◌==◌, ltb, if◌then◌else◌, Bool, true, false, not, ◌&&◌,
  arith, Bool-cases, inl, inr, List, [], ◌∷◌,
}
use qinglong_core.Hw.Mmio.{Request}
use qinglong_core.Hw.Vector.{Vector}
use qinglong_core.Hw.Plic.{Plic, reset_plic, pick_best_src, gateway, claim, complete, ctx_idx}
use qinglong_core.Hw.Plic.Best.{Best, nothing, best, eligible, pick_best_src-Best}
use qinglong_core.Hw.Plic.Sound.{
  Edge, next, at_claim, claim_read, complete_write, other_inflight, Sound, Sound-next,
}

module _ (sources contexts : ℕ) where
  abbrev best_of : Plic → Request → ℕ
  best_of p r = pick_best_src sources contexts p (ctx_idx sources contexts r)

  -- A read of that register that gives `s`.
  abbrev claims_now : ℕ → Edge → Plic → Bool
  claims_now s x p =
      at_claim sources contexts x.request
      && not x.request.wen
      && (not (s == 0) && ((next sources contexts x p).rsp_rdata == s))

  -- A write of `s` there while `s` is in flight.
  abbrev completes_now : ℕ → Edge → Plic → Bool
  completes_now s x p =
      at_claim sources contexts x.request
      && x.request.wen
      && ((x.request.wdata == s) && ltb s sources && p.inflight s)

  abbrev count : Bool → ℕ
  count b = if b then 1 else 0

  pending_of : (p : Plic) (ctx b : ℕ) → eligible p ctx b ≡ true → p.pending b ≡ true
  unfolding eligible
  pending_of p ctx b h = ground (arith, h)

  -- A source that is picked is not in flight.
  picked_free :
      (p : Plic) (ctx s : ℕ)
      → 0 < sources
      → Sound sources contexts p
      → (s == 0) ≡ false
      → (pick_best_src sources contexts p ctx == s) ≡ true
      → p.inflight s ≡ false
  picked_free p ctx s l f z e =
      free (pick_best_src sources contexts p ctx) (pick_best_src-Best p ctx sources contexts l).0 e
    where
      free : (b : ℕ) → Best p ctx sources b → (b == s) ≡ true → p.inflight s ≡ false
      free b (nothing h none_below) q = absurd (ground (arith, h, q, z))
      free b (best lt el beats) q =
          let at : b ≡ s = ground (arith, q) in
          let pend : p.pending s ≡ true = ap p.pending (sym at) ∙ pending_of p ctx b el in
          ground (arith, f s, pend)

  -- What a claim does to the ledger of one source.
  claim_ledger :
      (q : Plic) (ctx s : ℕ) (p : Plic)
      → (s == 0) ≡ false
      → p.rsp_rdata ≡ 0
      → ((pick_best_src sources contexts q ctx == s) ≡ true → p.inflight s ≡ false)
      → count (not (s == 0) && ((claim sources contexts q ctx p).rsp_rdata == s))
          + count (p.inflight s)
        ≡ count ((claim sources contexts q ctx p).inflight s)
  unfolding claim
  claim_ledger q ctx s p z r f = elim (Bool-cases (pick_best_src sources contexts q ctx == s)) [
    | inl e ↦ ground (arith, z, r, e, f e)
    | inr e ↦ ground (arith, z, r, e)
  ]

  complete_ledger :
      (r : Request) (s : ℕ) (p : Plic)
      → (s == 0) ≡ false
      → count (p.inflight s)
        ≡ count ((r.wdata == s) && ltb s sources && p.inflight s)
          + count ((complete sources contexts r p).inflight s)
  unfolding complete
  complete_ledger r s p z = ground (arith, z)

  gateway_inflight :
      (lines : Vector) (p : Plic)
      → ((gateway sources contexts lines p).inflight ≡ p.inflight)
        × ((gateway sources contexts lines p).rsp_rdata ≡ 0)
  unfolding gateway
  gateway_inflight lines p = (refl, refl)

  -- The three kinds of edges: `a` is an access to the register, `w` a write.
  neither :
      (a w cl co fl fl2 : Bool)
      → a ≡ false
      → fl2 ≡ fl
      → count (a && not w && cl) + count fl ≡ count (a && w && co) + count fl2
  neither a w cl co fl fl2 ea e = rw (ea, e) refl

  by_read :
      (a w cl co fl fl2 : Bool)
      → a ≡ true
      → w ≡ false
      → count cl + count fl ≡ count fl2
      → count (a && not w && cl) + count fl ≡ count (a && w && co) + count fl2
  by_read a w cl co fl fl2 ea ew e = rw (ea, ew) (omega (arith, e))

  by_write :
      (a w cl co fl fl2 : Bool)
      → a ≡ true
      → w ≡ true
      → count fl ≡ count co + count fl2
      → count (a && not w && cl) + count fl ≡ count (a && w && co) + count fl2
  by_write a w cl co fl fl2 ea ew e = rw (ea, ew) (omega (arith, e))

  abbrev gated : Edge → Plic → Plic
  gated x p = record (gateway sources contexts x.lines p) { rsp_valid = true }

  gated_inflight : (x : Edge) (p : Plic) → (gated x p).inflight ≡ p.inflight
  gated_inflight x p = (gateway_inflight x.lines p).0

  ledger_read :
      (x : Edge) (s : ℕ) (p : Plic)
      → 0 < sources
      → (s == 0) ≡ false
      → Sound sources contexts p
      → at_claim sources contexts x.request ≡ true
      → x.request.wen ≡ false
      → count (not (s == 0) && ((next sources contexts x p).rsp_rdata == s)) + count (p.inflight s)
        ≡ count ((next sources contexts x p).inflight s)
  ledger_read x s p l z f a w =
      let g : (gated x p).inflight s ≡ p.inflight s =
        ap (λ (v : Vector). v s) (gated_inflight x p) in
      let free : (best_of p x.request == s) ≡ true → (gated x p).inflight s ≡ false =
        λ e. g ∙ picked_free p (ctx_idx sources contexts x.request) s l f z e in
      subst
        (λ (q : Plic).
          count (not (s == 0) && (q.rsp_rdata == s)) + count (p.inflight s) ≡ count (q.inflight s))
        (sym (claim_read sources contexts x p a w))
        (subst
          (λ (b : Bool).
            count (
                not (s == 0)
                && ((claim sources contexts p (ctx_idx sources contexts x.request)
                      (gated x p)).rsp_rdata
                    == s))
              + count b
            ≡ count (
                (claim sources contexts p (ctx_idx sources contexts x.request) (gated x p)).inflight
                  s))
          g
          (claim_ledger p (ctx_idx sources contexts x.request) s (gated x p) z
            (gateway_inflight x.lines p).1 free))

  ledger_write :
      (x : Edge) (s : ℕ) (p : Plic)
      → (s == 0) ≡ false
      → at_claim sources contexts x.request ≡ true
      → x.request.wen ≡ true
      → count (p.inflight s)
        ≡ count ((x.request.wdata == s) && ltb s sources && p.inflight s)
          + count ((next sources contexts x p).inflight s)
  ledger_write x s p z a w =
      let g : (gated x p).inflight s ≡ p.inflight s =
        ap (λ (v : Vector). v s) (gated_inflight x p) in
      subst
        (λ (q : Plic).
          count (p.inflight s)
          ≡ count ((x.request.wdata == s) && ltb s sources && p.inflight s) + count (q.inflight s))
        (sym (complete_write sources contexts x p a w))
        (subst
          (λ (b : Bool).
            count b
            ≡ count ((x.request.wdata == s) && ltb s sources && b)
              + count ((complete sources contexts x.request (gated x p)).inflight s))
          g (complete_ledger x.request s (gated x p) z))

  ledger_edge :
      (x : Edge) (s : ℕ) (p : Plic)
      → 0 < sources
      → (s == 0) ≡ false
      → Sound sources contexts p
      → count (claims_now s x p) + count (p.inflight s)
        ≡ count (completes_now s x p) + count ((next sources contexts x p).inflight s)
  ledger_edge x s p l z f =
      let gives : Bool = not (s == 0) && ((next sources contexts x p).rsp_rdata == s) in
      let gone : Bool = (x.request.wdata == s) && ltb s sources && p.inflight s in
      elim (Bool-cases (at_claim sources contexts x.request)) [
        | inr o ↦
            neither (at_claim sources contexts x.request) x.request.wen gives gone (p.inflight s)
              ((next sources contexts x p).inflight s) o
              (ap (λ (v : Vector). v s)
                (other_inflight sources contexts x p o ∙ gated_inflight x p))
        | inl a ↦ elim (Bool-cases x.request.wen) [
          | inl w ↦
              by_write (at_claim sources contexts x.request) x.request.wen gives gone (p.inflight s)
                ((next sources contexts x p).inflight s) a w (ledger_write x s p z a w)
          | inr w ↦
              by_read (at_claim sources contexts x.request) x.request.wen gives gone (p.inflight s)
                ((next sources contexts x p).inflight s) a w (ledger_read x s p l z f a w)
        ]
      ]

  -- The registers after the edges of a list of inputs.
  unfoldable pub after_edges : List Edge → Plic → Plic
  after_edges [] p = p
  after_edges (x ∷ xs) p = after_edges xs (next sources contexts x p)

  -- How often a claim gives `s`, and how often `s` is completed while it is in flight.
  unfoldable pub claims : ℕ → List Edge → Plic → ℕ
  claims s [] p = 0
  claims s (x ∷ xs) p = count (claims_now s x p) + claims s xs (next sources contexts x p)

  unfoldable pub completions : ℕ → List Edge → Plic → ℕ
  completions s [] p = 0
  completions s (x ∷ xs) p =
      count (completes_now s x p) + completions s xs (next sources contexts x p)

  ledger :
      (xs : List Edge) (s : ℕ) (p : Plic)
      → 0 < sources
      → (s == 0) ≡ false
      → Sound sources contexts p
      → claims s xs p + count (p.inflight s)
        ≡ completions s xs p + count ((after_edges xs p).inflight s)
  unfolding claims completions after_edges
  ledger [] s p l z f = refl
  ledger (x ∷ xs) s p l z f = omega (
    arith,
    ledger_edge x s p l z f,
    ledger xs s (next sources contexts x p) l z (Sound-next sources contexts x p f),
  )

  -- Behind a reset, whatever the lines and the accesses of all contexts are: each source but 0 has been
  -- claimed once more than completed while it is in service, and as often otherwise, so no claim gives
  -- a source again that another claim holds.
  pub claims_once :
      (xs : List Edge) (s : ℕ)
      → 0 < sources
      → (s == 0) ≡ false
      → claims s xs reset_plic
        ≡ completions s xs reset_plic + (if (after_edges xs reset_plic).inflight s then 1 else 0)
  claims_once xs s l z = omega (arith, ledger xs s reset_plic l z (λ t. refl))
