-- ===== src/Hw/Plic/Sound.antt =====
-- The edges of rtl/soc/plic.sv: no source is ever both pending and in flight.
use mathlib.Core.Path.{subst}
use qinglong_core.Prelude.{
  ℕ, ◌≡◌, sym, ap₂, ◌∙◌, ◌==◌, ltb, Bool, true, false, not, ◌&&◌, arith, Bool-cases, inl, inr,
}
use qinglong_core.Hw.Mmio.{Request}
use qinglong_core.Hw.Vector.{Vector}
use qinglong_core.Hw.Plic.{
  Plic, clock, gateway, access, access_prio, access_enable, access_ctx, claim, complete,
  in_prio_window, in_pending, in_enable_window, in_ctx_window, ctx_idx, ctx_off,
}

-- The inputs of an edge without reset.
pub record Edge : Type 0 where
  pub lines : Vector
  pub request : Request

module _ (sources contexts : ℕ) where
  abbrev pub next : Edge → Plic → Plic
  next x p = clock sources contexts false x.lines x.request p

  -- An access to the register for claim and completion.
  abbrev pub at_claim : Request → Bool
  at_claim r =
      r.valid
      && not (in_prio_window sources contexts r)
      && not (in_pending sources contexts r)
      && not (in_enable_window sources contexts r)
      && in_ctx_window sources contexts r
      && ltb (ctx_idx sources contexts r) contexts
      && (ctx_off sources contexts r == 4)

  pub claim_read :
      (x : Edge) (p : Plic)
      → at_claim x.request ≡ true
      → x.request.wen ≡ false
      → next x p
        ≡ claim sources contexts p
            (ctx_idx sources contexts x.request)
            (record (gateway sources contexts x.lines p) { rsp_valid = true })
  unfolding clock access access_ctx
  claim_read x p a w = ground (arith, a, w)

  pub complete_write :
      (x : Edge) (p : Plic)
      → at_claim x.request ≡ true
      → x.request.wen ≡ true
      → next x p
        ≡ complete sources contexts x.request
            (record (gateway sources contexts x.lines p) { rsp_valid = true })
  unfolding clock access access_ctx
  complete_write x p a w = ground (arith, a, w)

  pub other_inflight :
      (x : Edge) (p : Plic)
      → at_claim x.request ≡ false
      → (next x p).inflight ≡ (gateway sources contexts x.lines p).inflight
  unfolding clock access access_ctx access_prio access_enable gateway
  other_inflight x p a = ground (arith, a)

  other_pending :
      (x : Edge) (p : Plic)
      → at_claim x.request ≡ false
      → (next x p).pending ≡ (gateway sources contexts x.lines p).pending
  unfolding clock access access_ctx access_prio access_enable gateway
  other_pending x p a = ground (arith, a)

  -- No source is both pending and in flight.
  abbrev pub Sound : Plic → Type 0
  Sound p = (s : ℕ) → (p.pending s && p.inflight s) ≡ false

  Sound-gateway : (lines : Vector) (p : Plic) → Sound p → Sound (gateway sources contexts lines p)
  unfolding gateway
  Sound-gateway lines p f s = ground (arith, f s)

  Sound-claim : (q : Plic) (ctx : ℕ) (p : Plic) → Sound p → Sound (claim sources contexts q ctx p)
  unfolding claim
  Sound-claim q ctx p f s = ground (arith, f s)

  Sound-complete : (r : Request) (p : Plic) → Sound p → Sound (complete sources contexts r p)
  unfolding complete
  Sound-complete r p f s = ground (arith, f s)

  gateway_valid :
      (x : Edge) (p : Plic)
      → Sound p
      → Sound (record (gateway sources contexts x.lines p) { rsp_valid = true })
  gateway_valid x p f = Sound-gateway x.lines p f

  pub Sound-next : (x : Edge) (p : Plic) → Sound p → Sound (next x p)
  Sound-next x p f = elim (Bool-cases (at_claim x.request)) [
    | inr o ↦ λ s.
        ap₂ (λ (a b : Vector). a s && b s) (other_pending x p o) (other_inflight x p o)
        ∙ Sound-gateway x.lines p f s
    | inl a ↦ elim (Bool-cases x.request.wen) [
      | inl w ↦
          subst Sound (sym (complete_write x p a w))
            (Sound-complete x.request _ (gateway_valid x p f))
      | inr w ↦
          subst Sound (sym (claim_read x p a w))
            (Sound-claim p (ctx_idx sources contexts x.request) _ (gateway_valid x p f))
    ]
  ]
