-- ===== src/Hw/Plic/Best.antt =====
-- The source that rtl/soc/plic.sv picks, against the rule for priorities.
use mathlib.Core.Path.{subst}
use qinglong_core.Prelude.{
  ℕ, zero, suc, ◌+◌, ◌-◌, ◌≤◌, ◌<◌, ◌≡◌, refl, sym, ap, ap₂, ◌∙◌, ◌==◌, ltb, if◌then◌else◌, Bool,
  true, false, not, ◌&&◌, ◌||◌, ◌⊎◌, arith, Bool-cases, inl, inr, le_or_lt,
}
use qinglong_core.Hw.Plic.{Plic, pick_loop, pick_best_src, irq}

-- A range up to its last place.
to_last : (P : ℕ → Type 0) (s : ℕ) → ((t : ℕ) → t < s → P t) → P s → (t : ℕ) → t < s + 1 → P t
to_last P s below at t h = elim (le_or_lt s t) [
  | inr l ↦ below t l
  | inl g ↦ let e : s ≡ t = omega (arith, g, h) in subst P e at
]

module _ (p : Plic) (ctx : ℕ) where
  -- Enabled for the context, pending, and above its threshold; there is no source 0.
  unfoldable pub eligible : ℕ → Bool
  eligible s = not (s == 0) && (p.enable ctx s && p.pending s && ltb (p.threshold ctx) (p.prio s))

  -- No other source has a higher priority, nor the same and a lower number.
  abbrev pub Beats : ℕ → ℕ → Type 0
  Beats b t = eligible t ≡ true → p.prio t < p.prio b ⊎ (p.prio t ≡ p.prio b) × (b ≤ t)

  -- `b` is the best source below `n`, or 0 where none is eligible.
  pub data Best (n b : ℕ) : Type 0 where
    nothing : b ≡ 0 → ((t : ℕ) → t < n → eligible t ≡ false) → Best n b
    best : b < n → eligible b ≡ true → ((t : ℕ) → t < n → Beats b t) → Best n b

  -- The same with the loop's variable for the priority.
  data SoFar (n prio b : ℕ) : Type 0 where
    nothing_yet : b ≡ 0 → prio ≡ 0 → ((t : ℕ) → t < n → eligible t ≡ false) → SoFar n prio b
    best_yet :
        b < n → eligible b ≡ true → prio ≡ p.prio b → ((t : ℕ) → t < n → Beats b t) → SoFar n prio b

  eligible-prio : (s : ℕ) → eligible s ≡ true → 0 < p.prio s
  unfolding eligible
  eligible-prio s e = ground (arith, e)

  Beats-weaker : (b s t : ℕ) → p.prio b < p.prio s → Beats b t → Beats s t
  Beats-weaker b s t l beats e = elim (beats e) [
    | inl h ↦ inl (omega (arith, h, l))
    | inr h ↦ inl (omega (arith, h.0, l))
  ]

  -- A source that is not eligible changes nothing.
  SoFar-skip : (n prio b : ℕ) → eligible n ≡ false → SoFar n prio b → SoFar (n + 1) prio b
  SoFar-skip n prio b o (nothing_yet e f none_below) =
      nothing_yet e f (to_last (λ t. eligible t ≡ false) n none_below o)
  SoFar-skip n prio b o (best_yet l e f beats) =
      best_yet (omega (arith, l)) e f
        (to_last (Beats b) n beats λ e2. absurd (ground (arith, o, e2)))

  SoFar-better :
      (n prio b : ℕ)
      → eligible n ≡ true
      → prio < p.prio n
      → SoFar n prio b
      → SoFar (n + 1) (p.prio n) n
  SoFar-better n prio b e l s =
      best_yet (omega arith) e refl (to_last (Beats n) n (others s) λ e2. inr (refl, omega arith))
    where
      others : SoFar n prio b → (t : ℕ) → t < n → Beats n t
      others (nothing_yet x y none_below) t h = λ e2. absurd (ground (arith, none_below t h, e2))
      others (best_yet x y z beats) t h = Beats-weaker b n t (omega (arith, z, l)) (beats t h)

  SoFar-worse :
      (n prio b : ℕ) → eligible n ≡ true → p.prio n ≤ prio → SoFar n prio b → SoFar (n + 1) prio b
  SoFar-worse n prio b e l (nothing_yet x y none_below) =
      absurd (omega (arith, eligible-prio n e, l, y))
  SoFar-worse n prio b e l (best_yet x y z beats) =
      best_yet (omega (arith, x)) y z
        (to_last (Beats b) n beats λ e2. worse (le_or_lt (p.prio b) (p.prio n)))
    where
      worse :
          (p.prio b ≤ p.prio n) ⊎ (p.prio n < p.prio b)
          → p.prio n < p.prio b ⊎ (p.prio n ≡ p.prio b) × (b ≤ n)
      worse (inr h) = inl h
      worse (inl h) = inr (omega (arith, h, l, z), omega (arith, x))

  -- The test of the loop: source 0 is not among its rounds.
  eligible_round :
      (s : ℕ)
      → 0 < s
      → (p.enable ctx s && p.pending s && ltb (p.threshold ctx) (p.prio s)) ≡ eligible s
  unfolding eligible
  eligible_round s l = ground (arith, l)

  better_round :
      (s prio : ℕ)
      → 0 < s
      → (p.enable ctx s && p.pending s && ltb (p.threshold ctx) (p.prio s) && ltb prio (p.prio s))
        ≡ (eligible s && ltb prio (p.prio s))
  better_round s prio l =
      and_assoc (p.enable ctx s) (p.pending s) (ltb (p.threshold ctx) (p.prio s))
        (ltb prio (p.prio s))
      ∙ ap (λ (b : Bool). b && ltb prio (p.prio s)) (eligible_round s l)
    where
      and_assoc : (a b c d : Bool) → (a && b && c && d) ≡ ((a && b && c) && d)
      and_assoc a b c d = ground arith

  -- One round, with what it does to the two variables.
  SoFar-round :
      (s prio b : ℕ) (better : Bool)
      → better ≡ (eligible s && ltb prio (p.prio s))
      → SoFar s prio b
      → SoFar (s + 1) (if better then p.prio s else prio) (if better then s else b)
  SoFar-round s prio b true e f = SoFar-better s prio b (ground (arith, e)) (ground (arith, e)) f
  SoFar-round s prio b false e f = elim (Bool-cases (eligible s)) [
    | inl el ↦ SoFar-worse s prio b el (ground (arith, e, el)) f
    | inr o ↦ SoFar-skip s prio b o f
  ]

  SoFar-Best : (n prio b : ℕ) → SoFar n prio b → Best n b
  SoFar-Best n prio b (nothing_yet e f none_below) = nothing e none_below
  SoFar-Best n prio b (best_yet l e f beats) = best l e beats

  SoFar-pick_loop :
      (sources contexts left s prio b : ℕ)
      → 0 < s
      → SoFar s prio b
      → Best (s + left) (pick_loop sources contexts p ctx left s prio b)
  unfolding pick_loop
  SoFar-pick_loop sources contexts zero s prio b l f =
      subst (λ (n : ℕ). Best n b) (omega arith) (SoFar-Best s prio b f)
  SoFar-pick_loop sources contexts (suc left) s prio b l f =
      subst (λ (n : ℕ). Best n (pick_loop sources contexts p ctx (suc left) s prio b)) (omega arith)
        (SoFar-pick_loop sources contexts left (s + 1) _ _ (omega arith)
          (SoFar-round s prio b _ (better_round s prio l) f))

  zero_not : eligible 0 ≡ false
  unfolding eligible
  zero_not = refl

  -- Is one of the sources below `n` eligible?
  unfoldable pub any_eligible : ℕ → Bool
  any_eligible zero = false
  any_eligible (suc n) = eligible n || any_eligible n

  none_eligible : (n : ℕ) → ((t : ℕ) → t < n → eligible t ≡ false) → any_eligible n ≡ false
  unfolding any_eligible
  none_eligible zero e = refl
  none_eligible (suc n) e =
      ap₂ (λ (a b : Bool). a || b) (e n (omega arith))
        (none_eligible n λ t h. e t (omega (arith, h)))

  one_eligible : (n b : ℕ) → b < n → eligible b ≡ true → any_eligible n ≡ true
  unfolding any_eligible
  one_eligible zero b l e = absurd (omega (arith, l))
  one_eligible (suc n) b l e = elim (le_or_lt n b) [
    | inl at ↦
        let h : b ≡ n = omega (arith, at, l) in
        ap (λ (c : Bool). c || any_eligible n) (ap eligible (sym h) ∙ e)
    | inr below ↦ or_true (eligible n) (one_eligible n b below e)
  ]
    where
      or_true : (c : Bool) {d : Bool} → d ≡ true → (c || d) ≡ true
      or_true c h = ground (arith, h)

  eligible_not_zero : (s : ℕ) → eligible s ≡ true → (s == 0) ≡ false
  unfolding eligible
  eligible_not_zero s e = ground (arith, e)

  Best-any_eligible : (n b : ℕ) → Best n b → not (b == 0) ≡ any_eligible n
  Best-any_eligible n b (nothing e none_below) = rw e (sym (none_eligible n none_below))
  Best-any_eligible n b (best l e beats) =
      positive (eligible_not_zero b e) ∙ sym (one_eligible n b l e)
    where
      positive : (b == 0) ≡ false → not (b == 0) ≡ true
      positive h = ap not h

  -- What a claim of a context gets is the best source: enabled, pending and above the threshold, with
  -- no such source of a higher priority, nor of the same and a lower number; it is 0 if there is no
  -- such source, and the context's interrupt is high exactly if there is one.
  pub pick_best_src-Best :
      (sources contexts : ℕ)
      → 0 < sources
      → Best sources (pick_best_src sources contexts p ctx)
        × (irq sources contexts p ctx ≡ any_eligible sources)
  unfolding pick_best_src
  pick_best_src-Best sources contexts l =
      let b : Best sources (pick_loop sources contexts p ctx (sources - 1) 1 0 0) =
        subst (λ (n : ℕ). Best n (pick_loop sources contexts p ctx (sources - 1) 1 0 0))
          (omega (arith, l))
          (SoFar-pick_loop sources contexts (sources - 1) 1 0 0 (omega arith)
            (nothing_yet refl refl first)) in
      (b, Best-any_eligible sources _ b)
    where
      first : (t : ℕ) → t < 1 → eligible t ≡ false
      first t h = subst (λ (n : ℕ). eligible n ≡ false) (omega (arith, h)) zero_not
