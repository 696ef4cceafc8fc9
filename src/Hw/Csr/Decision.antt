-- ===== src/Hw/Csr/Decision.antt =====
-- Locked entries of rtl/core/csr.sv in the check of rtl/core/pmp.sv: what they decide stays decided.
use native.Mathlib.Nat.{pow-suc}
use qinglong_core.Prelude.{
  ℕ, zero, suc, ◌+◌, ◌/◌, ◌%◌, ◌^◌, ◌≤◌, ◌<◌, ◌≡◌, refl, sym, ap, ap₂, ◌∙◌, ◌==◌, if◌then◌else◌,
  Bool, true, false, not, ◌&&◌, arith, Bool-cases, inl, inr, le_or_lt, List,
}
use qinglong_core.Hw.Vector.{Vector, number}
use qinglong_core.Hw.Csr.{Csr, Inputs}
use qinglong_core.Hw.Csr.Read.{pmp_cfg_out, pmp_addr_out}
use qinglong_core.Hw.Csr.Write.{pmp_l, pmp_is_tor, cfg_bit}
use qinglong_core.Hw.Csr.Edge.{after_edges}
use qinglong_core.Hw.Csr.Lock.{Same, Same-after_edges}
use qinglong_core.Hw.Pmp.{
  Access, mode, access_hi, a_tor, this_addr, prev_addr, entry_allowed, fault,
}
use qinglong_core.Hw.Pmp.Check.{
  covers, entry_covers, off, Checked, all_off, by_entry, by_default, fault-Checked,
}

number-equal : (w : ℕ) (u v : Vector) → ((k : ℕ) → k < w → u k ≡ v k) → number w u ≡ number w v
unfolding number
number-equal zero u v e = refl
number-equal (suc w) u v e =
    ap₂ (λ (n : ℕ) (b : Bool). n + (if b then 2 ^ w else 0))
      (number-equal w u v (λ k l. e k (omega (arith, l)))) (e w (omega arith))

number_lt : (w : ℕ) (v : Vector) → number w v < 2 ^ w
unfolding number
number_lt zero v = omega arith
number_lt (suc w) v = ground (arith, number_lt w v, pow-suc 2 w)

-- The mode is in bits 3 and 4.
mode-number : (v : Vector) → mode (number 8 v) ≡ (if v 3 then 1 else 0) + (if v 4 then 2 else 0)
unfolding number
mode-number v = modes (number 3 v) (number_lt 3 v) (v 3) (v 4) (v 5) (v 6) (v 7)
  where
    modes :
        (n : ℕ)
        → n < 8
        → (b c d e f : Bool)
        → mode (
            n
            + (if b then 8 else 0)
            + (if c then 16 else 0)
            + (if d then 32 else 0)
            + (if e then 64 else 0)
            + (if f then 128 else 0))
          ≡ (if b then 1 else 0) + (if c then 2 else 0)
    modes n l b c d e f = ground arith

pmp_is_tor-mode : (s : Csr) (i : ℕ) → pmp_is_tor s i ≡ (mode (pmp_cfg_out s i) == a_tor)
unfolding pmp_cfg_out
pmp_is_tor-mode s i =
    two (s.pmpcfg (i / 4) (cfg_bit i 3)) (s.pmpcfg (i / 4) (cfg_bit i 4))
    ∙ ap (λ (m : ℕ). m == a_tor) (sym (mode-number (λ k. s.pmpcfg (i / 4) (cfg_bit i k))))
  where
    two : (b c : Bool) → (b && not c) ≡ (((if b then 1 else 0) + (if c then 2 else 0)) == a_tor)
    two b c = ground arith

cfg_kept : (i : ℕ) (s t : Csr) → Same i s t → pmp_cfg_out t i ≡ pmp_cfg_out s i
unfolding pmp_cfg_out
cfg_kept i s t a = number-equal 8 _ _ a.byte

addr_kept : (i : ℕ) (s t : Csr) → Same i s t → pmp_addr_out t i ≡ pmp_addr_out s i
unfolding pmp_addr_out
addr_kept i s t a = ap (number 32) a.this

-- Only the mode 1 has a first address.
covers_prev :
    (a prev prev2 this hi : ℕ)
    → (a == a_tor) ≡ false
    → covers a prev this hi ≡ covers a prev2 this hi
unfolding covers
covers_prev a prev prev2 this hi e = rw e refl

prev_kept :
    (i : ℕ) (s t : Csr) (a hi this : ℕ)
    → Same i s t
    → pmp_is_tor s i ≡ (a == a_tor)
    → covers a (prev_addr (pmp_cfg_out t) (pmp_addr_out t) i) this hi
      ≡ covers a (prev_addr (pmp_cfg_out s) (pmp_addr_out s) i) this hi
unfolding pmp_addr_out
prev_kept zero s t a hi this k e = refl
prev_kept (suc i) s t a hi this k e = elim (Bool-cases (a == a_tor)) [
  | inl tor ↦
      ap (λ (v : Vector). covers a (if suc i == 0 then 0 else number 32 v % 2 ^ 30) this hi)
        (k.prev (omega arith) (e ∙ tor))
  | inr other ↦ covers_prev a _ _ this hi other
]

module _ (x : Access) where
  entry_covers_kept :
      (i : ℕ) (s t : Csr)
      → Same i s t
      → entry_covers (pmp_cfg_out t) (pmp_addr_out t) x i
        ≡ entry_covers (pmp_cfg_out s) (pmp_addr_out s) x i
  unfolding entry_covers
  entry_covers_kept i s t k =
      ap₂
        (λ (c a : ℕ).
          covers (mode c) (prev_addr (pmp_cfg_out t) (pmp_addr_out t) i) (a % 2 ^ 30) (access_hi x))
        (cfg_kept i s t k) (addr_kept i s t k)
      ∙ prev_kept i s t (mode (pmp_cfg_out s i)) (access_hi x)
          (this_addr (pmp_cfg_out s) (pmp_addr_out s) i) k (pmp_is_tor-mode s i)

  entry_allowed_kept :
      (i : ℕ) (s t : Csr)
      → Same i s t
      → entry_allowed (pmp_cfg_out t) (pmp_addr_out t) x i
        ≡ entry_allowed (pmp_cfg_out s) (pmp_addr_out s) x i
  unfolding entry_allowed
  entry_allowed_kept i s t k = rw (cfg_kept i s t k) refl

  module _ (cfg addr : ℕ → ℕ) where
    off_covers : (i : ℕ) → off cfg addr x i ≡ true → entry_covers cfg addr x i ≡ false
    unfolding off entry_covers covers
    off_covers i e = ground (arith, e)

    never : {X : Type 0} {b : Bool} → b ≡ true → b ≡ false → X
    never e f = ground (arith, e, f)

    -- The first entry that covers decides.
    first_decides :
        (i : ℕ) (f : Bool)
        → i < 16
        → entry_covers cfg addr x i ≡ true
        → ((j : ℕ) → j < i → entry_covers cfg addr x j ≡ false)
        → Checked cfg addr x f
        → f ≡ not (entry_allowed cfg addr x i)
    first_decides i f l c before (all_off o e) = never c (off_covers i (o i l))
    first_decides i f l c before (by_default j lj o none_covers e) = never c (none_covers i l)
    first_decides i f l c before (by_entry j lj cj before_j e) = elim (le_or_lt i j) [
      | inr above ↦ never cj (before j above)
      | inl le ↦ elim (le_or_lt j i) [
        | inr above ↦ never c (before_j i above)
        | inl ge ↦ e ∙ ap (λ k. not (entry_allowed cfg addr x k)) (omega (arith, le, ge))
      ]
    ]

  abbrev pub faults : Csr → Bool
  faults s = fault (pmp_cfg_out s) (pmp_addr_out s) x

  abbrev pub covered_by : Csr → ℕ → Bool
  covered_by s = entry_covers (pmp_cfg_out s) (pmp_addr_out s) x

  Same-decision :
      (k : ℕ) (s t : Csr)
      → k < 16
      → ((j : ℕ) → j ≤ k → Same j s t)
      → covered_by s k ≡ true
      → ((j : ℕ) → j < k → covered_by s j ≡ false)
      → faults t ≡ faults s
  Same-decision k s t l same c before =
      first_decides (pmp_cfg_out t) (pmp_addr_out t) k (faults t) l
        (entry_covers_kept k s t (same k (omega arith)) ∙ c)
        (λ j h. entry_covers_kept j s t (same j (omega (arith, h))) ∙ before j h)
        (fault-Checked (pmp_cfg_out t) (pmp_addr_out t) x)
      ∙ ap not (entry_allowed_kept k s t (same k (omega arith)))
      ∙ sym (
          first_decides (pmp_cfg_out s) (pmp_addr_out s) k (faults s) l c before
            (fault-Checked (pmp_cfg_out s) (pmp_addr_out s) x))

  kept_decision :
      (i : ℕ) (s t : Csr)
      → i < 16
      → ((j : ℕ) → j ≤ i → Same j s t)
      → covered_by s i ≡ true
      → Checked (pmp_cfg_out s) (pmp_addr_out s) x (faults s)
      → faults t ≡ faults s
  kept_decision i s t l same c (all_off o e) =
      never (pmp_cfg_out s) (pmp_addr_out s) c
        (off_covers (pmp_cfg_out s) (pmp_addr_out s) i (o i l))
  kept_decision i s t l same c (by_default j lj o none_covers e) =
      never (pmp_cfg_out s) (pmp_addr_out s) c (none_covers i l)
  kept_decision i s t l same c (by_entry k lk ck before e) = elim (le_or_lt k i) [
    | inr above ↦ never (pmp_cfg_out s) (pmp_addr_out s) c (before i above)
    | inl le ↦ Same-decision k s t lk (λ j h. same j (omega (arith, h, le))) ck before
  ]

  -- A locked entry, with all entries before it locked too, decides for ever: whatever instructions,
  -- traps and returns follow in any mode, short of a reset, an access that it covers passes or faults
  -- as it does now.
  pub fault-after_edges :
      (i : ℕ) (xs : List Inputs) (s : Csr)
      → i < 16
      → ((j : ℕ) → j ≤ i → pmp_l s j ≡ true)
      → covered_by s i ≡ true
      → faults (after_edges xs s) ≡ faults s
  fault-after_edges i xs s l locked c =
      kept_decision i s (after_edges xs s) l
        (λ j h. Same-after_edges j xs s (omega (arith, h, l)) (locked j h)) c
        (fault-Checked (pmp_cfg_out s) (pmp_addr_out s) x)
