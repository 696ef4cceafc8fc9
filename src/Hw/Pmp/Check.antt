-- ===== src/Hw/Pmp/Check.antt =====
-- The check against the entries as address ranges, the first that covers the access deciding.
use mathlib.Core.Path.{subst}
use qinglong_core.Prelude.{
  ℕ, zero, suc, ◌+◌, ◌^◌, ◌≤◌, ◌<◌, ◌≡◌, refl, ◌∙◌, ◌==◌, ltb, leb, if◌then◌else◌, Bool, true,
  false, not, ◌&&◌, arith, Bool-cases, inl, inr, le_or_lt,
}
use qinglong_core.Hw.Pmp.{
  Access, prv_m, a_off, a_tor, a_na4, a_napot, mode, access_hi, matches_as, entry_match,
  entry_allowed, any_active, pick, fault, this_addr, prev_addr,
}
use qinglong_core.Hw.Pmp.Napot.{in_napot, match_napot-in_napot}

-- The words from the previous address up to this one, the word itself, or the aligned range.
unfoldable pub covers : ℕ → ℕ → ℕ → ℕ → Bool
covers a prev this hi =
    if a == a_tor
    then leb prev hi && ltb hi this
    else if a == a_na4
    then leb this hi && ltb hi (this + 1)
    else if a == a_napot
    then in_napot this hi
    else false

-- A range from its first place on.
from_head :
    (P : ℕ → Type 0) (i n : ℕ)
    → P i
    → ((k : ℕ) → i + 1 ≤ k → k < n → P k)
    → (k : ℕ) → i ≤ k
    → k < n
    → P k
from_head P i n h all k lo hi = elim (le_or_lt (i + 1) k) [
  | inl above ↦ all k above hi
  | inr at ↦ let e : i ≡ k = omega (arith, at, lo) in subst P e h
]

module _ (cfg : ℕ → ℕ) (addr : ℕ → ℕ) (x : Access) where
  unfoldable pub entry_covers : ℕ → Bool
  entry_covers i = covers (mode (cfg i)) (prev_addr cfg addr i) (this_addr cfg addr i) (access_hi x)

  unfoldable pub off : ℕ → Bool
  off i = mode (cfg i) == a_off

  -- What the check says, by which entry decides.
  pub data Checked : Bool → Type 0 where
    all_off : {f : Bool} → ((i : ℕ) → i < 16 → off i ≡ true) → f ≡ false → Checked f
    by_entry :
        {f : Bool} (i : ℕ)
        → i < 16
        → entry_covers i ≡ true
        → ((j : ℕ) → j < i → entry_covers j ≡ false)
        → f ≡ not (entry_allowed cfg addr x i)
        → Checked f
    by_default :
        {f : Bool} (i : ℕ)
        → i < 16
        → off i ≡ false
        → ((j : ℕ) → j < 16 → entry_covers j ≡ false)
        → f ≡ not (x.priv == prv_m)
        → Checked f

  match-covers :
      (a prev this hi : ℕ)
      → this < 2 ^ 30
      → hi < 2 ^ 30
      → matches_as a prev this hi ≡ covers a prev this hi
  unfolding covers
  match-covers a prev this hi lt lh = ground (arith, match_napot-in_napot this hi lt lh)

  entry_match-entry_covers : (i : ℕ) → entry_match cfg addr x i ≡ entry_covers i
  unfolding entry_match entry_covers
  entry_match-entry_covers i =
      match-covers (mode (cfg i)) (prev_addr cfg addr i) (this_addr cfg addr i) (access_hi x)
        (omega arith) (omega arith)

  active_stays : (left i : ℕ) → any_active cfg addr left i true ≡ true
  unfolding any_active
  active_stays zero i = refl
  active_stays (suc left) i = ground (arith, active_stays left (i + 1))

  -- Some entry from `i` on is on, or none is.
  data Active (left i : ℕ) : Type 0 where
    active :
        (j : ℕ)
        → i ≤ j
        → j < i + left
        → off j ≡ false
        → any_active cfg addr left i false ≡ true
        → Active left i
    quiet :
        ((j : ℕ) → i ≤ j → j < i + left → off j ≡ true)
        → any_active cfg addr left i false ≡ false
        → Active left i

  Active-next : (left i : ℕ) → off i ≡ true → Active left (i + 1) → Active (suc left) i
  unfolding any_active off
  Active-next left i o (active j lo hi f e) =
      active j (omega (arith, lo)) (omega (arith, hi)) f (rw o e)
  Active-next left i o (quiet f e) =
      quiet
        (from_head (λ k. off k ≡ true) i (i + suc left) o (λ k lo hi. f k lo (omega (arith, hi))))
        (rw o e)

  find-Active : (left i : ℕ) → Active left i
  unfolding any_active off
  find-Active zero i = quiet (λ j lo hi. absurd (omega (arith, lo, hi))) refl
  find-Active (suc left) i = elim (Bool-cases (mode (cfg i) == a_off)) [
    | inl o ↦ Active-next left i o (find-Active left (i + 1))
    | inr o ↦ active i (omega arith) (omega arith) o (rw o (active_stays left (i + 1)))
  ]

  pick_stays : (left i : ℕ) (decision : Bool) → pick cfg addr x left i true decision ≡ decision
  unfolding pick
  pick_stays zero i decision = refl
  pick_stays (suc left) i decision = pick_stays left (i + 1) decision

  -- The first entry from `i` on that covers the access, or none does.
  data First (left i : ℕ) (default : Bool) : Type 0 where
    found :
        (j : ℕ)
        → i ≤ j
        → j < i + left
        → entry_covers j ≡ true
        → ((k : ℕ) → i ≤ k → k < j → entry_covers k ≡ false)
        → pick cfg addr x left i false default ≡ entry_allowed cfg addr x j
        → First left i default
    missed :
        ((k : ℕ) → i ≤ k → k < i + left → entry_covers k ≡ false)
        → pick cfg addr x left i false default ≡ default
        → First left i default

  First-next :
      (left i : ℕ) (default : Bool)
      → entry_covers i ≡ false
      → First left (i + 1) default
      → First (suc left) i default
  unfolding pick
  First-next left i default o (found j lo hi c before e) =
      found j (omega (arith, lo)) (omega (arith, hi)) c
        (from_head (λ k. entry_covers k ≡ false) i j o before)
        (rw (entry_match-entry_covers i ∙ o) e)
  First-next left i default o (missed none_covers e) =
      missed
        (from_head (λ k. entry_covers k ≡ false) i (i + suc left) o
          (λ k lo hi. none_covers k lo (omega (arith, hi))))
        (rw (entry_match-entry_covers i ∙ o) e)

  find-First : (left i : ℕ) (default : Bool) → First left i default
  unfolding pick
  find-First zero i default = missed (λ k lo hi. absurd (omega (arith, lo, hi))) refl
  find-First (suc left) i default = elim (Bool-cases (entry_covers i)) [
    | inl c ↦
        found i (omega arith) (omega arith) c (λ k lo hi. absurd (omega (arith, lo, hi)))
          (rw (entry_match-entry_covers i ∙ c)
            (pick_stays left (i + 1) (entry_allowed cfg addr x i)))
    | inr o ↦ First-next left i default o (find-First left (i + 1) default)
  ]

  when_active :
      (i : ℕ)
      → i < 16
      → off i ≡ false
      → any_active cfg addr 16 0 false ≡ true
      → First 16 0 (x.priv == prv_m)
      → Checked (fault cfg addr x)
  unfolding fault
  when_active i l o a (found j lo hi c before e) =
      by_entry j (omega (arith, hi)) c (λ k h. before k (omega arith) h) (rw (a, e) refl)
  when_active i l o a (missed none_covers e) =
      by_default i l o (λ k h. none_covers k (omega arith) (omega (arith, h))) (rw (a, e) refl)

  by_activity : Active 16 0 → Checked (fault cfg addr x)
  unfolding fault
  by_activity (active i lo hi o a) =
      when_active i (omega (arith, hi)) o a (find-First 16 0 (x.priv == prv_m))
  by_activity (quiet all a) = all_off (λ i l. all i (omega arith) (omega (arith, l))) (rw a refl)

  -- Every access is decided as follows: it passes if every entry is off; else the first entry whose
  -- address range covers it decides by its permissions and its lock, and an access that no entry covers
  -- passes in machine mode only. The range of an entry is that of its mode, on the low thirty bits of
  -- the addresses: up from the previous address, one word, or the naturally aligned power of two that
  -- the ones at the end of the address encode.
  pub fault-Checked : Checked (fault cfg addr x)
  fault-Checked = by_activity (find-Active 16 0)
