-- ===== src/Args/Prefix.antt =====
-- What the two functions find, stated by prefixes of the arguments.
use qinglong_core.Prelude.{
  ◌+◌, ◌≡◌, refl, ◌==◌, if◌then◌else◌, Bool, true, false, Bytes, List, [], ◌∷◌, ◌++◌, Option, none,
  some, length, drop, arith, Option-cases, length-append, inl, inr, ◌||◌,
}
use qinglong_core.Args.{char_at, strncmp_eq, names_plusarg, sets_plusarg, plusarg, has_plusarg}

-- The text behind a prefix.
unfoldable pub strip : Bytes → Bytes → Option Bytes
strip [] s = some s
strip (c ∷ p) [] = none
strip (c ∷ p) (d ∷ s) = if d == c then strip p s else none

-- The value of the first `+name=value`.
unfoldable pub first_value : Bytes → List Bytes → Option Bytes
unfolding strip
first_value prefix [] = none
first_value prefix (arg ∷ args) = elim (strip prefix arg) [
  | some v ↦ some v
  | none ↦ first_value prefix args
]

strip-append :
    (p q s : Bytes) → strip (p ++ q) s ≡ (elim (strip p s) [ some r ↦ strip q r | none ↦ none ])
unfolding strip
strip-append [] q s = refl
strip-append (c ∷ p) q [] = refl
strip-append (c ∷ p) q (d ∷ s) = ground (arith, strip-append p q s)

abbrev is_some : Option Bytes → Bool
is_some none = false
is_some (some r) = true

strncmp_eq-strip : (s t : Bytes) → strncmp_eq s t (length t) ≡ is_some (strip t s)
unfolding strncmp_eq strip
strncmp_eq-strip s [] = refl
strncmp_eq-strip [] (d ∷ t) = refl
strncmp_eq-strip (c ∷ s) (d ∷ t) = ground (arith, strncmp_eq-strip s t)

-- Where a prefix matches, its length leads to the text behind it.
abbrev Follows : Bytes → Bytes → Option Bytes → Type 0
Follows p s none = Unit
Follows p s (some r) = (char_at s (length p) ≡ char_at r 0) × (drop (length p) s ≡ r)

strip-Follows : (p s : Bytes) → Follows p s (strip p s)
unfolding strip char_at
strip-Follows [] s = (refl, refl)
strip-Follows (c ∷ p) [] = tt
strip-Follows (c ∷ p) (d ∷ s) = ground (arith, strip-Follows p s)

names_plusarg-strip :
    (arg name : Bytes) → names_plusarg arg name ≡ some (is_some (strip (b'+' ∷ name) arg))
unfolding names_plusarg strip char_at
names_plusarg-strip [] name = refl
names_plusarg-strip (c ∷ arg) name = ground (arith, strncmp_eq-strip arg name)

-- `name=`, as the prefix of an argument that sets it.
abbrev pub setting : Bytes → Bytes
setting name = b'+' ∷ name ++ b'=' ∷ []

-- One argument: the test holds when the whole prefix does, and the pointer is behind it.
module _ (arg name : Bytes) where
  sets_none : strip (b'+' ∷ name) arg ≡ none → sets_plusarg arg name ≡ some false
  unfolding sets_plusarg
  sets_none e = rw (names_plusarg-strip arg name, e)

  sets_some :
      (r : Bytes)
      → strip (b'+' ∷ name) arg ≡ some r
      → sets_plusarg arg name ≡ some (is_some (strip (b'=' ∷ []) r))
  unfolding sets_plusarg strip char_at
  sets_some [] e = ground (arith, names_plusarg-strip arg name, strip-Follows (b'+' ∷ name) arg)
  sets_some (c ∷ r) e =
      ground (arith, names_plusarg-strip arg name, strip-Follows (b'+' ∷ name) arg)

  sets_plusarg-strip : sets_plusarg arg name ≡ some (is_some (strip (setting name) arg))
  sets_plusarg-strip =
      rw (strip-append (b'+' ∷ name) (b'=' ∷ []) arg)
        (elim (Option-cases (strip (b'+' ∷ name) arg)) [
          | inl e ↦ rw e (sets_none e)
          | inr (r, e) ↦ rw e (sets_some r e)
        ])

  length-setting : length (setting name) ≡ 2 + length name
  length-setting = omega (arith, length-append name (b'=' ∷ []))

  value_behind : (r : Bytes) → strip (setting name) arg ≡ some r → drop (2 + length name) arg ≡ r
  value_behind r e = rw (← length-setting) (ground (arith, strip-Follows (setting name) arg))

-- Exactly the first `+name=value` is found, its value is all that stands behind the `=`, and no
-- character behind an argument's NUL is read.
pub plusarg-first_value :
    (args : List Bytes) (name : Bytes) → plusarg args name ≡ some (first_value (setting name) args)
unfolding plusarg first_value
plusarg-first_value [] name = refl
plusarg-first_value (arg ∷ args) name =
    rw (sets_plusarg-strip arg name) (elim (Option-cases (strip (setting name) arg)) [
      | inl e ↦ rw e (plusarg-first_value args name)
      | inr (r, e) ↦ rw (e, value_behind arg name r e)
    ])

-- Some argument begins with the prefix.
any_has : Bytes → List Bytes → Bool
unfolding strip
any_has prefix [] = false
any_has prefix (arg ∷ args) = is_some (strip prefix arg) || any_has prefix args

-- A flag is set by every argument that begins with `+name`, whatever follows; here too no character
-- behind an argument's NUL is read.
has_plusarg-any_has :
    (args : List Bytes) (name : Bytes) → has_plusarg args name ≡ some (any_has (b'+' ∷ name) args)
unfolding has_plusarg any_has
has_plusarg-any_has [] name = refl
has_plusarg-any_has (arg ∷ args) name =
    rw (names_plusarg-strip arg name) (ground (arith, has_plusarg-any_has args name))
