-- ===== src/Args.antt =====
-- `plusarg` and `has_plusarg` of sim/cpp/sim_main.cpp and sim/cpp/sim_linux.cpp (the two files have
-- the same text). A C string is the list of its bytes before the NUL.
pub mod Prefix
pub mod Number
use qinglong_core.Prelude.{
  ℕ, zero, suc, ◌+◌, ◌==◌, if◌then◌else◌, Bool, true, false, ◌&&◌, Bytes, List, [], ◌∷◌, Option,
  none, some, length, drop,
}

-- s[j], with the NUL at the end; `none` is a read past it.
unfoldable pub char_at : Bytes → ℕ → Option ℕ
char_at [] zero = some 0
char_at [] (suc j) = none
char_at (c ∷ s) zero = some c
char_at (c ∷ s) (suc j) = char_at s j

-- strncmp(s, t, n) == 0
unfoldable pub strncmp_eq : Bytes → Bytes → ℕ → Bool
strncmp_eq s t zero = true
strncmp_eq [] [] (suc n) = true
strncmp_eq [] (d ∷ t) (suc n) = false
strncmp_eq (c ∷ s) [] (suc n) = false
strncmp_eq (c ∷ s) (d ∷ t) (suc n) = c == d && strncmp_eq s t n

infixl 5 ◌>>=◌
abbrev pub ◌>>=◌ {ℓ κ} : {A : Type ℓ} {B : Type κ} → Option A → (A → Option B) → Option B
none >>= f = none
some a >>= f = f a

-- `argv[i][0] == '+' && strncmp(argv[i] + 1, name, nlen) == 0`
unfoldable pub names_plusarg : Bytes → Bytes → Option Bool
unfolding char_at strncmp_eq
names_plusarg arg name = do
  c ← char_at arg 0
  some (c == b'+' && strncmp_eq (drop 1 arg) name (length name))

-- The condition in `plusarg`: `&&` reads `argv[i][1 + nlen]` only after the rest has held.
unfoldable pub sets_plusarg : Bytes → Bytes → Option Bool
unfolding names_plusarg char_at
sets_plusarg arg name = do
  named ← names_plusarg arg name
  if named then (do d ← char_at arg (1 + length name); some (d == b'=')) else some false

-- The loop over `argv[1 ..]`; the inner `none` is the null pointer.
unfoldable pub plusarg : List Bytes → Bytes → Option (Option Bytes)
unfolding sets_plusarg
plusarg [] name = some none
plusarg (arg ∷ args) name =
    let more = plusarg args name in
    do hit ← sets_plusarg arg name; if hit then some (some (drop (2 + length name) arg)) else more

unfoldable pub has_plusarg : List Bytes → Bytes → Option Bool
unfolding names_plusarg
has_plusarg [] name = some false
has_plusarg (arg ∷ args) name =
    let more = has_plusarg args name in
    do hit ← names_plusarg arg name; if hit then some true else more
