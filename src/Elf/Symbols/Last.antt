-- ===== src/Elf/Symbols/Last.antt =====
-- The symbols that `load_elf32` returns: of each name the last definition in the table.
use qinglong_core.Prelude.{
  ℕ, zero, suc, ◌+◌, ◌≡◌, ◌≢◌, refl, ap, sym, drop, ◌∙◌, Bytes, ◌==◌, if◌then◌else◌, true, false,
  List, [], ◌∷◌, ◌++◌, All, Option, some, arith, Bool-cases, inl, inr,
}
use qinglong_core.Elf.Outcome.{ok}
use qinglong_core.Elf.File.{word_at, sizeof_sym}
use qinglong_core.Elf.Symbols.{c_string, bytes_eq, Symbols, insert, find, read_symbol, read_symbols}

bytes_eq_refl : (xs : Bytes) → bytes_eq xs xs ≡ true
unfolding bytes_eq
bytes_eq_refl [] = refl
bytes_eq_refl (x ∷ xs) = ground (arith, bytes_eq_refl xs)

bytes_eq-eq : (xs ys : Bytes) → bytes_eq xs ys ≡ true → xs ≡ ys
unfolding bytes_eq
bytes_eq-eq [] [] h = refl
bytes_eq-eq [] (y ∷ ys) h = cc
bytes_eq-eq (x ∷ xs) [] h = cc
bytes_eq-eq (x ∷ xs) (y ∷ ys) h = ground (arith, bytes_eq-eq xs ys)

-- What the map holds after an assignment.
find-insert :
    (name key : Bytes) (value : ℕ) (m : Symbols)
    → find name (insert key value m) ≡ (if bytes_eq key name then some value else find name m)
unfolding find insert
find-insert name key value [] = refl
find-insert name key value ((k, v) ∷ m) = elim (Bool-cases (bytes_eq k key)) [
  | inl e ↦ ground (arith, e, ap (λ (x : Bytes). bytes_eq x name) (bytes_eq-eq k key e))
  | inr e ↦ elim (Bool-cases (bytes_eq key name)) [
    | inl f ↦
        ground (arith, e, f, ap (bytes_eq k) (bytes_eq-eq key name f), find-insert name key value m)
    | inr f ↦ ground (arith, e, f, find-insert name key value m)
  ]
]

-- The bytes of a name, which has no NUL, and the NUL behind it.
c_string-name : (name rest : Bytes) → All (λ c. c ≢ 0) name → c_string (name ++ 0 ∷ rest) ≡ ok name
unfolding c_string
c_string-name [] rest h = refl
c_string-name (c ∷ name) rest h = ground (arith, h.0, c_string-name name rest h.1)

-- What the symbol at `at` defines, if it has a name; the names lie at `strs`.
pub data Defines (file : Bytes) (strs at : ℕ) : List (Bytes × ℕ) → Type 0 where
  unnamed : word_at file at ≡ ok 0 → Defines file strs at []
  named :
      (st_name value : ℕ) (name rest : Bytes)
      → word_at file at ≡ ok st_name
      → st_name ≢ 0
      → drop (strs + st_name) file ≡ name ++ 0 ∷ rest
      → All (λ c. c ≢ 0) name
      → word_at file (at + 4) ≡ ok value
      → Defines file strs at ((name, value) ∷ [])

-- What the `left` symbols from `at` on define, in order.
pub data Defined (file : Bytes) (strs : ℕ) : ℕ → ℕ → List (Bytes × ℕ) → Type 0 where
  at_end : (at : ℕ) → Defined file strs zero at []
  then_more :
      (left at : ℕ) (here later : List (Bytes × ℕ))
      → Defines file strs at here
      → Defined file strs left (at + sizeof_sym) later
      → Defined file strs (suc left) at (here ++ later)

-- The last definition of `name`, or else `before`.
unfoldable pub last_value : Bytes → List (Bytes × ℕ) → Option ℕ → Option ℕ
last_value name [] before = before
last_value name ((k, v) ∷ defs) before =
    last_value name defs (if bytes_eq k name then some v else before)

last_value-append :
    (name : Bytes) (xs ys : List (Bytes × ℕ)) (before : Option ℕ)
    → last_value name (xs ++ ys) before ≡ last_value name ys (last_value name xs before)
unfolding last_value
last_value-append name [] ys before = refl
last_value-append name ((k, v) ∷ xs) ys before = last_value-append name xs ys _

-- A round of the loop adds what its symbol defines.
read_symbol-Defines :
    (file : Bytes) (strs at : ℕ) (here : List (Bytes × ℕ)) (out : Symbols)
    → Defines file strs at here
    → (out' : Symbols) × (read_symbol file strs at out ≡ ok out')
      × ((name : Bytes) → find name out' ≡ last_value name here (find name out))
unfolding read_symbol last_value
read_symbol-Defines file strs at here out (unnamed e) = (out, rw e, λ name. refl)
read_symbol-Defines file strs at here out (named n v name rest e nz d nul f) =
    let nz' : (n == 0) ≡ false = ground arith in
    (
      insert name v out,
      rw (e, nz', d, c_string-name name rest nul, f),
      λ x. find-insert x name v out,
    )

-- The symbol map that the loader builds from a table whose names lie in the file, from any map on,
-- gives each name the value of its last definition in the table.
pub read_symbols-last_value :
    (file : Bytes) (strs left at : ℕ) (defs : List (Bytes × ℕ)) (out : Symbols)
    → Defined file strs left at defs
    → (out' : Symbols) × (read_symbols file strs left at out ≡ ok out')
      × ((name : Bytes) → find name out' ≡ last_value name defs (find name out))
unfolding read_symbols last_value
read_symbols-last_value file strs left' at' defs out (at_end at) = (out, refl, λ name. refl)
read_symbols-last_value file strs left' at' defs out (then_more left at here later d ds) =
    let (out1, e1, h1) = read_symbol-Defines file strs at here out d in
    let (out2, e2, h2) = read_symbols-last_value file strs left (at + sizeof_sym) later out1 ds in
    (
      out2,
      rw e1 e2,
      λ name.
          h2 name
          ∙ ap (last_value name later) (h1 name)
          ∙ sym (last_value-append name here later (find name out)),
    )
