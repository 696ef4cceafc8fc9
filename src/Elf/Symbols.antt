-- ===== src/Elf/Symbols.antt =====
-- The walk over the section headers in `load_elf32`: the symbol table and its names.
pub mod Last
use qinglong_core.Prelude.{
  ℕ, zero, suc, ◌+◌, ◌*◌, ◌/◌, Bytes, ltb, ◌==◌, if◌then◌else◌, Bool, true, false, ◌&&◌, List, [],
  ◌∷◌, Option, none, some, drop,
}
use qinglong_core.Elf.Outcome.{Outcome, ok, fault, ◌>>=◌}
use qinglong_core.Elf.File.{word_at, sizeof_shdr, sizeof_sym, sht_symtab}

-- Where the headers `symtab` and `strtab` lie in the file; `none` is a null pointer.
pub record Tables : Type 0 where
  pub symtab : Option ℕ
  pub strtab : Option ℕ

-- The search for the first SHT_SYMTAB among the `left` headers from `at` on.
unfoldable pub find_symtab : Bytes → ℕ → ℕ → ℕ → ℕ → Outcome Tables
unfolding word_at
find_symtab file shoff shnum zero at = ok (record { symtab = none; strtab = none })
find_symtab file shoff shnum (suc left) at =
    let more = find_symtab file shoff shnum left (at + sizeof_shdr) in
    let found = (do
      sh_link ← word_at file (at + 24)
      ok (record {
        symtab = some at;
        strtab = if ltb sh_link shnum then some (shoff + sh_link * sizeof_shdr) else none;
      })) in
    do sh_type ← word_at file (at + 4); if sh_type == sht_symtab then found else more

-- `std::string name = strs + k`: the bytes up to a NUL, which must lie in the file.
unfoldable pub c_string : Bytes → Outcome Bytes
c_string [] = fault
c_string (c ∷ cs) =
    let more = (do rest ← c_string cs; ok (c ∷ rest)) in if c == 0 then ok [] else more

unfoldable pub bytes_eq : Bytes → Bytes → Bool
bytes_eq [] [] = true
bytes_eq [] (y ∷ ys) = false
bytes_eq (x ∷ xs) [] = false
bytes_eq (x ∷ xs) (y ∷ ys) = x == y && bytes_eq xs ys

-- std::unordered_map<std::string, uint32_t>, without its order of iteration.
abbrev pub Symbols : Type 0
Symbols = List (Bytes × ℕ)

-- out.symbols[name] = value
unfoldable pub insert : Bytes → ℕ → Symbols → Symbols
unfolding bytes_eq
insert name value [] = (name, value) ∷ []
insert name value ((k, v) ∷ m) =
    if bytes_eq k name then (k, value) ∷ m else (k, v) ∷ insert name value m

-- elf.symbols.find(name)
unfoldable pub find : Bytes → Symbols → Option ℕ
unfolding bytes_eq
find name [] = none
find name ((k, v) ∷ m) = if bytes_eq k name then some v else find name m

-- One round of the loop over the symbols; the names lie at `strs`.
unfoldable pub read_symbol : Bytes → ℕ → ℕ → Symbols → Outcome Symbols
read_symbol file strs at out = do
  st_name ← word_at file at
  if st_name == 0 then ok out else (do
    name ← c_string (drop (strs + st_name) file)
    st_value ← word_at file (at + 4)
    ok (insert name st_value out))

-- The loop over the `left` symbols from `at` on.
unfoldable pub read_symbols : Bytes → ℕ → ℕ → ℕ → Symbols → Outcome Symbols
read_symbols file strs zero at out = ok out
read_symbols file strs (suc left) at out = do
  out' ← read_symbol file strs at out
  read_symbols file strs left (at + sizeof_sym) out'

-- `if (symtab && strtab) { … }`
unfoldable pub read_tables : Bytes → Option ℕ → Option ℕ → Outcome Symbols
unfolding word_at read_symbols
read_tables file none strtab = ok []
read_tables file (some symtab) none = ok []
read_tables file (some symtab) (some strtab) = do
  syms ← word_at file (symtab + 16)
  strs ← word_at file (strtab + 16)
  sh_size ← word_at file (symtab + 20)
  read_symbols file strs (sh_size / sizeof_sym) syms []
