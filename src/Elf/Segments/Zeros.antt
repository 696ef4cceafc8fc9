-- ===== src/Elf/Segments/Zeros.antt =====
-- The loop that zero-fills emits one zero word for every four bytes from `filesz` up to `memsz`.
use qinglong_core.Prelude.{
  ℕ, zero, suc, ◌+◌, ◌*◌, ◌^◌, ◌≤◌, ◌<◌, ◌≡◌, u32, List, [], ◌∷◌, lt→ltb, le→not-ltb, arith,
}
use qinglong_core.Elf.Outcome.{ok}
use qinglong_core.Elf.Segments.{Word, zeros}

-- `n` zero words at the addresses a, a + 4, …
unfoldable pub blanks : ℕ → ℕ → List Word
blanks a zero = []
blanks a (suc n) = record { byte_addr = a; value = 0 } ∷ blanks (u32 (a + 4)) n

module _ (memsz vaddr : ℕ) (small : memsz + 4 ≤ 2 ^ 32) where
  pub zeros-end : (fuel off : ℕ) → memsz ≤ off → zeros memsz vaddr fuel off ≡ ok []
  unfolding zeros
  zeros-end zero off h = rw (le→not-ltb off memsz h)
  zeros-end (suc fuel) off h = rw (le→not-ltb off memsz h)

  zeros-suc :
      (fuel off a : ℕ) (ws : List Word)
      → off < memsz
      → a ≡ u32 (vaddr + off)
      → zeros memsz vaddr fuel (off + 4) ≡ ok ws
      → zeros memsz vaddr (suc fuel) off ≡ ok (record { byte_addr = a; value = 0 } ∷ ws)
  unfolding zeros
  zeros-suc fuel off a ws h ea ec =
      let k : u32 (off + 4) ≡ off + 4 = omega arith in rw (lt→ltb off memsz h, k, ec, ea)

  -- `n` rounds are left when `memsz` lies at most four bytes after the last of them.
  pub zeros-blanks :
      (n fuel off a : ℕ)
      → memsz ≤ off + 4 * n
      → off + 4 * n < memsz + 4
      → n ≤ fuel
      → a ≡ u32 (vaddr + off)
      → zeros memsz vaddr fuel off ≡ ok (blanks a n)
  unfolding blanks
  zeros-blanks zero fuel off a lo hi f ea = zeros-end fuel off (omega arith)
  zeros-blanks (suc n) zero off a lo hi f ea = absurd (omega arith)
  zeros-blanks (suc n) (suc fuel) off a lo hi f ea =
      zeros-suc fuel off a (blanks (u32 (a + 4)) n) (omega arith) ea (
        zeros-blanks n fuel (off + 4) (u32 (a + 4)) (omega arith) (omega arith) (omega arith)
          (omega arith))
