-- ===== src/Elf/Segments/Contents.antt =====
-- The loop over a segment's contents emits exactly the reference words.
use qinglong_core.Prelude.{
  ℕ, zero, suc, ◌+◌, ◌*◌, ◌/◌, ◌^◌, ◌≤◌, ◌<◌, ◌≡◌, refl, Bytes, IsByte, u32, List, [], ◌∷◌, some,
  All, get_elem?, length, arith, take, drop, length-take, length-drop, All-take, All-drop,
  get_elem?-take-drop, lt→ltb, le→not-ltb, ◌∙◌,
}
use qinglong_core.Prelude.Bits.{low-bit_or}
use qinglong_core.Elf.Outcome.{ok}
use qinglong_core.Elf.Segments.{Word, gather, contents}
use qinglong_core.Elf.Segments.Chunks.{chunks, le_word}

mod_small : (n : ℕ) → n < 2 ^ 32 → u32 n ≡ n
mod_small n h = omega arith

module _ (file : Bytes) (offset filesz off : ℕ) where
  gather-zero : (b w : ℕ) → gather file offset filesz off 0 b w ≡ ok w
  unfolding gather
  gather-zero b w = refl

  gather-stop :
      (left b w : ℕ)
      → off + b < 2 ^ 32
      → filesz ≤ off + b
      → gather file offset filesz off left b w ≡ ok w
  unfolding gather
  gather-stop zero b w small h = refl
  gather-stop (suc left) b w small h = rw (mod_small (off + b) small, le→not-ltb (off + b) filesz h)

  -- A round of the loop puts one more byte on top of the word.
  gather-suc :
      (left b w x w' : ℕ)
      → off + b < 2 ^ 32
      → off + b < filesz
      → get_elem? file (offset + (off + b)) ≡ some x
      → w < 2 ^ (8 * b)
      → x * 2 ^ (8 * b) < 2 ^ 32
      → w + x * 2 ^ (8 * b) ≡ w'
      → gather file offset filesz off (suc left) b w ≡ gather file offset filesz off left (b + 1) w'
  unfolding gather
  gather-suc left b w x w' small h e wf xf we = rw (
    mod_small (off + b) small,
    lt→ltb (off + b) filesz h,
    e,
    mod_small (x * 2 ^ (8 * b)) xf,
    low-bit_or (8 * b) w x wf,
    we,
  )

-- The word that one round of `contents` assembles, from the bytes that the file has at `off`.
module _ (file : Bytes) (offset filesz off : ℕ) (small : off + 3 < 2 ^ 32) where
  gather_one :
      (x : ℕ)
      → IsByte x
      → off + 1 ≡ filesz
      → get_elem? file (offset + (off + 0)) ≡ some x
      → gather file offset filesz off 4 0 0 ≡ ok (le_word x 0 0 0)
  gather_one x hx h ex =
      gather-suc file offset filesz off 3 0 0 x (le_word x 0 0 0) (omega arith) (omega arith) ex
        (omega arith) (omega arith) (omega arith)
      ∙ gather-stop file offset filesz off 3 1 _ (omega arith) (omega arith)

  gather_two :
      (x y : ℕ)
      → IsByte x
      → IsByte y
      → off + 2 ≡ filesz
      → get_elem? file (offset + (off + 0)) ≡ some x
      → get_elem? file (offset + (off + 1)) ≡ some y
      → gather file offset filesz off 4 0 0 ≡ ok (le_word x y 0 0)
  gather_two x y hx hy h ex ey =
      gather-suc file offset filesz off 3 0 0 x x (omega arith) (omega arith) ex (omega arith)
        (omega arith) (omega arith)
      ∙ gather-suc file offset filesz off 2 1 x y (le_word x y 0 0) (omega arith) (omega arith) ey
          (omega arith) (omega arith) (omega arith)
      ∙ gather-stop file offset filesz off 2 2 _ (omega arith) (omega arith)

  gather_three :
      (x y z : ℕ)
      → IsByte x
      → IsByte y
      → IsByte z
      → off + 3 ≡ filesz
      → get_elem? file (offset + (off + 0)) ≡ some x
      → get_elem? file (offset + (off + 1)) ≡ some y
      → get_elem? file (offset + (off + 2)) ≡ some z
      → gather file offset filesz off 4 0 0 ≡ ok (le_word x y z 0)
  gather_three x y z hx hy hz h ex ey ez =
      gather-suc file offset filesz off 3 0 0 x x (omega arith) (omega arith) ex (omega arith)
        (omega arith) (omega arith)
      ∙ gather-suc file offset filesz off 2 1 x y (x + y * 256) (omega arith) (omega arith) ey
          (omega arith) (omega arith) (omega arith)
      ∙ gather-suc file offset filesz off 1 2 _ z (le_word x y z 0) (omega arith) (omega arith) ez
          (omega arith) (omega arith) (omega arith)
      ∙ gather-stop file offset filesz off 1 3 _ (omega arith) (omega arith)

  gather_four :
      (x y z w : ℕ)
      → IsByte x
      → IsByte y
      → IsByte z
      → IsByte w
      → off + 3 < filesz
      → get_elem? file (offset + (off + 0)) ≡ some x
      → get_elem? file (offset + (off + 1)) ≡ some y
      → get_elem? file (offset + (off + 2)) ≡ some z
      → get_elem? file (offset + (off + 3)) ≡ some w
      → gather file offset filesz off 4 0 0 ≡ ok (le_word x y z w)
  gather_four x y z w hx hy hz hw h ex ey ez ew =
      gather-suc file offset filesz off 3 0 0 x x (omega arith) (omega arith) ex (omega arith)
        (omega arith) (omega arith)
      ∙ gather-suc file offset filesz off 2 1 x y (x + y * 256) (omega arith) (omega arith) ey
          (omega arith) (omega arith) (omega arith)
      ∙ gather-suc file offset filesz off 1 2 (x + y * 256) z (x + y * 256 + z * 65536)
          (omega arith) (omega arith) ez (omega arith) (omega arith) (omega arith)
      ∙ gather-suc file offset filesz off 0 3 _ w (le_word x y z w) (omega arith) (omega arith) ew
          (omega arith) (omega arith) (omega arith)
      ∙ gather-zero file offset filesz off 4 _

-- The bytes `rest` lie in the file at `at`.
record Holds (file : Bytes) (at : ℕ) (rest : Bytes) : Type 0 where
  holds : (j : ℕ) → j < length rest → get_elem? file (at + j) ≡ get_elem? rest j

Holds-at :
    {file : Bytes} {at : ℕ} {rest : Bytes} {p : ℕ}
    → Holds file at rest
    → (j : ℕ) → j < length rest
    → at + j ≡ p
    → get_elem? file p ≡ get_elem? rest j
Holds-at h j l e = rw (← e) (h.holds j l)

Holds-drop :
    (offset off : ℕ) {file : Bytes} {x y z w : ℕ} {rest : Bytes}
    → Holds file (offset + off) (x ∷ y ∷ z ∷ w ∷ rest)
    → Holds file (offset + (off + 4)) rest
Holds-drop offset off h = record {
  holds = λ j l. Holds-at h (suc (suc (suc (suc j)))) (omega arith) (omega arith);
}

module _ (file : Bytes) (offset filesz vaddr : ℕ) (small : filesz + 4 ≤ 2 ^ 32) where
  contents-end : (fuel off : ℕ) → filesz ≤ off → contents file offset filesz vaddr fuel off ≡ ok []
  unfolding contents
  contents-end zero off h = rw (le→not-ltb off filesz h)
  contents-end (suc fuel) off h = rw (le→not-ltb off filesz h)

  contents-suc :
      (fuel off a w : ℕ) (ws : List Word)
      → off < filesz
      → a ≡ u32 (vaddr + off)
      → gather file offset filesz off 4 0 0 ≡ ok w
      → contents file offset filesz vaddr fuel (off + 4) ≡ ok ws
      → contents file offset filesz vaddr (suc fuel) off
        ≡ ok (record { byte_addr = a; value = w } ∷ ws)
  unfolding contents
  contents-suc fuel off a w ws h ea eg ec =
      rw (lt→ltb off filesz h, eg, mod_small (off + 4) (omega arith), ec, ea)

  -- From any offset on, the loop emits the reference words of the bytes that are left.
  contents-chunks_from :
      (fuel off a : ℕ) (rest : Bytes)
      → off + length rest ≡ filesz
      → length rest ≤ 4 * fuel
      → a ≡ u32 (vaddr + off)
      → All IsByte rest
      → Holds file (offset + off) rest
      → contents file offset filesz vaddr fuel off ≡ ok (chunks a rest)
  unfolding chunks
  contents-chunks_from fuel off a [] e f ea b h = contents-end fuel off (omega arith)
  contents-chunks_from zero off a (x ∷ rest) e f ea b h = absurd (omega arith)
  contents-chunks_from (suc fuel) off a (x ∷ []) e f ea b h =
      contents-suc fuel off a _ [] (omega arith) ea
        (gather_one file offset filesz off (omega arith) x b.0 e
          (Holds-at h 0 (omega arith) (omega arith)))
        (contents-end fuel _ (omega arith))
  contents-chunks_from (suc fuel) off a (x ∷ y ∷ []) e f ea b h =
      contents-suc fuel off a _ [] (omega arith) ea
        (gather_two file offset filesz off (omega arith) x y b.0 b.1.0 e
          (Holds-at h 0 (omega arith) (omega arith)) (Holds-at h 1 (omega arith) (omega arith)))
        (contents-end fuel _ (omega arith))
  contents-chunks_from (suc fuel) off a (x ∷ y ∷ z ∷ []) e f ea b h =
      contents-suc fuel off a _ [] (omega arith) ea
        (gather_three file offset filesz off (omega arith) x y z b.0 b.1.0 b.1.1.0 e
          (Holds-at h 0 (omega arith) (omega arith)) (Holds-at h 1 (omega arith) (omega arith))
          (Holds-at h 2 (omega arith) (omega arith)))
        (contents-end fuel _ (omega arith))
  contents-chunks_from (suc fuel) off a (x ∷ y ∷ z ∷ w ∷ rest) e f ea b h =
      contents-suc fuel off a _ (chunks (u32 (a + 4)) rest) (omega arith) ea
        (gather_four file offset filesz off (omega arith) x y z w b.0 b.1.0 b.1.1.0 b.1.1.1.0
          (omega arith) (Holds-at h 0 (omega arith) (omega arith))
          (Holds-at h 1 (omega arith) (omega arith)) (Holds-at h 2 (omega arith) (omega arith))
          (Holds-at h 3 (omega arith) (omega arith)))
        (contents-chunks_from fuel (off + 4) (u32 (a + 4)) rest (omega arith) (omega arith)
          (omega arith) b.1.1.1.1 (Holds-drop offset off h))

  -- So a segment whose bytes lie in the file is emitted word for word.
  pub contents-chunks :
      offset + filesz ≤ length file
      → All IsByte file
      → contents file offset filesz vaddr (filesz / 4 + 1) 0
        ≡ ok (chunks (u32 vaddr) (take filesz (drop offset file)))
  contents-chunks inside b =
      let bytes = take filesz (drop offset file) in
      contents-chunks_from (filesz / 4 + 1) 0 (u32 vaddr) bytes
        (omega (arith, length-take filesz (drop offset file), length-drop offset file))
        (omega (arith, length-take filesz (drop offset file), length-drop offset file))
        (omega arith) (All-take IsByte filesz _ (All-drop IsByte offset file b))
        (record {
          holds = λ j l.
              get_elem?-take-drop file offset filesz (offset + 0) j
                (omega (arith, length-take filesz (drop offset file))) (omega arith);
        })
