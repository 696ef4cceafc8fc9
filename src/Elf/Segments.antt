-- ===== src/Elf/Segments.antt =====
-- The walk over the program headers in `load_elf32`: each PT_LOAD segment becomes a list of words.
pub mod Chunks
pub mod Contents
pub mod Zeros
pub mod Image
pub mod Table
use qinglong_core.Prelude.{
  ℕ, zero, suc, ◌+◌, ◌-◌, ◌*◌, ◌/◌, bit_or, Bytes, u32, ◌<<<◌, ltb, ◌==◌, if◌then◌else◌, List, [],
  ◌∷◌, ◌++◌,
}
use qinglong_core.Elf.Outcome.{Outcome, ok, hang, ◌>>=◌}
use qinglong_core.Elf.File.{byte_at, word_at, sizeof_phdr, pt_load}

-- LoadedElf::Word; `value` is the field `data`.
pub record Word : Type 0 where
  pub byte_addr : ℕ
  pub value : ℕ

-- `for (int b = 0; b < 4 && (off + b) < filesz; ++b) w |= uint32_t(data[off + b]) << (8 * b);`
-- with `left` rounds of `b < 4` to go; `data` is the file from `offset`.
unfoldable pub gather : Bytes → ℕ → ℕ → ℕ → ℕ → ℕ → ℕ → Outcome ℕ
unfolding byte_at
gather file offset filesz off zero b w = ok w
gather file offset filesz off (suc left) b w =
    let more = (do
      x ← byte_at file (offset + u32 (off + b))
      gather file offset filesz off left (b + 1) (bit_or w (u32 (x <<< (8 * b))))) in
    if ltb (u32 (off + b)) filesz then more else ok w

-- The loop that emits the words of the file contents. `off` is a uint32_t and may wrap.
unfoldable pub contents : Bytes → ℕ → ℕ → ℕ → ℕ → ℕ → Outcome (List Word)
unfolding gather
contents file offset filesz vaddr zero off = if ltb off filesz then hang else ok []
contents file offset filesz vaddr (suc fuel) off =
    let more = (do
      w ← gather file offset filesz off 4 0 0
      ws ← contents file offset filesz vaddr fuel (u32 (off + 4))
      ok (record { byte_addr = u32 (vaddr + off); value = w } ∷ ws)) in
    if ltb off filesz then more else ok []

-- The loop that zero-fills from `filesz` up to `memsz`.
unfoldable pub zeros : ℕ → ℕ → ℕ → ℕ → Outcome (List Word)
zeros memsz vaddr zero off = if ltb off memsz then hang else ok []
zeros memsz vaddr (suc fuel) off =
    let more = (do
      ws ← zeros memsz vaddr fuel (u32 (off + 4))
      ok (record { byte_addr = u32 (vaddr + off); value = 0 } ∷ ws)) in
    if ltb off memsz then more else ok []

-- The fields of a program header that the loop reads once its type is PT_LOAD.
pub record Phdr : Type 0 where
  pub p_offset : ℕ
  pub p_vaddr : ℕ
  pub p_paddr : ℕ
  pub p_filesz : ℕ
  pub p_memsz : ℕ

-- `vaddr`: the physical address if there is one.
unfoldable pub load_addr : Phdr → ℕ
load_addr ph = if ph.p_paddr == 0 then ph.p_vaddr else ph.p_paddr

-- The two loops of one segment. Each round but the last adds 4 to `off`, hence the fuel.
unfoldable pub load_segment : Bytes → Phdr → Outcome (List Word)
unfolding contents zeros load_addr
load_segment file ph = do
  ws ← contents file ph.p_offset ph.p_filesz (load_addr ph) (ph.p_filesz / 4 + 1) 0
  zs ← zeros ph.p_memsz (load_addr ph) ((ph.p_memsz - ph.p_filesz) / 4 + 1) ph.p_filesz
  ok (ws ++ zs)

unfoldable pub read_phdr : Bytes → ℕ → Outcome Phdr
unfolding word_at
read_phdr file at = do
  p_offset ← word_at file (at + 4)
  p_vaddr ← word_at file (at + 8)
  p_paddr ← word_at file (at + 12)
  p_filesz ← word_at file (at + 16)
  p_memsz ← word_at file (at + 20)
  ok (record {
    p_offset = p_offset;
    p_vaddr = p_vaddr;
    p_paddr = p_paddr;
    p_filesz = p_filesz;
    p_memsz = p_memsz;
  })

-- One round of the loop: `continue` unless the type is PT_LOAD.
unfoldable pub segment_at : Bytes → ℕ → Outcome (List Word)
unfolding word_at read_phdr load_segment
segment_at file at = do
  p_type ← word_at file at
  if p_type == pt_load then (do ph ← read_phdr file at; load_segment file ph) else ok []

-- The loop over the `left` headers from `at` on.
unfoldable pub segments : Bytes → ℕ → ℕ → Outcome (List Word)
unfolding segment_at
segments file zero at = ok []
segments file (suc left) at = do
  ws ← segment_at file at
  rest ← segments file left (at + sizeof_phdr)
  ok (ws ++ rest)
