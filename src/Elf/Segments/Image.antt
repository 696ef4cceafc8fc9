-- ===== src/Elf/Segments/Image.antt =====
-- What one segment becomes: the reference words of its contents, then the zero words.
use qinglong_core.Prelude.{
  ℕ, ◌+◌, ◌-◌, ◌/◌, ◌^◌, ◌≤◌, ◌≡◌, Bytes, IsByte, u32, List, ◌++◌, inl, inr, length, take, drop,
  All, arith, le_or_lt, refl,
}
use qinglong_core.Elf.Outcome.{ok}
use qinglong_core.Elf.Segments.{Word, Phdr, load_addr, zeros, load_segment}
use qinglong_core.Elf.Segments.Chunks.{chunks}
use qinglong_core.Elf.Segments.Contents.{contents-chunks}
use qinglong_core.Elf.Segments.Zeros.{blanks, zeros-blanks, zeros-end}

-- The number of zero words.
abbrev pub blank_words : Phdr → ℕ
blank_words ph = (ph.p_memsz - ph.p_filesz + 3) / 4

unfoldable pub segment_words : Bytes → Phdr → List Word
unfolding chunks blanks
segment_words file ph =
    chunks (u32 (load_addr ph)) (take ph.p_filesz (drop ph.p_offset file))
    ++ blanks (u32 (load_addr ph + ph.p_filesz)) (blank_words ph)

-- A segment that the file holds and the counters can count through.
pub record IsLoadable (file : Bytes) (ph : Phdr) : Type 0 where
  pub inside : ph.p_offset + ph.p_filesz ≤ length file
  pub filesz_fits : ph.p_filesz + 4 ≤ 2 ^ 32
  pub memsz_fits : ph.p_memsz + 4 ≤ 2 ^ 32

zeros_fill :
    (memsz filesz vaddr : ℕ)
    → memsz + 4 ≤ 2 ^ 32
    → zeros memsz vaddr ((memsz - filesz) / 4 + 1) filesz
      ≡ ok (blanks (u32 (vaddr + filesz)) ((memsz - filesz + 3) / 4))
unfolding blanks
zeros_fill memsz filesz vaddr small = elim (le_or_lt memsz filesz) [
  | inl h ↦
      let none_left : (memsz - filesz + 3) / 4 ≡ 0 = omega arith in
      rw none_left (zeros-end memsz vaddr small _ filesz h)
  | inr h ↦
      zeros-blanks memsz vaddr small ((memsz - filesz + 3) / 4) _ filesz _ (omega arith)
        (omega arith) (omega arith) refl
]

-- A loadable segment is emitted in full: no read leaves the file, both loops end within their
-- fuel, and the words are the little-endian contents followed by the zero words.
pub load_segment_lem :
    (file : Bytes) (ph : Phdr)
    → IsLoadable file ph
    → All IsByte file
    → load_segment file ph ≡ ok (segment_words file ph)
unfolding load_segment segment_words
load_segment_lem file ph fits b = rw (
  contents-chunks file ph.p_offset ph.p_filesz (load_addr ph) fits.filesz_fits fits.inside b,
  zeros_fill ph.p_memsz ph.p_filesz (load_addr ph) fits.memsz_fits,
)
