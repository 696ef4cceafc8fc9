-- ===== src/Sim/Load/Segment.antt =====
-- A segment of the ELF file in the SRAM, byte by byte: its contents and its words of zeros.
use qinglong_core.Prelude.{
  ℕ, zero, suc, sym, ◌+◌, ◌-◌, ◌/◌, ◌%◌, ◌≤◌, ◌<◌, ◌≡◌, refl, ◌⊎◌, inl, inr, u32, List, ◌++◌, some,
  none, length, take, drop, arith, Bytes, IsByte, All, get_elem?, length-take, length-drop,
  All-take, All-drop, get_elem?-take-drop, ◌∙◌, ap,
}
use qinglong_core.Dpi.{Mem}
use qinglong_core.Elf.Segments.{Word, Phdr, load_addr}
use qinglong_core.Elf.Segments.Chunks.{chunks, byte_of}
use qinglong_core.Elf.Segments.Zeros.{blanks}
use qinglong_core.Elf.Segments.Image.{IsLoadable, segment_words, blank_words}
use qinglong_core.Sim.Load.{Loading, load_words, sram_base}
use qinglong_core.Sim.Load.Image.{last_at, load_words-mem}
use qinglong_core.Sim.Load.Contents.{chunks-Lands, blanks_below, blanks_zero, last_at-append}

-- The index of an address in the SRAM, and the byte there.
abbrev pub index_of : ℕ → ℕ
index_of a = (a - sram_base) / 4

abbrev pub sram_byte : Mem → ℕ → ℕ
sram_byte m a = byte_of (m (index_of a)) (a % 4)

-- A segment at a word-aligned address that lies in the 64 KiB of the SRAM.
pub record IsInSram (ph : Phdr) : Type 0 where
  pub aligned : load_addr ph % 4 ≡ 0
  pub from_base : 0x80000000 ≤ load_addr ph
  pub file_below : load_addr ph + ph.p_filesz ≤ 0x80010000
  pub mem_below : load_addr ph + ph.p_memsz ≤ 0x80010000

-- No byte is filled with zeros, or the zeros begin at a word.
abbrev pub TailAligned : Phdr → Type 0
TailAligned ph = (ph.p_memsz ≤ ph.p_filesz) ⊎ (ph.p_filesz % 4 ≡ 0)

module _ (file : Bytes) (ph : Phdr) (fits : IsLoadable file ph) (place : IsInSram ph) where
  abbrev contents_bytes : Bytes
  contents_bytes = take ph.p_filesz (drop ph.p_offset file)

  length-contents_bytes : length contents_bytes ≡ ph.p_filesz
  length-contents_bytes =
      omega
        (arith, fits, length-take ph.p_filesz (drop ph.p_offset file), length-drop ph.p_offset file)

  -- The place of byte `j` in the words of the segment.
  record Placed (j : ℕ) : Type 0 where
    word : ℕ
    placed : last_at (index_of (load_addr ph + j)) (segment_words file ph) ≡ some word
    has_byte : get_elem? file (ph.p_offset + j) ≡ some (byte_of word ((load_addr ph + j) % 4))

  -- The zero words begin behind the word of byte `j`.
  blanks_behind :
      TailAligned ph
      → (j : ℕ) → j < ph.p_filesz
      → last_at
          (index_of (load_addr ph + j))
          (blanks (u32 (load_addr ph + ph.p_filesz)) (blank_words ph))
        ≡ none
  unfolding blanks last_at
  blanks_behind (inl none_left) j h = let n : blank_words ph ≡ 0 = omega arith in rw n
  blanks_behind (inr whole) j h =
      blanks_below _ (blank_words ph) (u32 (load_addr ph + ph.p_filesz)) (omega (arith, place))
        (omega (arith, place)) (omega (arith, place))

  segment-Placed : All IsByte file → TailAligned ph → (j : ℕ) → j < ph.p_filesz → Placed j
  unfolding segment_words
  segment-Placed b t j h =
      let r =
        chunks-Lands j (index_of (load_addr ph + j)) (u32 (load_addr ph)) contents_bytes
          (omega (arith, place, length-contents_bytes))
          (All-take IsByte ph.p_filesz _ (All-drop IsByte ph.p_offset file b))
          (omega (arith, length-contents_bytes)) (omega (arith, place)) in
      let same : (load_addr ph + j) % 4 ≡ j % 4 = omega (arith, place) in
      record {
        word = r.word;
        placed =
            rw
              (
                last_at-append (index_of (load_addr ph + j))
                    (chunks (u32 (load_addr ph)) contents_bytes) _,
                blanks_behind t j h,
              )
              r.lands_last;
        has_byte =
            get_elem?-take-drop file ph.p_offset ph.p_filesz ph.p_offset j h refl
            ∙ r.has_byte
            ∙ ap (λ k. some (byte_of r.word k)) (sym same);
      }

  -- In any list of words that holds the segment's, followed by words that land elsewhere, the loop
  -- puts byte `j` of the contents at its address, little end first, for every `j`.
  pub segment_loaded :
      All IsByte file
      → TailAligned ph
      → (before rest : List Word) (l : Loading) (j : ℕ) → j < ph.p_filesz
      → last_at (index_of (load_addr ph + j)) rest ≡ none
      → get_elem? file (ph.p_offset + j)
        ≡ some (
            sram_byte
              (load_words (before ++ (segment_words file ph ++ rest)) l).mem
              (load_addr ph + j))
  segment_loaded b t before rest l j h away =
      let p = segment-Placed b t j h in
      let i = index_of (load_addr ph + j) in
      rw
        (
          load_words-mem (before ++ (segment_words file ph ++ rest)) l i,
          last_at-append i before (segment_words file ph ++ rest),
          last_at-append i (segment_words file ph) rest,
          away,
          p.placed,
        )
        p.has_byte

  -- The index of any address from the end of the contents on up to the end of the segment gets a
  -- zero word, if the segment has such an address.
  zeros_placed :
      (i : ℕ)
      → index_of (load_addr ph + ph.p_filesz) ≤ i
      → i < index_of (load_addr ph + ph.p_filesz) + blank_words ph
      → last_at i (segment_words file ph) ≡ some 0
  unfolding segment_words
  zeros_placed i lo hi = rw (
    last_at-append i (chunks (u32 (load_addr ph)) contents_bytes) _,
    blanks_zero i (blank_words ph) (u32 (load_addr ph + ph.p_filesz)) (omega (arith, place))
        (omega (arith, place)) (omega (arith, place)) (omega (arith, place)),
  )

  zero_byte : (k : ℕ) → byte_of 0 k ≡ 0
  unfolding byte_of
  zero_byte zero = refl
  zero_byte (suc k) = zero_byte k

  -- In any list of words that holds the segment's, followed by words that land elsewhere, an address
  -- in the words of zeros reads as 0.
  pub zero_loaded :
      (before rest : List Word) (l : Loading) (j : ℕ)
      → index_of (load_addr ph + ph.p_filesz) ≤ index_of (load_addr ph + j)
      → index_of (load_addr ph + j) < index_of (load_addr ph + ph.p_filesz) + blank_words ph
      → last_at (index_of (load_addr ph + j)) rest ≡ none
      → sram_byte (load_words (before ++ (segment_words file ph ++ rest)) l).mem (load_addr ph + j)
        ≡ 0
  zero_loaded before rest l j lo hi away =
      let i = index_of (load_addr ph + j) in
      rw
        (
          load_words-mem (before ++ (segment_words file ph ++ rest)) l i,
          last_at-append i before (segment_words file ph ++ rest),
          last_at-append i (segment_words file ph) rest,
          away,
          zeros_placed i lo hi,
        )
        (zero_byte ((load_addr ph + j) % 4))
