-- ===== src/Sim/Load/Whole.antt =====
-- The contents of every segment of an ELF file in the SRAM after the loading of the whole file.
use qinglong_core.Prelude.{
  ℕ, ◌+◌, ◌-◌, ◌*◌, ◌%◌, ◌≤◌, ◌<◌, ◌≡◌, refl, sym, ap, ◌∙◌, ◌⊎◌, inl, inr, u32, List, [], ◌∷◌, ◌++◌,
  Option, some, none, length, take, drop, arith, Bytes, IsByte, All, get_elem?, length-take,
  length-drop,
}
use qinglong_core.Elf.Outcome.{ok}
use qinglong_core.Elf.File.{word_at, half_at}
use qinglong_core.Elf.Load.{LoadedElf, load_elf32, check_header, load_body}
use qinglong_core.Elf.Segments.{Word, Phdr, load_addr, segments}
use qinglong_core.Elf.Segments.Image.{IsLoadable, segment_words, blank_words}
use qinglong_core.Elf.Segments.Table.{Table, image_words, image_words-append, segments-image_words}
use qinglong_core.Sim.Load.{Loading, load_words}
use qinglong_core.Sim.Load.Image.{last_at}
use qinglong_core.Sim.Load.Contents.{
  chunks_below, chunks_above, blanks_below, blanks_above, last_at-append,
}
use qinglong_core.Sim.Load.Segment.{
  IsInSram, TailAligned, index_of, sram_byte, segment_loaded, zero_loaded,
}

-- All words of the segment lie above the word of the address, or all below it.
abbrev pub Apart : ℕ → Phdr → Type 0
Apart a ph =
    (a - a % 4 + 4 ≤ load_addr ph) ⊎ (load_addr ph + ph.p_filesz + 4 * blank_words ph ≤ a - a % 4)

none_append :
    (i : ℕ) (xs ys : List Word)
    → last_at i xs ≡ none
    → last_at i ys ≡ none
    → last_at i (xs ++ ys) ≡ none
none_append i xs ys x y = last_at-append i xs ys ∙ both (last_at i xs) (last_at i ys) x y
  where
    both : (u v : Option ℕ) → u ≡ none → v ≡ none → (elim v [ some k ↦ some k | none ↦ u ]) ≡ none
    both u v eu ev = rw (ev, eu) refl

contents_length :
    (file : Bytes) (ph : Phdr)
    → IsLoadable file ph
    → length (take ph.p_filesz (drop ph.p_offset file)) ≡ ph.p_filesz
contents_length file ph fits =
    omega
      (arith, fits, length-take ph.p_filesz (drop ph.p_offset file), length-drop ph.p_offset file)

Apart-last_at :
    (file : Bytes) (ph : Phdr) (a : ℕ)
    → IsLoadable file ph
    → IsInSram ph
    → 0x80000000 ≤ a
    → Apart a ph
    → last_at (index_of a) (segment_words file ph) ≡ none
unfolding segment_words
Apart-last_at file ph a fits place base (inl below) =
    let len = contents_length file ph fits in
    none_append (index_of a) _ _
      (chunks_below (index_of a) (u32 (load_addr ph)) (take ph.p_filesz (drop ph.p_offset file))
        (omega (arith, place, len)) (omega (arith, place, below, base)))
      (blanks_below (index_of a) (blank_words ph) (u32 (load_addr ph + ph.p_filesz))
        (omega (arith, place)) (omega (arith, place)) (omega (arith, place, below, base)))
Apart-last_at file ph a fits place base (inr above) =
    let len = contents_length file ph fits in
    none_append (index_of a) _ _
      (chunks_above (index_of a) (u32 (load_addr ph)) (take ph.p_filesz (drop ph.p_offset file))
        (omega (arith, place, len)) (omega (arith, place, above, base, len)))
      (blanks_above (index_of a) (blank_words ph) (u32 (load_addr ph + ph.p_filesz))
        (omega (arith, place)) (omega (arith, place)) (omega (arith, place, above, base)))

-- The words of segments that all lie apart from an address.
image-Apart :
    (file : Bytes) (phs : List Phdr) (a : ℕ)
    → 0x80000000 ≤ a
    → All (IsLoadable file) phs
    → All IsInSram phs
    → All (Apart a) phs
    → last_at (index_of a) (image_words file phs) ≡ none
unfolding image_words last_at
image-Apart file [] a base fits place apart = refl
image-Apart file (ph ∷ phs) a base (fit, fits) (put, places) (off, apart) =
    none_append (index_of a) (segment_words file ph) (image_words file phs)
      (Apart-last_at file ph a fit put base off) (image-Apart file phs a base fits places apart)

words_of :
    (file : Bytes) (elf : LoadedElf) (phoff phnum : ℕ) (ws : List Word)
    → load_elf32 file ≡ ok elf
    → word_at file 28 ≡ ok phoff
    → half_at file 44 ≡ ok phnum
    → segments file phnum phoff ≡ ok ws
    → elf.words ≡ ws
unfolding load_elf32 check_header load_body
words_of file elf phoff phnum ws e po pn s = ground (arith, e, po, pn, s)

-- The segment in the middle, and those behind it.
from_middle :
    (P : Phdr → Type 0) (before after : List Phdr) (ph : Phdr)
    → All P (before ++ ph ∷ after)
    → P ph × All P after
from_middle P [] after ph h = h
from_middle P (q ∷ before) after ph (x, h) = from_middle P before after ph h

image_middle :
    (file : Bytes) (before after : List Phdr) (ph : Phdr)
    → image_words file (before ++ ph ∷ after)
      ≡ image_words file before ++ (segment_words file ph ++ image_words file after)
unfolding image_words
image_middle file before after ph = image_words-append file before (ph ∷ after)

-- A file that load_elf32 accepts, loaded as a whole: for each of its PT_LOAD segments, every byte of
-- the contents is at its address in the SRAM, if no segment behind it in the table has a word there.
-- The segments lie in the file and are shorter than the counters' range; this one and those behind it
-- are at word-aligned addresses in the SRAM, and its zeros, if it has any, begin at a word.
pub load_elf32-load_words :
    (file : Bytes) (elf : LoadedElf) (phoff phnum : ℕ) (before after : List Phdr) (ph : Phdr)
    (l : Loading) (j : ℕ)
    → All IsByte file
    → load_elf32 file ≡ ok elf
    → word_at file 28 ≡ ok phoff
    → half_at file 44 ≡ ok phnum
    → Table file phnum phoff (before ++ ph ∷ after)
    → All (IsLoadable file) (before ++ ph ∷ after)
    → All IsInSram (ph ∷ after)
    → TailAligned ph
    → j < ph.p_filesz
    → All (Apart (load_addr ph + j)) after
    → get_elem? file (ph.p_offset + j)
      ≡ some (sram_byte (load_words elf.words l).mem (load_addr ph + j))
load_elf32-load_words file elf phoff phnum before after ph l j b e po pn table fits (place, places)
      tail h apart =
    let (fit, fits_after) = from_middle (IsLoadable file) before after ph fits in
    let ws =
      words_of file elf phoff phnum _ e po pn (segments-image_words file b table fits)
      ∙ image_middle file before after ph in
    segment_loaded file ph fit place b tail (image_words file before) (image_words file after) l j h
      (image-Apart file after (load_addr ph + j) (omega (arith, place)) fits_after places apart)
    ∙ ap (λ (w : List Word). some (sram_byte (load_words w l).mem (load_addr ph + j))) (sym ws)

-- A file that load_elf32 accepts, loaded as a whole: for each of its PT_LOAD segments with
-- p_memsz > p_filesz, the bytes from p_filesz, rounded down to a multiple of 4, up to the end of the
-- last word of zeros read as 0, if no segment behind it in the table has a word there. Where p_filesz
-- is no multiple of 4 these bytes include the last p_filesz % 4 bytes of the contents, whatever the
-- file holds there. The segments lie in the file and are shorter than the counters' range; this one
-- and those behind it are at word-aligned addresses in the SRAM.
pub load_elf32_zeroed :
    (file : Bytes) (elf : LoadedElf) (phoff phnum : ℕ) (before after : List Phdr) (ph : Phdr)
    (l : Loading) (j : ℕ)
    → All IsByte file
    → load_elf32 file ≡ ok elf
    → word_at file 28 ≡ ok phoff
    → half_at file 44 ≡ ok phnum
    → Table file phnum phoff (before ++ ph ∷ after)
    → All (IsLoadable file) (before ++ ph ∷ after)
    → All IsInSram (ph ∷ after)
    → ph.p_filesz - ph.p_filesz % 4 ≤ j
    → j < ph.p_filesz - ph.p_filesz % 4 + 4 * blank_words ph
    → All (Apart (load_addr ph + j)) after
    → sram_byte (load_words elf.words l).mem (load_addr ph + j) ≡ 0
load_elf32_zeroed file elf phoff phnum before after ph l j b e po pn table fits (place, places) lo
      hi apart =
    let (fit, fits_after) = from_middle (IsLoadable file) before after ph fits in
    let ws =
      words_of file elf phoff phnum _ e po pn (segments-image_words file b table fits)
      ∙ image_middle file before after ph in
    ap (λ (w : List Word). sram_byte (load_words w l).mem (load_addr ph + j)) ws
    ∙ zero_loaded file ph fit place (image_words file before) (image_words file after) l j
        (omega (arith, place)) (omega (arith, place))
        (image-Apart file after (load_addr ph + j) (omega (arith, place)) fits_after places apart)
