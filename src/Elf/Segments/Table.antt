-- ===== src/Elf/Segments/Table.antt =====
-- The program header table as the list of its loadable segments, and the words of the whole file.
use qinglong_core.Prelude.{
  ℕ, zero, suc, ◌+◌, ◌≡◌, refl, ap, ◌∙◌, Bytes, IsByte, List, [], ◌∷◌, ◌++◌, ◌==◌, true, false, All,
  append_assoc, sym,
}
use qinglong_core.Elf.Outcome.{ok}
use qinglong_core.Elf.File.{word_at, sizeof_phdr, pt_load}
use qinglong_core.Elf.Segments.{Word, Phdr, read_phdr, segment_at, segments}
use qinglong_core.Elf.Segments.Image.{IsLoadable, segment_words, load_segment_lem}

-- The `left` headers from `at` on hold these segments of type PT_LOAD, in this order.
pub data Table (file : Bytes) : ℕ → ℕ → List Phdr → Type 0 where
  no_more : {at : ℕ} → Table file zero at []
  other :
      {left at : ℕ} {phs : List Phdr} (type : ℕ)
      → word_at file at ≡ ok type
      → (type == pt_load) ≡ false
      → Table file left (at + sizeof_phdr) phs
      → Table file (suc left) at phs
  loadable :
      {left at : ℕ} {phs : List Phdr} (type : ℕ) (ph : Phdr)
      → word_at file at ≡ ok type
      → (type == pt_load) ≡ true
      → read_phdr file at ≡ ok ph
      → Table file left (at + sizeof_phdr) phs
      → Table file (suc left) at (ph ∷ phs)

unfoldable pub image_words : Bytes → List Phdr → List Word
image_words file [] = []
image_words file (ph ∷ phs) = segment_words file ph ++ image_words file phs

pub image_words-append :
    (file : Bytes) (phs qs : List Phdr)
    → image_words file (phs ++ qs) ≡ image_words file phs ++ image_words file qs
unfolding image_words
image_words-append file [] qs = refl
image_words-append file (ph ∷ phs) qs =
    ap (λ (ws : List Word). segment_words file ph ++ ws) (image_words-append file phs qs)
    ∙ sym (append_assoc (segment_words file ph) (image_words file phs) (image_words file qs))

module _ (file : Bytes) (b : All IsByte file) where
  -- The loop over the headers emits the words of the segments, one after the other.
  pub segments-image_words :
      {left at : ℕ} {phs : List Phdr}
      → Table file left at phs
      → All (IsLoadable file) phs
      → segments file left at ≡ ok (image_words file phs)
  unfolding segments segment_at image_words
  segments-image_words no_more fits = refl
  segments-image_words (other type t skips rest) fits =
      rw (t, skips, segments-image_words rest fits) refl
  segments-image_words (loadable type ph t loads r rest) (fit, fits) =
      rw (t, loads, r, load_segment_lem file ph fit b, segments-image_words rest fits) refl
