-- ===== src/Linux/Blob/Copy.antt =====
-- What `load_blob_at` leaves in the DDR model: the file where it belongs, all else as it was.
use qinglong_core.Prelude.{
  ℕ, zero, suc, ◌+◌, ◌-◌, ◌*◌, ◌/◌, ◌%◌, ◌≤◌, ◌<◌, ◌≡◌, ◌∙◌, ap, u32, u64, sub32, ltb, leb, ◌&&◌,
  Bytes, IsByte, All, if◌then◌else◌, length, arith, inl, inr, le→not-ltb, Bool, true, false,
  Bool-cases, ◌==◌,
}
use qinglong_core.Dpi.{Mem, ddr_dpi_write, ddr_size}
use qinglong_core.Elf.Segments.Chunks.{byte_of}
use qinglong_core.Linux.Blob.{pack, copy_words, place_blob, loaded, ddr_base, ddr_bytes}
use qinglong_core.Linux.Blob.Word.{byte_or, pack_byte}

abbrev pub covers : ℕ → ℕ → ℕ → Bool
covers lo hi n = leb lo n && ltb n hi

write-mem :
    (a v n : ℕ) (m : Mem)
    → a < ddr_size
    → ddr_dpi_write (u32 a) v m n ≡ (if covers a (a + 1) n then v else m n)
unfolding ddr_dpi_write
write-mem a v n m h = let k : u32 a ≡ a = omega arith in rw k (ground arith)

copy_words-mem :
    (buf : Bytes) (base left i n : ℕ) (m : Mem)
    → base + i + left ≤ ddr_size
    → copy_words buf base left i m n
      ≡ (if covers (base + i) (base + i + left) n then pack buf (n - base) 4 0 0 else m n)
unfolding copy_words
copy_words-mem buf base zero i n m h = ground arith
copy_words-mem buf base (suc left) i n m h =
    let w = write-mem (base + i) (pack buf i 4 0 0) n m (omega arith) in
    copy_words-mem buf base left (i + 1) n (ddr_dpi_write (u32 (base + i)) (pack buf i 4 0 0) m)
      (omega arith)
    ∙ (elim (Bool-cases (n == base + i)) [
      | inl e ↦
          let d : n - base ≡ i = ground arith in ground (arith, w, ap (λ k. pack buf k 4 0 0) d)
      | inr e ↦ ground (arith, w)
    ])

-- The index of the first word, and the number of words.
abbrev pub first_word : ℕ → ℕ
first_word addr = (addr - ddr_base) / 4

abbrev pub word_count : Bytes → ℕ
word_count buf = (length buf + 3) / 4

-- A file of plain size that lies in the aperture.
pub record IsInDdr (addr : ℕ) (buf : Bytes) : Type 0 where
  pub from_base : 0x40000000 ≤ addr
  pub below_end : addr + length buf ≤ 0x48000000

-- In the aperture, the call succeeds, and every word of the memory is the file's or the old one.
pub place_blob-mem :
    (buf : Bytes) (addr : ℕ) (m : Mem)
    → IsInDdr addr buf
    → addr % 4 ≡ 0
    → (m' : Mem) × (place_blob buf addr m ≡ loaded m')
      × ((n : ℕ)
          → m' n ≡ (
              if covers (first_word addr) (first_word addr + word_count buf) n
              then pack buf (n - first_word addr) 4 0 0
              else m n))
unfolding place_blob
place_blob-mem buf addr m d al =
    let offs : sub32 addr ddr_base ≡ addr - ddr_base = omega (arith, d) in
    let count : u64 (length buf + 3) / 4 ≡ word_count buf = omega (arith, d) in
    (
      copy_words buf (first_word addr) (word_count buf) 0 m,
      rw (
        le→not-ltb addr ddr_base (omega (arith, d)),
        offs,
        le→not-ltb ddr_bytes (u64 (addr - ddr_base + length buf)) (omega (arith, d)),
        count,
      ),
      λ n.
          copy_words-mem buf (first_word addr) (word_count buf) 0 n m (omega (arith, d))
          ∙ ground arith,
    )

-- The byte of the memory at an address of the aperture.
abbrev pub ddr_byte : Mem → ℕ → ℕ
ddr_byte m a = byte_of (m (first_word a)) (a % 4)

-- The file lies at `addr` in `m'`, padded with zeros to whole words; other words are those of `m`.
pub record Placed (buf : Bytes) (addr : ℕ) (m m' : Mem) : Type 0 where
  pub has_bytes : (j : ℕ) → j < word_count buf * 4 → ddr_byte m' (addr + j) ≡ byte_or buf j
  pub keeps :
      (n : ℕ) → covers (first_word addr) (first_word addr + word_count buf) n ≡ false → m' n ≡ m n

placed_byte :
    (buf : Bytes) (addr : ℕ) (m m' : Mem)
    → All IsByte buf
    → IsInDdr addr buf
    → addr % 4 ≡ 0
    → ((n : ℕ)
        → m' n ≡ (
            if covers (first_word addr) (first_word addr + word_count buf) n
            then pack buf (n - first_word addr) 4 0 0
            else m n))
    → (j : ℕ) → j < word_count buf * 4
    → ddr_byte m' (addr + j) ≡ byte_or buf j
placed_byte buf addr m m' b d al each j h =
    let n : ℕ = first_word (addr + j) in
    let at : n - first_word addr ≡ j / 4 = omega (arith, d) in
    let place : (addr + j) % 4 ≡ j % 4 = omega (arith, d) in
    let split : j / 4 * 4 + j % 4 ≡ j = omega arith in
    let inside : covers (first_word addr) (first_word addr + word_count buf) n ≡ true =
      ground (arith, d) in
    ap (λ v. byte_of v ((addr + j) % 4)) (each n ∙ rw inside (ap (λ k. pack buf k 4 0 0) at))
    ∙ ap (byte_of (pack buf (j / 4) 4 0 0)) place
    ∙ pack_byte buf (j / 4) (j % 4) b (omega arith)
    ∙ ap (byte_or buf) split

-- A file of bytes that fits the aperture at a word-aligned address is loaded: the call succeeds, each
-- byte of the file is at its address, the last word is padded with zeros, and no other word changes.
pub place_blob-Placed :
    (buf : Bytes) (addr : ℕ) (m : Mem)
    → All IsByte buf
    → IsInDdr addr buf
    → addr % 4 ≡ 0
    → (m' : Mem) × (place_blob buf addr m ≡ loaded m') × Placed buf addr m m'
place_blob-Placed buf addr m b d al =
    let (m', e, each) = place_blob-mem buf addr m d al in
    (
      m',
      e,
      record {
        has_bytes = placed_byte buf addr m m' b d al each;
        keeps = λ n out. each n ∙ rw out;
      },
    )
