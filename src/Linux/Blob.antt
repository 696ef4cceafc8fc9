-- ===== src/Linux/Blob.antt =====
-- `load_blob_at` of sim_linux.cpp: a file is copied into the DDR model, word by word.
pub mod Word
pub mod Copy
use qinglong_core.Prelude.{
  ℕ, zero, suc, ◌+◌, ◌*◌, ◌/◌, bit_or, u32, u64, sub32, ◌<<<◌, ltb, if◌then◌else◌, Bool, true,
  false, Bytes, Option, none, some, get_elem?, length,
}
use qinglong_core.Dpi.{Mem, ddr_dpi_write}

abbrev pub ddr_base : ℕ
ddr_base = 0x40000000

-- DDR_WORDS * 4
abbrev pub ddr_bytes : ℕ
ddr_bytes = 134217728

-- `if (idx < size) w |= uint32_t(buf[idx]) << (8 * b);`, on the element if there is one: `buf` has
-- `size` elements.
unfoldable pub put_byte : Option ℕ → ℕ → ℕ → ℕ
put_byte none b w = w
put_byte (some x) b w = bit_or w (u32 (x <<< (8 * b)))

-- `for (int b = 0; b < 4; ++b) { size_t idx = i * 4 + b; … }` with `left` rounds to go.
unfoldable pub pack : Bytes → ℕ → ℕ → ℕ → ℕ → ℕ
unfolding put_byte
pack buf i zero b w = w
pack buf i (suc left) b w = pack buf i left (b + 1) (put_byte (get_elem? buf (i * 4 + b)) b w)

-- The loop over the words from `i` on, with `left` to go; `int(word_base + i)` is cut to 32 bits.
unfoldable pub copy_words : Bytes → ℕ → ℕ → ℕ → Mem → Mem
copy_words buf word_base zero i m = m
copy_words buf word_base (suc left) i m =
    copy_words buf word_base left (i + 1) (ddr_dpi_write (u32 (word_base + i)) (pack buf i 4 0 0) m)

-- What the call prints before it returns false.
pub data Failure : Type 0 where
  cannot_open below_base overruns : Failure

pub data Loaded : Type 0 where
  loaded : Mem → Loaded
  failed : Failure → Loaded

-- With the file's bytes at hand. A failure comes before the first write.
unfoldable pub place_blob : Bytes → ℕ → Mem → Loaded
place_blob buf byte_addr m =
    if ltb byte_addr ddr_base
    then failed below_base
    else if ltb ddr_bytes (u64 (sub32 byte_addr ddr_base + length buf))
    then failed overruns
    else loaded (copy_words buf (sub32 byte_addr ddr_base / 4) (u64 (length buf + 3) / 4) 0 m)

-- `none` is a null path. The files are a parameter: `none` is one that cannot be opened, and the
-- size that `tellg` gives is the number of its bytes.
unfoldable pub load_blob_at : (Bytes → Option Bytes) → Option Bytes → ℕ → Mem → Loaded
load_blob_at files none byte_addr m = loaded m
load_blob_at files (some path) byte_addr m = elim (files path) [
  | none ↦ failed cannot_open
  | some buf ↦ place_blob buf byte_addr m
]
