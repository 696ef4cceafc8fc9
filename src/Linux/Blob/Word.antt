-- ===== src/Linux/Blob/Word.antt =====
-- A word that the copy assembles is the little-endian value of its four bytes, 0 past the end.
use qinglong_core.Prelude.{
  ℕ, zero, suc, ◌+◌, ◌*◌, ◌^◌, ◌<◌, ◌≡◌, refl, ◌∙◌, u32, Bytes, IsByte, All, Option, none, some,
  get_elem?, arith, [], ◌∷◌,
}
use qinglong_core.Prelude.Bits.{low-bit_or}
use qinglong_core.Elf.Segments.Chunks.{le_word, byte_of, fourth_of, le_word_byte}
use qinglong_core.Linux.Blob.{pack, put_byte}

abbrev pub or_zero : Option ℕ → ℕ
or_zero none = 0
or_zero (some x) = x

pub byte_or : Bytes → ℕ → ℕ
byte_or buf j = or_zero (get_elem? buf j)

byte_or-lt : (buf : Bytes) (j : ℕ) → All IsByte buf → byte_or buf j < 256
unfolding byte_or
byte_or-lt [] j b = omega arith
byte_or-lt (x ∷ buf) zero b = b.0
byte_or-lt (x ∷ buf) (suc j) b = byte_or-lt buf j b.1

put_byte-sum :
    (o : Option ℕ) (b w : ℕ)
    → w < 2 ^ (8 * b)
    → or_zero o * 2 ^ (8 * b) < 2 ^ 32
    → put_byte o b w ≡ w + or_zero o * 2 ^ (8 * b)
unfolding put_byte
put_byte-sum none b w wf f = omega arith
put_byte-sum (some x) b w wf f =
    let k : u32 (x * 2 ^ (8 * b)) ≡ x * 2 ^ (8 * b) = omega arith in
    rw k (low-bit_or (8 * b) w x wf)

pack-suc :
    (buf : Bytes) (i left b w w' : ℕ)
    → w < 2 ^ (8 * b)
    → byte_or buf (i * 4 + b) * 2 ^ (8 * b) < 2 ^ 32
    → w + byte_or buf (i * 4 + b) * 2 ^ (8 * b) ≡ w'
    → pack buf i (suc left) b w ≡ pack buf i left (b + 1) w'
unfolding pack byte_or
pack-suc buf i left b w w' wf f e = rw (put_byte-sum (get_elem? buf (i * 4 + b)) b w wf f, e)

pack-zero : (buf : Bytes) (i b w : ℕ) → pack buf i 0 b w ≡ w
unfolding pack
pack-zero buf i b w = refl

-- Bytes `4 * i` to `4 * i + 3`, least significant first.
pub pack_word :
    (buf : Bytes) (i : ℕ)
    → All IsByte buf
    → pack buf i 4 0 0
      ≡ le_word
          (byte_or buf (i * 4 + 0))
          (byte_or buf (i * 4 + 1))
          (byte_or buf (i * 4 + 2))
          (byte_or buf (i * 4 + 3))
pack_word buf i all =
    let x = byte_or buf (i * 4 + 0) in
    let y = byte_or buf (i * 4 + 1) in
    let z = byte_or buf (i * 4 + 2) in
    let w = byte_or buf (i * 4 + 3) in
    let hx = byte_or-lt buf (i * 4 + 0) all in
    let hy = byte_or-lt buf (i * 4 + 1) all in
    let hz = byte_or-lt buf (i * 4 + 2) all in
    let hw = byte_or-lt buf (i * 4 + 3) all in
    pack-suc buf i 3 0 0 x (omega arith) (omega arith) (omega arith)
    ∙ pack-suc buf i 2 1 x (x + y * 256) (omega arith) (omega arith) (omega arith)
    ∙ pack-suc buf i 1 2 (x + y * 256) (x + y * 256 + z * 65536) (omega arith) (omega arith)
        (omega arith)
    ∙ pack-suc buf i 0 3 (x + y * 256 + z * 65536) (le_word x y z w) (omega arith) (omega arith)
        (omega arith)
    ∙ pack-zero buf i 4 (le_word x y z w)

-- Byte `k` of the assembled word is byte `4 * i + k` of the file.
pub pack_byte :
    (buf : Bytes) (i k : ℕ)
    → All IsByte buf
    → k < 4
    → byte_of (pack buf i 4 0 0) k ≡ byte_or buf (i * 4 + k)
pack_byte buf i k all h = rw (pack_word buf i all) (
    le_word_byte _ _ _ _ (byte_or-lt buf _ all) (byte_or-lt buf _ all) (byte_or-lt buf _ all)
      (byte_or-lt buf _ all) k h
    ∙ fourth k h)
  where
    fourth :
        (k : ℕ)
        → k < 4
        → fourth_of
            (byte_or buf (i * 4 + 0))
            (byte_or buf (i * 4 + 1))
            (byte_or buf (i * 4 + 2))
            (byte_or buf (i * 4 + 3))
            k
          ≡ byte_or buf (i * 4 + k)
    fourth zero h = refl
    fourth (suc zero) h = refl
    fourth (suc (suc zero)) h = refl
    fourth (suc (suc (suc zero))) h = refl
    fourth (suc (suc (suc (suc k)))) h = absurd (omega arith)
