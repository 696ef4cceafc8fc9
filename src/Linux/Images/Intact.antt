-- ===== src/Linux/Images/Intact.antt =====
-- The four images and the handshake words do not overwrite one another.
use qinglong_core.Prelude.{
  ℕ, ◌+◌, ◌%◌, ◌≤◌, ◌<◌, ◌≡◌, ◌⊎◌, inl, refl, ◌∙◌, Bytes, IsByte, All, some, length, arith, false,
}
use qinglong_core.Dpi.{Mem, ddr_dpi_write}
use qinglong_core.Linux.Blob.{loaded, load_blob_at}
use qinglong_core.Linux.Blob.Word.{byte_or}
use qinglong_core.Linux.Blob.Copy.{
  covers, first_word, word_count, Placed, ddr_byte, place_blob-Placed,
}
use qinglong_core.Linux.Images.{Files, load_images, arm_handshake, hs_word}

-- A file, with the path that leads to it, that is not longer than its slot.
pub record Fits (files : Files) (path : Bytes) (buf : Bytes) (slot : ℕ) : Type 0 where
  pub found : files path ≡ some buf
  pub bytes : All IsByte buf
  pub short : length buf ≤ slot

-- The slots: up to the next image, and for the initrd up to the handshake words.
abbrev pub fw_slot : ℕ
fw_slot = 0x400000

abbrev pub kernel_slot : ℕ
kernel_slot = 0x1E00000

abbrev pub dtb_slot : ℕ
dtb_slot = 0xE00000

abbrev pub initrd_slot : ℕ
initrd_slot = 0x4000000

load_Placed :
    (files : Files) (path buf : Bytes) (slot addr : ℕ) (m : Mem)
    → Fits files path buf slot
    → addr % 4 ≡ 0
    → 0x40000000 ≤ addr
    → addr + slot ≤ 0x48000000
    → (m' : Mem) × (load_blob_at files (some path) addr m ≡ loaded m') × Placed buf addr m m'
unfolding load_blob_at
load_Placed files path buf slot addr m f al lo hi =
    rw (f.found, load_blob_at)
      (place_blob-Placed buf addr m f.bytes
        (record { from_base = lo; below_end = omega (arith, f.short) }) al)

-- An address outside the words of an image keeps its byte.
keeps_byte :
    (buf : Bytes) (addr : ℕ) (m m' : Mem) (a : ℕ)
    → Placed buf addr m m'
    → (first_word a < first_word addr) ⊎ (first_word addr + word_count buf ≤ first_word a)
    → ddr_byte m' a ≡ ddr_byte m a
keeps_byte buf addr m m' a p out =
    let off : covers (first_word addr) (first_word addr + word_count buf) (first_word a) ≡ false =
      ground arith in
    rw (p.keeps (first_word a) off)

-- The handshake writes leave every word but their three.
handshake_keeps : (m : Mem) (n : ℕ) → (n < hs_word) ⊎ (hs_word + 3 ≤ n) → arm_handshake m n ≡ m n
unfolding arm_handshake
handshake_keeps m n out = ground arith

abbrev Holds : Bytes → ℕ → Mem → Type 0
Holds buf addr m = (j : ℕ) → j < length buf → ddr_byte m (addr + j) ≡ byte_or buf j

-- All four images lie in the memory, and the words of the handshake stand behind them.
pub record AllIntact (fw kernel dtb initrd : Bytes) (m : Mem) : Type 0 where
  pub fw_intact : Holds fw 0x40000000 m
  pub kernel_intact : Holds kernel 0x40400000 m
  pub dtb_intact : Holds dtb 0x42200000 m
  pub initrd_intact : Holds initrd 0x43000000 m
  pub magic : m hs_word ≡ 0xDEADBEEF
  pub entry : m (hs_word + 1) ≡ 0x40000000
  pub device_tree : m (hs_word + 2) ≡ 0x42200000

module _ (files : Files) (fwp kernelp dtbp initrdp fw kernel dtb initrd : Bytes) (m : Mem) where
  chain :
      (m1 m2 m3 m4 : Mem)
      → load_blob_at files (some fwp) 0x40000000 m ≡ loaded m1
      → load_blob_at files (some kernelp) 0x40400000 m1 ≡ loaded m2
      → load_blob_at files (some dtbp) 0x42200000 m2 ≡ loaded m3
      → load_blob_at files (some initrdp) 0x43000000 m3 ≡ loaded m4
      → load_images files (some fwp) (some kernelp) (some dtbp) (some initrdp) m ≡ loaded m4
  unfolding load_images
  chain m1 m2 m3 m4 e1 e2 e3 e4 = rw (e1, e2, e3, e4)

  handshake_words :
      (m4 : Mem)
      → (arm_handshake m4 hs_word ≡ 0xDEADBEEF)
        × (arm_handshake m4 (hs_word + 1) ≡ 0x40000000)
        × (arm_handshake m4 (hs_word + 2) ≡ 0x42200000)
  unfolding arm_handshake ddr_dpi_write
  handshake_words m4 = (refl, refl, refl)

  -- Four files that fit their slots are all loaded, and with the handshake armed every byte of each
  -- is at its address: no image, no padding and no handshake word overwrites another image.
  pub load_images-AllIntact :
      Fits files fwp fw fw_slot
      → Fits files kernelp kernel kernel_slot
      → Fits files dtbp dtb dtb_slot
      → Fits files initrdp initrd initrd_slot
      → (m4 : Mem) × (load_images files (some fwp) (some kernelp) (some dtbp) (some initrdp) m
          ≡ loaded m4)
        × AllIntact fw kernel dtb initrd (arm_handshake m4)
  load_images-AllIntact f k d i =
      let (m1, e1, p1) =
        load_Placed files fwp fw fw_slot 0x40000000 m f (omega arith) (omega arith) (omega arith) in
      let (m2, e2, p2) =
        load_Placed files kernelp kernel kernel_slot 0x40400000 m1 k (omega arith) (omega arith)
          (omega arith) in
      let (m3, e3, p3) =
        load_Placed files dtbp dtb dtb_slot 0x42200000 m2 d (omega arith) (omega arith)
          (omega arith) in
      let (m4, e4, p4) =
        load_Placed files initrdp initrd initrd_slot 0x43000000 m3 i (omega arith) (omega arith)
          (omega arith) in
      (
        m4,
        chain m1 m2 m3 m4 e1 e2 e3 e4,
        record {
          fw_intact = λ j h.
              armed m4 (0x40000000 + j) (inl (omega (arith, f.short)))
              ∙ keeps_byte initrd 0x43000000 m3 m4 _ p4 (inl (omega (arith, f.short)))
              ∙ keeps_byte dtb 0x42200000 m2 m3 _ p3 (inl (omega (arith, f.short)))
              ∙ keeps_byte kernel 0x40400000 m1 m2 _ p2 (inl (omega (arith, f.short)))
              ∙ p1.has_bytes j (omega arith);
          kernel_intact = λ j h.
              armed m4 (0x40400000 + j) (inl (omega (arith, k.short)))
              ∙ keeps_byte initrd 0x43000000 m3 m4 _ p4 (inl (omega (arith, k.short)))
              ∙ keeps_byte dtb 0x42200000 m2 m3 _ p3 (inl (omega (arith, k.short)))
              ∙ p2.has_bytes j (omega arith);
          dtb_intact = λ j h.
              armed m4 (0x42200000 + j) (inl (omega (arith, d.short)))
              ∙ keeps_byte initrd 0x43000000 m3 m4 _ p4 (inl (omega (arith, d.short)))
              ∙ p3.has_bytes j (omega arith);
          initrd_intact = λ j h.
              armed m4 (0x43000000 + j) (inl (omega (arith, i.short)))
              ∙ p4.has_bytes j (omega arith);
          magic = (handshake_words m4).0;
          entry = (handshake_words m4).1;
          device_tree = (handshake_words m4).2;
        },
      )
    where
      armed :
          (m4 : Mem) (a : ℕ)
          → (first_word a < hs_word) ⊎ (hs_word + 3 ≤ first_word a)
          → ddr_byte (arm_handshake m4) a ≡ ddr_byte m4 a
      armed m4 a out = rw (handshake_keeps m4 (first_word a) out)
