-- ===== src/Tests/Linux.antt =====
-- The images of the Linux testbench on small files.
use qinglong_core.Prelude.{ℕ, ◌<◌, ◌≡◌, refl, [], ◌∷◌, some, arith, Bytes}
use qinglong_core.Args.Number.{strtoull}
use qinglong_core.Dpi.{Mem}
use qinglong_core.Prelude.{codes}
use qinglong_core.Linux.Blob.{pack, place_blob, loaded}
use qinglong_core.Linux.Blob.Copy.{Placed, place_blob-Placed}
use qinglong_core.Linux.Images.{Files, load_images, arm_handshake, split_at, raw_base}
use qinglong_core.Linux.Images.Intact.{Fits, AllIntact, load_images-AllIntact}

abbrev blank : Mem
blank = λ i. 0

abbrev blob : Bytes
blob = 1 ∷ 2 ∷ 3 ∷ 4 ∷ 5 ∷ []

-- Every path leads to the same five bytes.
abbrev files : Files
files = λ path. some blob

pack_runs : (pack blob 0 4 0 0 ≡ 0x04030201) × (pack blob 1 4 0 0 ≡ 5)
unfolding pack
pack_runs = (refl, refl)

raw_runs :
    ((split_at (codes "a@0x41000000")).0 ≡ codes "a")
    × (raw_base (split_at (codes "a@0x41000000")).1 ≡ 0x41000000)
    × (raw_base (split_at (codes "a")).1 ≡ 0x40000000)
unfolding split_at raw_base strtoull
raw_runs = (refl, refl, refl)

place_blob-Placed_example :
    (m : Mem) × (place_blob blob 0x40000010 blank ≡ loaded m) × Placed blob 0x40000010 blank m
place_blob-Placed_example = place_blob-Placed blob 0x40000010 blank (omega arith) (omega arith) refl

fits : (slot : ℕ) → 5 < slot → Fits files (codes "a") blob slot
fits slot h = record { found = refl; bytes = omega arith; short = omega arith }

load_images-AllIntact_example :
    (m : Mem) × (load_images files
        (some (codes "a"))
        (some (codes "a"))
        (some (codes "a"))
        (some (codes "a"))
        blank
      ≡ loaded m)
    × AllIntact blob blob blob blob (arm_handshake m)
load_images-AllIntact_example =
    load_images-AllIntact files (codes "a") (codes "a") (codes "a") (codes "a") blob blob blob blob
      blank (fits _ (omega arith)) (fits _ (omega arith)) (fits _ (omega arith))
      (fits _ (omega arith))
