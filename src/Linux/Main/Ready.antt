-- ===== src/Linux/Main/Ready.antt =====
-- From arguments that name four images and a BootROM to the start of the run.
use mathlib.Core.Path.{subst}
use qinglong_core.Prelude.{◌≡◌, refl, sym, ap, ap₂, ◌∙◌, true, Bytes, List, none, some, arith}
use qinglong_core.Dpi.{Mem, ddr_dpi_write, ddr_dpi_read}
use qinglong_core.Linux.Blob.{loaded}
use qinglong_core.Linux.Images.{load_images, self_check, arm_handshake}
use qinglong_core.Linux.Images.Intact.{
  Fits, AllIntact, fw_slot, kernel_slot, dtb_slot, initrd_slot, load_images-AllIntact,
}
use qinglong_core.Linux.Soc.{Soc}
use qinglong_core.Linux.Run.{simulate}
use qinglong_core.Linux.Main.{
  Host, Paths, Limits, ran, parse_paths, parse_limits, options_of, is_given, opens, trace_and_run,
  booted, place_bootrom, images, with_images, fill, start, after_parse, main,
}

-- Four images and a BootROM, and no raw image.
pub record Names (p : Paths) (fw kernel dtb initrd bootrom : Bytes) : Type 0 where
  pub names_fw : p.fw ≡ some fw
  pub names_kernel : p.kernel ≡ some kernel
  pub names_dtb : p.dtb ≡ some dtb
  pub names_initrd : p.initrd ≡ some initrd
  pub names_bootrom : p.bootrom ≡ some bootrom
  pub no_raw : p.raw ≡ none

-- The self-check passes on every DDR of this size.
self_check_passes : (m : Mem) → (m' : Mem) × (self_check m ≡ some m')
unfolding self_check ddr_dpi_write ddr_dpi_read
self_check_passes m = (_, refl)

module _ (soc : Soc) (host : Host) where
  open soc use {State, initial, ddr, sram, with_ddr, with_sram}

  -- The DDR behind the BootROM step holds the images and the handshake words.
  booted-ddr :
      (rom : Bytes) (m : Mem) → ddr (booted soc host rom (with_ddr m initial)) ≡ arm_handshake m
  unfolding booted
  booted-ddr rom m =
      soc.ddr-with_ddr _ _ ∙ ap arm_handshake (soc.ddr-with_sram _ _ ∙ soc.ddr-with_ddr m initial)

  module _ (p : Paths) (l : Limits) where
    -- The run from a state, once the trace files are open.
    trace_and_run-opens :
        (t : State)
        → opens soc host p.trace ≡ true
        → opens soc host p.memtrace ≡ true
        → trace_and_run soc host p l t ≡ ran (simulate soc (options_of p l) l.timeout t)
    unfolding trace_and_run
    trace_and_run-opens t h g = rw (h, g, trace_and_run)

    place_bootrom_found :
        (path rom : Bytes) (t : State)
        → p.bootrom ≡ some path
        → host.files path ≡ some rom
        → place_bootrom soc host p l t ≡ trace_and_run soc host p l (booted soc host rom t)
    unfolding place_bootrom
    place_bootrom_found path rom t e f = ground arith

    images_named :
        (fw kernel dtb initrd bootrom : Bytes) (m : Mem)
        → Names p fw kernel dtb initrd bootrom
        → images soc host p m
          ≡ load_images host.files (some fw) (some kernel) (some dtb) (some initrd) m
    unfolding images
    images_named fw kernel dtb initrd bootrom m n =
        rw (n.no_raw, images, n.names_fw, n.names_kernel, n.names_dtb, n.names_initrd)

    fill_checked :
        (m m' : Mem)
        → self_check (ddr initial) ≡ some m
        → images soc host p m ≡ loaded m'
        → fill soc host p l ≡ place_bootrom soc host p l (with_ddr m' initial)
    unfolding fill with_images
    fill_checked m m' c e = rw (c, fill, e, with_images)

    start_named :
        is_given p.fw ≡ true → host.has_scopes ≡ true → start soc host p l ≡ fill soc host p l
    unfolding start
    start_named g s = rw (g, s, start)

  -- Arguments that name four images that fit their slots and a BootROM that exists, with trace files
  -- that can be opened, lead to the run, and it starts on a DDR with every image intact and the
  -- handshake armed.
  pub main-AllIntact :
      (args : List Bytes) (p : Paths) (l : Limits)
      (fwp kernelp dtbp initrdp romp fw kernel dtb initrd rom : Bytes)
      → parse_paths args ≡ some p
      → parse_limits args ≡ some l
      → Names p fwp kernelp dtbp initrdp romp
      → host.has_scopes ≡ true
      → opens soc host p.trace ≡ true
      → opens soc host p.memtrace ≡ true
      → Fits host.files fwp fw fw_slot
      → Fits host.files kernelp kernel kernel_slot
      → Fits host.files dtbp dtb dtb_slot
      → Fits host.files initrdp initrd initrd_slot
      → host.files romp ≡ some rom
      → (t : State) × (main soc host args ≡ ran (simulate soc (options_of p l) l.timeout t))
        × AllIntact fw kernel dtb initrd (ddr t)
  unfolding main after_parse
  main-AllIntact args p l fwp kernelp dtbp initrdp romp fw kernel dtb initrd rom e g n s tr mt f k d
        i r =
      let c = self_check_passes (ddr initial) in
      let z =
        load_images-AllIntact host.files fwp kernelp dtbp initrdp fw kernel dtb initrd c.0 f k d
          i in
      let t = booted soc host rom (with_ddr z.0 initial) in
      (
        t,
        ap₂ (after_parse soc host) e g
            ∙ start_named p l (ap is_given n.names_fw) s
            ∙ fill_checked p l c.0 z.0 c.1
                (images_named p l fwp kernelp dtbp initrdp romp c.0 n ∙ z.1)
            ∙ place_bootrom_found p l romp rom _ n.names_bootrom r
            ∙ trace_and_run-opens p l t tr mt,
        subst (AllIntact fw kernel dtb initrd) (sym (booted-ddr rom z.0)) z.2,
      )
