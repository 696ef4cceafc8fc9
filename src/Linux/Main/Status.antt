-- ===== src/Linux/Main/Status.antt =====
-- What a status of 0 from the Linux testbench means, from the arguments to the run.
use qinglong_core.Prelude.{
  ℕ, ◌+◌, ◌<◌, ◌≡◌, refl, true, ◌||◌, inl, inr, Bytes, List, Option, none, some, Option-cases,
  Bool-cases, arith, sym, ◌∙◌,
}
use qinglong_core.Linux.Blob.{Loaded, loaded, failed}
use qinglong_core.Linux.Images.{self_check}
use qinglong_core.Linux.Soc.{Soc}
use qinglong_core.Linux.Run.{Sim, minus_one, reset, simulate}
use qinglong_core.Linux.Run.Ending.{
  Quiet, Endings, by_cycle, at_cap, late, after, rise, code_after, simulate-Endings,
}
use qinglong_core.Linux.Main.{
  Host, Paths, Limits, status, parse_paths, parse_limits, options_of, is_given, trace_and_run,
  booted, place_bootrom, images, with_images, fill, start, after_parse, main,
}
use qinglong_core.Dpi.{Mem}

module _ (soc : Soc) (host : Host) where
  open soc use {State, initial, ddr, with_ddr, outputs}

  -- The run from `t` ends by the exit register with code 0, below the cap, and in no cycle before.
  pub record Exits (timeout : ℕ) (t : State) : Type 0 where
    pub cycle : ℕ
    pub below_cap : 10 + cycle < timeout
    pub first : Quiet soc cycle (reset soc t).top
    pub exits : (outputs (rise soc (after soc cycle (reset soc t).top))).exit_valid ≡ true
    pub with_zero : (outputs (rise soc (after soc cycle (reset soc t).top))).exit_code ≡ 0

  code_after_zero :
      (t : State)
      → code_after soc t minus_one ≡ 0
      → ((outputs (rise soc t)).exit_valid ≡ true) × ((outputs (rise soc t)).exit_code ≡ 0)
  code_after_zero t h = ground arith

  Endings-Exits :
      (timeout : ℕ) (t : State) (s' : Sim State)
      → Endings soc timeout (reset soc t) s'
      → s'.exit_code ≡ 0
      → Exits timeout t
  unfolding reset
  Endings-Exits timeout t s' (by_cycle n l q e r) z =
      let c = code_after_zero (after soc n (reset soc t).top) (sym r.final_code ∙ z) in
      record { cycle = n; below_cap = l; first = q; exits = c.0; with_zero = c.1 }
  Endings-Exits timeout t s' (at_cap n l q r) z = absurd (omega (arith, r.final_code))
  Endings-Exits timeout t s' (late l r) z = absurd (omega (arith, r.final_code))

  trace_and_run_zero :
      (p : Paths) (l : Limits) (t : State)
      → status (trace_and_run soc host p l t) ≡ some 0
      → Exits l.timeout t
  unfolding trace_and_run
  trace_and_run_zero p l t h =
      let s' = simulate soc (options_of p l) l.timeout t in
      Endings-Exits l.timeout t s' (simulate-Endings soc (options_of p l) l.timeout t)
        (ground arith)

  -- The state that the reset starts from: the images in the DDR, and the BootROM if one is named.
  pub data Prepared (p : Paths) (m : Mem) : State → Type 0 where
    no_bootrom : p.bootrom ≡ none → Prepared p m (with_ddr m initial)
    with_bootrom :
        (path buf : Bytes)
        → p.bootrom ≡ some path
        → host.files path ≡ some buf
        → Prepared p m (booted soc host buf (with_ddr m initial))

  -- The arguments name a firmware or a raw image; the DDR passed the self-check; the images were
  -- loaded; and the run from the prepared state ends with an exit code of 0.
  pub record Booted (args : List Bytes) : Type 0 where
    pub paths : Paths
    pub limits : Limits
    pub checked : Mem
    pub filled : Mem
    pub from : State
    pub parses : parse_paths args ≡ some paths
    pub parses_limits : parse_limits args ≡ some limits
    pub names : is_given paths.fw || is_given paths.raw ≡ true
    pub checks : self_check (ddr initial) ≡ some checked
    pub loads : images soc host paths checked ≡ loaded filled
    pub prepares : Prepared paths filled from
    pub exits : Exits limits.timeout from

  place_bootrom_zero :
      (p : Paths) (l : Limits) (m : Mem)
      → status (place_bootrom soc host p l (with_ddr m initial)) ≡ some 0
      → (t : State) × Prepared p m t × Exits l.timeout t
  unfolding place_bootrom
  place_bootrom_zero p l m h = elim (Option-cases p.bootrom) [
    | inl e ↦
        (with_ddr m initial, no_bootrom e, trace_and_run_zero p l _ (rw (e, place_bootrom) at h))
    | inr (path, e) ↦ elim (Option-cases (host.files path)) [
      | inl f ↦ absurd (ground arith)
      | inr (buf, f) ↦ (
        booted soc host buf (with_ddr m initial),
        with_bootrom path buf e f,
        trace_and_run_zero p l _ (rw (e, place_bootrom, f) at h),
      )
    ]
  ]

  -- What `Booted` says once the arguments are parsed.
  record Fills (p : Paths) (l : Limits) : Type 0 where
    checked : Mem
    filled : Mem
    from : State
    checks : self_check (ddr initial) ≡ some checked
    loads : images soc host p checked ≡ loaded filled
    prepares : Prepared p filled from
    exits : Exits l.timeout from

  with_images_zero :
      (p : Paths) (l : Limits) (m : Mem) (r : Loaded)
      → self_check (ddr initial) ≡ some m
      → images soc host p m ≡ r
      → status (with_images soc host p l r) ≡ some 0
      → Fills p l
  unfolding with_images
  with_images_zero p l m (loaded m') c e h =
      let z = place_bootrom_zero p l m' h in
      record {
        checked = m;
        filled = m';
        from = z.0;
        checks = c;
        loads = e;
        prepares = z.1;
        exits = z.2;
      }
  with_images_zero p l m (failed f) c e h = cc

  fill_zero : (p : Paths) (l : Limits) → status (fill soc host p l) ≡ some 0 → Fills p l
  unfolding fill
  fill_zero p l h = elim (Option-cases (self_check (ddr initial))) [
    | inl e ↦ absurd (ground arith)
    | inr (m, e) ↦ with_images_zero p l m (images soc host p m) e refl (rw (e, fill) at h)
  ]

  start_zero :
      (p : Paths) (l : Limits)
      → status (start soc host p l) ≡ some 0
      → (is_given p.fw || is_given p.raw ≡ true) × Fills p l
  unfolding start
  start_zero p l h = elim (Bool-cases (is_given p.fw || is_given p.raw)) [
    | inl e ↦ (e, fill_zero p l (ground arith))
    | inr e ↦ absurd (ground arith)
  ]

  after_parse_zero :
      (args : List Bytes) (p? : Option Paths) (l? : Option Limits)
      → parse_paths args ≡ p?
      → parse_limits args ≡ l?
      → status (after_parse soc host p? l?) ≡ some 0
      → Booted args
  unfolding after_parse
  after_parse_zero args none l? e f h = cc
  after_parse_zero args (some p) none e f h = cc
  after_parse_zero args (some p) (some l) e f h =
      let z = start_zero p l h in
      record {
        paths = p;
        limits = l;
        checked = z.1.checked;
        filled = z.1.filled;
        from = z.1.from;
        parses = e;
        parses_limits = f;
        names = z.0;
        checks = z.1.checks;
        loads = z.1.loads;
        prepares = z.1.prepares;
        exits = z.1.exits;
      }

  -- `main` returns 0 only if the arguments name a firmware or a raw image, the DDR passed the
  -- self-check, every image was loaded, the BootROM too if one is named, and the run from there ends
  -- with an exit code of 0 in a cycle below the cap, with no cycle before it that ended the run.
  pub main-Booted : (args : List Bytes) → status (main soc host args) ≡ some 0 → Booted args
  unfolding main
  main-Booted args h = after_parse_zero args (parse_paths args) (parse_limits args) refl refl h
