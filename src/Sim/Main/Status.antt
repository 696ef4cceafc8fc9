-- ===== src/Sim/Main/Status.antt =====
-- What a status of 0 from `main` means, from the arguments to the run.
use qinglong_core.Prelude.{
  ℕ, ◌+◌, ◌<◌, ◌≡◌, refl, Bytes, List, Option, none, some, some-injective, Option-cases, inl, inr,
  arith,
}
use qinglong_core.Elf.Outcome.{Outcome, ok, throws, fault, hang}
use qinglong_core.Elf.Load.{LoadedElf}
use qinglong_core.Elf.Mapped.{Held, load_path}
use qinglong_core.Sim.Soc.{Soc}
use qinglong_core.Sim.Loop.{reset}
use qinglong_core.Sim.Loop.Clock.{after}
use qinglong_core.Sim.Loop.Run.{Quiet}
use qinglong_core.Sim.Loop.Pass.{Passes, simulate_zero}
use qinglong_core.Sim.Main.{
  Host, Parsed, status, parse, options_of, load_sram, execute, with_elf, start, after_parse, main,
}

module _ (soc : Soc) (host : Host) where
  open soc use {State, initial, with_sram}

  -- The state from which the clock runs freely: the file's words in the SRAM, then the reset.
  abbrev pub booted : LoadedElf → State
  booted elf = (reset soc (with_sram (load_sram soc host elf).mem initial)).top

  -- A pass in a cycle of the run on `elf`, below the cap, and no end before it.
  pub record PassesOn (p : Parsed) (elf : LoadedElf) : Type 0 where
    pub cycle : ℕ
    pub below_cap : 10 + cycle < p.timeout
    pub first : Quiet soc (options_of p elf.symbols) cycle (booted elf)
    pub passes : Passes soc (options_of p elf.symbols) (after soc cycle (booted elf))

  -- The file that the arguments name was loaded, and its run passes.
  pub record Succeeded (args : List Bytes) (held : Held) : Type 0 where
    pub parsed : Parsed
    pub path : Bytes
    pub elf : LoadedElf
    pub parses : parse args ≡ some parsed
    pub names : parsed.elf_path ≡ some path
    pub loads : (load_path host.os path held).0 ≡ ok elf
    pub run_passes : PassesOn parsed elf

  execute_zero :
      (p : Parsed) (elf : LoadedElf) → status (execute soc host p elf) ≡ some 0 → PassesOn p elf
  unfolding execute reset
  execute_zero p elf h = record { cycle = z.0; below_cap = z.1; first = z.2; passes = z.3 }
    where
      z :
          (n : ℕ) × (10 + n < p.timeout)
          × Quiet soc (options_of p elf.symbols) n (booted elf)
          × Passes soc (options_of p elf.symbols) (after soc n (booted elf))
      z = simulate_zero soc (options_of p elf.symbols) p.timeout _ refl refl (some-injective _ _ h)

  with_elf_zero :
      (p : Parsed) (r : Outcome LoadedElf)
      → status (with_elf soc host p r) ≡ some 0
      → (elf : LoadedElf) × (r ≡ ok elf) × PassesOn p elf
  unfolding with_elf
  with_elf_zero p (ok elf) h = (elf, refl, execute_zero p elf h)
  with_elf_zero p (throws e) h = cc
  with_elf_zero p fault h = cc
  with_elf_zero p hang h = cc

  start_zero :
      (p : Parsed) (path : Bytes) (held : Held)
      → status (start soc host p path held) ≡ some 0
      → (elf : LoadedElf) × ((load_path host.os path held).0 ≡ ok elf) × PassesOn p elf
  unfolding start
  start_zero p path held h = with_elf_zero p (load_path host.os path held).0 (ground arith)

  after_parse_zero :
      (args : List Bytes) (p : Parsed) (held : Held) (path? : Option Bytes)
      → parse args ≡ some p
      → p.elf_path ≡ path?
      → status (after_parse soc host (some p) held) ≡ some 0
      → Succeeded args held
  unfolding after_parse
  after_parse_zero args p held none e f h = absurd (ground arith)
  after_parse_zero args p held (some path) e f h =
      let z = start_zero p path held (ground arith) in
      record {
        parsed = p;
        path = path;
        elf = z.0;
        parses = e;
        names = f;
        loads = z.1;
        run_passes = z.2;
      }

  -- `main` returns 0 only if the arguments name a file that was loaded and some cycle of its run
  -- below the cap shows a pass, with no cycle before it that ended the run.
  pub main_zero :
      (args : List Bytes) (held : Held)
      → status (main soc host args held) ≡ some 0
      → Succeeded args held
  unfolding main
  main_zero args held h = elim (Option-cases (parse args)) [
    | inl e ↦ absurd (none_fails (rw e at h))
    | inr (p, e) ↦ after_parse_zero args p held p.elf_path e refl (rw e at h)
  ]
    where
      none_fails : status (after_parse soc host none held) ≡ some 0 → ⊥
      none_fails k = unfold after_parse in cc
