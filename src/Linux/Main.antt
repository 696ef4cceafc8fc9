-- ===== src/Linux/Main.antt =====
-- `main` of sim_linux.cpp: the arguments, the filling of the memories, the run, and the status that
-- it returns.
pub mod Status
pub mod Ready
use qinglong_core.Prelude.{
  ℕ, u32, ◌-◌, ◌^◌, if◌then◌else◌, Bool, true, false, ◌||◌, Bytes, List, Option, none, some,
}
use qinglong_core.Args.{plusarg, ◌>>=◌}
use qinglong_core.Args.Number.{number_or}
use qinglong_core.Dpi.{Mem}
use qinglong_core.Prelude.{codes}
use qinglong_core.Linux.Soc.{Soc}
use qinglong_core.Linux.Blob.{Loaded, loaded, failed, Failure}
use qinglong_core.Linux.Images.{
  Files, load_images, load_raw, self_check, load_bootrom, arm_handshake,
}
use qinglong_core.Linux.Run.{Sim, Options, simulate}

-- The paths that `main` reads from its arguments; a missing option is a null pointer.
pub record Paths : Type 0 where
  pub fw : Option Bytes
  pub kernel : Option Bytes
  pub dtb : Option Bytes
  pub initrd : Option Bytes
  pub bootrom : Option Bytes
  pub raw : Option Bytes
  pub trace : Option Bytes
  pub memtrace : Option Bytes

-- The numbers: the cap, and the windows of the traces.
pub record Limits : Type 0 where
  pub timeout : ℕ
  pub tfrom : ℕ
  pub tto : ℕ
  pub tpcmin : ℕ
  pub tpcmax : ℕ
  pub mtpamin : ℕ
  pub mtpamax : ℕ

unfoldable pub parse_paths : List Bytes → Option Paths
parse_paths args = do
  fw ← plusarg args (codes "fw")
  kernel ← plusarg args (codes "kernel")
  dtb ← plusarg args (codes "dtb")
  initrd ← plusarg args (codes "initrd")
  bootrom ← plusarg args (codes "bootrom")
  raw ← plusarg args (codes "raw")
  trace ← plusarg args (codes "trace")
  memtrace ← plusarg args (codes "memtrace")
  some (record {
    fw = fw;
    kernel = kernel;
    dtb = dtb;
    initrd = initrd;
    bootrom = bootrom;
    raw = raw;
    trace = trace;
    memtrace = memtrace;
  })

unfoldable pub parse_limits : List Bytes → Option Limits
parse_limits args = do
  tfrom ← plusarg args (codes "tracefrom")
  tto ← plusarg args (codes "traceuntil")
  tpcmin ← plusarg args (codes "tracepcmin")
  tpcmax ← plusarg args (codes "tracepcmax")
  timeout ← plusarg args (codes "timeout")
  mtpamin ← plusarg args (codes "memtracepamin")
  mtpamax ← plusarg args (codes "memtracepamax")
  some (record {
    timeout = number_or timeout 20000000;
    tfrom = number_or tfrom 0;
    tto = number_or tto (2 ^ 64 - 1);
    tpcmin = u32 (number_or tpcmin 0);
    tpcmax = u32 (number_or tpcmax 0xFFFFFFFF);
    mtpamin = u32 (number_or mtpamin 0);
    mtpamax = u32 (number_or mtpamax 0xFFFFFFFF);
  })

abbrev pub is_given : Option Bytes → Bool
is_given none = false
is_given (some path) = true

unfoldable pub options_of : Paths → Limits → Options
options_of p l = record {
  tracing = is_given p.trace;
  mem_tracing = is_given p.memtrace;
  tfrom = l.tfrom;
  tto = l.tto;
  tpcmin = l.tpcmin;
  tpcmax = l.tpcmax;
  mtpamin = l.mtpamin;
  mtpamax = l.mtpamax;
}

-- The environment: the files, which of them can be created, and whether both DPI scopes are found.
pub record Host : Type 0 where
  pub files : Files
  pub can_create : Bytes → Bool
  pub has_scopes : Bool

-- How `main` ends; `crashed` is a read past the end of an argument.
pub data Ending (S : Type 0) : Type 0 where
  usage no_scope ddr_broken no_bootrom no_trace no_memtrace crashed : Ending S
  image_failed : Failure → Ending S
  ran : Sim S → Ending S

-- The value that `main` returns.
abbrev pub status : {S : Type 0} → Ending S → Option ℕ
status usage = some 1
status no_scope = some 2
status ddr_broken = some 2
status no_bootrom = some 2
status no_trace = some 2
status no_memtrace = some 2
status crashed = none
status (image_failed e) = some 2
status (ran s) = some s.exit_code

module _ (soc : Soc) (host : Host) where
  open soc use {State, initial, ddr, sram, with_ddr, with_sram}

  abbrev pub opens : Option Bytes → Bool
  opens none = true
  opens (some path) = host.can_create path

  -- The two trace files, then the run.
  unfoldable pub trace_and_run : Paths → Limits → State → Ending State
  trace_and_run p l t =
      if opens p.trace
      then (if opens p.memtrace
          then ran (simulate soc (options_of p l) l.timeout t)
          else no_memtrace)
      else no_trace

  -- `if (bootrom_p) { … }` with the file open: the BootROM's words, then the handshake words.
  unfoldable pub booted : Bytes → State → State
  booted buf t =
      let t1 = with_sram (load_bootrom buf (sram t)) t in with_ddr (arm_handshake (ddr t1)) t1

  unfoldable pub place_bootrom : Paths → Limits → State → Ending State
  place_bootrom p l t = elim p.bootrom [
    | none ↦ trace_and_run p l t
    | some path ↦ elim (host.files path) [
      | none ↦ no_bootrom
      | some buf ↦ trace_and_run p l (booted buf t)
    ]
  ]

  unfoldable pub images : Paths → Mem → Loaded
  images p m = elim p.raw [
    | none ↦ load_images host.files p.fw p.kernel p.dtb p.initrd m
    | some s ↦ load_raw host.files s m
  ]

  unfoldable pub with_images : Paths → Limits → Loaded → Ending State
  with_images p l (loaded m) = place_bootrom p l (with_ddr m initial)
  with_images p l (failed e) = image_failed e

  -- From the self-check on.
  unfoldable pub fill : Paths → Limits → Ending State
  fill p l = elim (self_check (ddr initial)) [
    | none ↦ ddr_broken
    | some m ↦ with_images p l (images p m)
  ]

  unfoldable pub start : Paths → Limits → Ending State
  start p l =
      if is_given p.fw || is_given p.raw
      then (if host.has_scopes then fill p l else no_scope)
      else usage

  unfoldable pub after_parse : Option Paths → Option Limits → Ending State
  after_parse none l? = crashed
  after_parse (some p) none = crashed
  after_parse (some p) (some l) = start p l

  unfoldable pub main : List Bytes → Ending State
  main args = after_parse (parse_paths args) (parse_limits args)
