-- ===== src/Sim/Main.antt =====
-- `main` of sim_main.cpp: the arguments, the loading of the ELF file, the run, and the status that
-- it returns.
pub mod Status
use Prim.Native.String.{String}
use qinglong_core.Prelude.{
  ℕ, ◌+◌, ◌/◌, sub32, u32, ◌==◌, if◌then◌else◌, Bool, true, false, Bytes, List, [], Option, none,
  some,
}
use qinglong_core.Args.{plusarg, has_plusarg, ◌>>=◌}
use qinglong_core.Args.Number.{number_or}
use qinglong_core.Elf.Outcome.{Outcome, ok, throws, fault, hang, Error}
use qinglong_core.Elf.Symbols.{Symbols, find}
use qinglong_core.Elf.Load.{LoadedElf}
use qinglong_core.Elf.Mapped.{Os, Held, load_path}
use qinglong_core.Sim.Soc.{Soc}
use qinglong_core.Prelude.{codes}
use qinglong_core.Sim.Load.{Loading, load_words, sram_base}
use qinglong_core.Sim.Loop.{Sim, Options, reset, simulate}

-- What `main` reads from its arguments; a missing option is a null pointer.
pub record Parsed : Type 0 where
  pub elf_path : Option Bytes
  pub timeout : ℕ
  pub trace_path : Option Bytes
  pub quiet : Bool

abbrev pub default_timeout : ℕ
default_timeout = 2000000

unfoldable pub parse : List Bytes → Option Parsed
parse args = do
  elf_path ← plusarg args (codes "elf")
  timeout ← plusarg args (codes "timeout")
  trace_path ← plusarg args (codes "trace")
  quiet ← has_plusarg args (codes "quiet")
  some (record {
    elf_path = elf_path;
    timeout = number_or timeout default_timeout;
    trace_path = trace_path;
    quiet = quiet;
  })

-- The environment: the files, whether the trace file can be created, and whether the DPI scope of
-- the SRAM is found.
pub record Host : Type 0 where
  pub os : Os
  pub can_create : Bytes → Bool
  pub has_scope : Bool

-- How `main` ends. `crashed` and `hung` are a read out of bounds and an endless loop in the loader.
pub data Ending (S : Type 0) : Type 0 where
  usage no_trace no_scope : Ending S
  elf_failed : Error → Ending S
  ran : Loading → Sim S → Ending S
  crashed hung : Ending S

-- The value that `main` returns, or `usage` passes to `exit`.
abbrev pub status : {S : Type 0} → Ending S → Option ℕ
status usage = some 1
status no_trace = some 2
status no_scope = some 2
status (elf_failed e) = some 2
status (ran l s) = some s.exit_code
status crashed = none
status hung = none

-- `tohost_addr`: the symbol's value, or 0.
unfoldable pub tohost_of : Symbols → ℕ
unfolding find
tohost_of symbols = number (find (codes "tohost") symbols)
  where
    number : Option ℕ → ℕ
    number none = 0
    number (some v) = v

unfoldable pub options_of : Parsed → Symbols → Options
unfolding tohost_of
options_of p symbols = record {
  tracing = elim p.trace_path [ none ↦ false | some path ↦ true ];
  quiet = p.quiet;
  tohost_addr = tohost_of symbols;
  tohost_widx = if tohost_of symbols == 0 then 0 else sub32 (tohost_of symbols) sram_base / 4;
}

module _ (soc : Soc) (host : Host) where
  open soc use {State, initial, sram, with_sram}

  unfoldable pub load_sram : LoadedElf → Loading
  unfolding load_words
  load_sram elf = load_words elf.words (record { mem = sram initial; loaded = 0; skipped = 0 })

  -- From the loaded file on: the words, the reset, the loop.
  unfoldable pub execute : Parsed → LoadedElf → Ending State
  execute p elf =
      let l = load_sram elf in
      ran l
        (simulate soc (options_of p elf.symbols) p.timeout (reset soc (with_sram l.mem initial)))

  unfoldable pub with_elf : Parsed → Outcome LoadedElf → Ending State
  with_elf p (ok elf) = execute p elf
  with_elf p (throws e) = elf_failed e
  with_elf p fault = crashed
  with_elf p hang = hung

  -- `if (trace_path) { … }`: a trace file that cannot be created ends the program.
  abbrev pub trace_ok : Option Bytes → Bool
  trace_ok none = true
  trace_ok (some path) = host.can_create path

  unfoldable pub start : Parsed → Bytes → Held → Ending State
  start p path held =
      if trace_ok p.trace_path
      then (if host.has_scope then with_elf p (load_path host.os path held).0 else no_scope)
      else no_trace

  unfoldable pub after_parse : Option Parsed → Held → Ending State
  after_parse none held = crashed
  after_parse (some p) held = elim p.elf_path [ none ↦ usage | some path ↦ start p path held ]

  unfoldable pub main : List Bytes → Held → Ending State
  main args held = after_parse (parse args) held
