-- ===== src/Tests/Sim.antt =====
-- The testbench on the small file and the toy SoC.
use qinglong_core.Prelude.{
  ℕ, ◌+◌, ◌<◌, ◌≡◌, refl, true, false, List, [], ◌∷◌, some, none, arith, All, IsByte,
}
use qinglong_core.Args.{plusarg, has_plusarg}
use qinglong_core.Args.Number.{strtoull}
use qinglong_core.Args.Prefix.{first_value, setting, plusarg-first_value}
use qinglong_core.Elf.Segments.{Word}
use qinglong_core.Prelude.{codes}
use qinglong_core.Sim.Load.{Loading, load_words}
use qinglong_core.Sim.Load.Image.{last_at, get_or, load_words-mem}
use qinglong_core.Sim.Loop.{Options, simulate, reset, cycle}
use qinglong_core.Sim.Loop.Clock.{after}
use qinglong_core.Sim.Loop.Run.{Quiet}
use qinglong_core.Sim.Loop.Pass.{Outcomes, Passes, simulate-Outcomes, simulate_zero}
use qinglong_core.Elf.Symbols.{read_symbol, c_string, insert}
use qinglong_core.Elf.Load.{load_elf32}
use qinglong_core.Elf.Mapped.{load_path}
use qinglong_core.Sim.Main.{
  main, parse, status, options_of, after_parse, start, with_elf, execute, load_sram,
}
use qinglong_core.Sim.Main.Status.{Succeeded, main_zero}
use qinglong_core.Tests.Data.{elf_file, toy, Toy, toy_host, toy_args, nothing_held}

plusarg_runs :
    (plusarg toy_args (codes "elf") ≡ some (some (codes "a")))
    × (plusarg toy_args (codes "vcd") ≡ some none)
    × (has_plusarg toy_args (codes "qui") ≡ some true)
unfolding plusarg has_plusarg
plusarg_runs = (refl, refl, refl)

strtoull_runs :
    (strtoull (codes " 0x40z") ≡ 64)
    × (strtoull (codes "017") ≡ 15)
    × (strtoull (codes "0x") ≡ 0)
    × (strtoull (codes "-1") ≡ 0xFFFFFFFFFFFFFFFF)
    × (strtoull (codes "99999999999999999999") ≡ 0xFFFFFFFFFFFFFFFF)
unfolding strtoull
strtoull_runs = (refl, refl, refl, refl, refl)

plusarg-first_value_example :
    plusarg toy_args (codes "elf") ≡ some (first_value (setting (codes "elf")) toy_args)
plusarg-first_value_example = plusarg-first_value toy_args (codes "elf")

abbrev fresh : Loading
fresh = record { mem = λ i. 0; loaded = 0; skipped = 0 }

abbrev two_words : List Word
two_words = record { byte_addr = 0x80000004; value = 9 } ∷ record { byte_addr = 4; value = 5 } ∷ []

load_words-mem_example : (load_words two_words fresh).mem 1 ≡ get_or (last_at 1 two_words) 0
load_words-mem_example = load_words-mem two_words fresh 1

elf_file-bytes : All IsByte elf_file
elf_file-bytes = omega arith

abbrev opts : Options
opts = record { tracing = true; quiet = true; tohost_addr = 0x80001000; tohost_widx = 1024 }

toy_run :
    let s = simulate toy opts 64 (reset toy (record { time = 0; mem = λ i. 0 })) in
    (s.exit_code ≡ 0)
    × (s.cycles ≡ 13)
    × (s.console ≡ codes "A")
    × (s.trace ≡ codes "core   0: 3 0x80000000 (0x02a00513) x10 0x0000002a\n")
unfolding simulate reset cycle
toy_run = (refl, refl, refl, refl)

abbrev at_rest : Toy
at_rest = record { time = 0; mem = λ i. 0 }

simulate-Outcomes_example :
    Outcomes toy opts 64 (reset toy at_rest) (simulate toy opts 64 (reset toy at_rest))
unfolding reset
simulate-Outcomes_example = simulate-Outcomes toy opts 64 (reset toy at_rest) refl refl

simulate_zero_example :
    (n : ℕ) × (10 + n < 64) × Quiet toy opts n at_rest × Passes toy opts (after toy n at_rest)
unfolding reset simulate cycle
simulate_zero_example = simulate_zero toy opts 64 (reset toy at_rest) refl refl refl

main_runs :
    (status (main toy toy_host toy_args nothing_held) ≡ some 0)
    × (status (main toy toy_host [] nothing_held) ≡ some 1)
    × (status (main toy (record toy_host { has_scope = false }) toy_args nothing_held) ≡ some 2)
unfolding main parse plusarg has_plusarg after_parse start with_elf execute load_sram load_words
    options_of strtoull load_path simulate reset cycle load_elf32 read_symbol c_string insert
main_runs = (refl, refl, refl)

main_zero_example : Succeeded toy toy_host toy_args nothing_held
main_zero_example = main_zero toy toy_host toy_args nothing_held main_runs.0
