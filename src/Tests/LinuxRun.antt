-- ===== src/Tests/LinuxRun.antt =====
-- The run of the Linux testbench on a toy SoC.
use qinglong_core.Prelude.{
  ℕ, ◌+◌, ◌≡◌, refl, ◌==◌, if◌then◌else◌, true, false, not, ◌&&◌, List, [], ◌∷◌, Bytes, some, none,
  ◌<◌, arith,
}
use qinglong_core.Dpi.{Mem}
use qinglong_core.Args.{plusarg}
use qinglong_core.Args.Number.{strtoull}
use qinglong_core.Prelude.{codes}
use qinglong_core.Linux.Blob.{load_blob_at, place_blob}
use qinglong_core.Linux.Images.{load_images, load_raw, self_check, load_bootrom, arm_handshake}
use qinglong_core.Linux.Main.{
  Host, Paths, Limits, ran, status, parse_paths, parse_limits, options_of, trace_and_run, booted,
  place_bootrom, images, with_images, fill, start, after_parse, main,
}
use qinglong_core.Linux.Images.Intact.{Fits, AllIntact}
use qinglong_core.Linux.Main.Ready.{main-AllIntact}
use qinglong_core.Linux.Main.Status.{Booted, main-Booted}
use qinglong_core.Linux.Soc.{Soc, Outputs}
use qinglong_core.Linux.Run.{
  Options, trap, priv_change, issue, response, request_of, cycle, run, check_timeout, probe_ddr,
  reset, simulate,
}
use qinglong_core.Linux.Run.Bus.{BusOk}
use qinglong_core.Linux.Run.Written.{simulate-BusOk, Reports, simulate-Reports}
use qinglong_core.Linux.Run.News.{news}
use qinglong_core.Linux.Run.Ending.{Endings, simulate-Endings}

record Toy : Type 0 where
  time : ℕ
  ddr : Mem
  sram : Mem

abbrev fresh : Toy
fresh = record { time = 0; ddr = λ i. 0; sram = λ i. 0 }

-- The rising edges since the reset: a load is issued in the first cycle and answered in the second,
-- which traps into S-mode; the third one exits with 0.
abbrev toy_outputs : ℕ → Outputs
toy_outputs n = record {
  commit_valid = n == 2;
  commit_pc = 0x80000000;
  commit_insn = 0x02a00513;
  commit_rd_wen = true;
  commit_rd_addr = 10;
  commit_rd_data = 42;
  commit_trap = n == 2;
  commit_cause = 8;
  exit_valid = n == 3;
  exit_code = 0;
  tap_dm_req_fire = n == 1;
  tap_dm_req_va = 0xC0000000;
  tap_dm_req_pa = 0x40000010;
  tap_dm_req_wen = false;
  tap_dm_req_size = 2;
  tap_dm_req_wmask = 0;
  tap_dm_req_wdata = 0;
  tap_dm_rsp_fire = n == 2;
  tap_dm_rsp_rdata = 99;
  tap_dm_rsp_fault = false;
  tap_dm_rsp_pagefault = false;
  tap_priv_mode = if n == 2 then 1 else 3;
}

abbrev toy : Soc
toy = record {
  State = Toy;
  initial = fresh;
  eval = λ clk rst s. if clk && not rst then record s { time = s.time + 1 } else s;
  outputs = λ s. toy_outputs s.time;
  got_finish = λ s. false;
  ddr = λ s. s.ddr;
  sram = λ s. s.sram;
  with_ddr = λ m s. record s { ddr = m };
  with_sram = λ m s. record s { sram = m };
  ddr-with_ddr = λ m s. refl;
  ddr-with_sram = λ m s. refl;
  sram-with_sram = λ m s. refl;
}

abbrev opts : Options
opts = record {
  tracing = true;
  mem_tracing = true;
  tfrom = 0;
  tto = 100;
  tpcmin = 0;
  tpcmax = 0xFFFFFFFF;
  mtpamin = 0x40000000;
  mtpamax = 0x4FFFFFFF;
}

toy_run :
    let s = simulate toy opts 50 fresh in
    (s.exit_code ≡ 0)
    × (s.cycles ≡ 13)
    × (s.bus_trace
        ≡ issue 10 (toy_outputs 1) ∷ response 11 (request_of (toy_outputs 1)) (toy_outputs 2) ∷ [])
unfolding simulate reset run cycle check_timeout probe_ddr
toy_run = (refl, refl, refl)

toy_cap :
    let s = simulate toy opts 12 fresh in
    (s.exit_code ≡ 124) × (s.prev_priv ≡ 1) × (s.traps_seen ≡ 1)
unfolding simulate reset run cycle check_timeout probe_ddr
toy_cap = (refl, refl, refl)

simulate-Endings_example : Endings toy 50 (reset toy fresh) (simulate toy opts 50 fresh)
simulate-Endings_example = simulate-Endings toy opts 50 fresh

simulate-BusOk_example : BusOk opts (simulate toy opts 50 fresh)
simulate-BusOk_example = simulate-BusOk toy opts 50 fresh

simulate-Reports_example : Reports toy opts (reset toy fresh).top (simulate toy opts 50 fresh)
simulate-Reports_example = simulate-Reports toy opts 50 fresh

-- The trap and the change of the mode in the second cycle, number 12.
trap_told :
    news (simulate toy opts 50 fresh).log
    ≡ trap 12 0x80000000 8 1 ∷ priv_change 3 1 12 0x80000000 ∷ priv_change 1 3 13 0x80000000 ∷ []
unfolding simulate reset run cycle check_timeout probe_ddr news
trap_told = refl

abbrev host : Host
host = record {
  files = λ path. some (1 ∷ 2 ∷ 3 ∷ []);
  can_create = λ path. true;
  has_scopes = true;
}

abbrev args : List Bytes
args = codes "+fw=a" ∷ codes "+bootrom=b" ∷ codes "+timeout=50" ∷ []

main_runs :
    (status (main toy host args) ≡ some 0)
    × (status (main toy host []) ≡ some 1)
    × (status (main toy host (codes "+raw=a@0" ∷ [])) ≡ some 2)
unfolding main parse_paths parse_limits plusarg strtoull after_parse start fill with_images images
    place_bootrom trace_and_run booted self_check load_images load_raw load_blob_at place_blob
    load_bootrom arm_handshake options_of simulate reset run cycle check_timeout probe_ddr
main_runs = (refl, refl, refl)

main-Booted_example : Booted toy host args
main-Booted_example = main-Booted toy host args main_runs.0

abbrev full_args : List Bytes
full_args =
    codes "+fw=a"
    ∷ codes "+kernel=b"
    ∷ codes "+dtb=c"
    ∷ codes "+initrd=d"
    ∷ codes "+bootrom=e"
    ∷ codes "+trace=t"
    ∷ []

abbrev full_paths : Paths
full_paths = record {
  fw = some (codes "a");
  kernel = some (codes "b");
  dtb = some (codes "c");
  initrd = some (codes "d");
  bootrom = some (codes "e");
  raw = none;
  trace = some (codes "t");
  memtrace = none;
}

abbrev full_limits : Limits
full_limits = record {
  timeout = 20000000;
  tfrom = 0;
  tto = 0xFFFFFFFFFFFFFFFF;
  tpcmin = 0;
  tpcmax = 0xFFFFFFFF;
  mtpamin = 0;
  mtpamax = 0xFFFFFFFF;
}

full_parses :
    (parse_paths full_args ≡ some full_paths) × (parse_limits full_args ≡ some full_limits)
unfolding parse_paths parse_limits plusarg
full_parses = (refl, refl)

abbrev three : Bytes
three = 1 ∷ 2 ∷ 3 ∷ []

fits : (path : Bytes) (slot : ℕ) → 3 < slot → Fits host.files path three slot
fits path slot h = record { found = refl; bytes = omega arith; short = omega arith }

main-AllIntact_example :
    (t : Toy) × (main toy host full_args
      ≡ ran (simulate toy (options_of full_paths full_limits) 20000000 t))
    × AllIntact three three three three t.ddr
main-AllIntact_example =
    main-AllIntact toy host full_args full_paths full_limits (codes "a") (codes "b") (codes "c")
      (codes "d") (codes "e") three three three three three full_parses.0 full_parses.1
      (record {
        names_fw = refl;
        names_kernel = refl;
        names_dtb = refl;
        names_initrd = refl;
        names_bootrom = refl;
        no_raw = refl;
      })
      refl refl refl (fits _ _ (omega arith)) (fits _ _ (omega arith)) (fits _ _ (omega arith))
      (fits _ _ (omega arith)) refl
