-- ===== src/Tests/Uartlite.antt =====
-- The simulated UART on a few edges.
use qinglong_core.Prelude.{
  zero, suc, arith, some, none, ◌==◌, if◌then◌else◌, bit_and, ℕ, ◌≡◌, refl, true, false, List, [],
  ◌∷◌, codes,
}
use qinglong_core.Hw.Mmio.{reset_mmio}
use qinglong_core.Hw.UartliteSim.{WriteInput, WriteSide, write_edge}
use qinglong_core.Hw.UartliteSim.Pairs.{bytes_of}
use qinglong_core.Hw.UartliteSim.Writes.{write_edges, log_edges, no_log, write_edges-bytes_of}
use qinglong_core.Hw.UartliteSim.Driver.{
  Settled, write_side, read_side, settled_write, settled_read, write_access, read_access,
  read_answer, access-settled, sim_uart,
}
use qinglong_core.Sw.Code.{each}
use qinglong_core.Sw.Machine.{Machine, exec, load, run, write_to}
use qinglong_core.Sw.Uartlite.Getc.{polls, Arrives, uartlite_getc-Arrives}
use qinglong_core.Sw.Uartlite.{uartlite_getc, ul_stat, ul_rx_fifo, uartlite_putc, uartlite_puts}

abbrev nothing : WriteInput
nothing = record {
  awvalid = false;
  awaddr = 0;
  wvalid = false;
  wbeat = record { word = 0; strb = 0 };
  bready = true;
}

abbrev just_data : ℕ → WriteInput
just_data v = record nothing { wvalid = true; wbeat = record { word = v; strb = 1 } }

abbrev just_addr : ℕ → WriteInput
just_addr a = record nothing { awvalid = true; awaddr = a }

-- The data before the address, a second address while the first write is under way, and a write to
-- another register.
abbrev inputs : List WriteInput
inputs =
    just_data 111
    ∷ just_addr 4
    ∷ just_addr 4
    ∷ nothing
    ∷ just_addr 4
    ∷ just_data 107
    ∷ nothing
    ∷ nothing
    ∷ just_addr 8
    ∷ just_data 33
    ∷ nothing
    ∷ nothing
    ∷ []

abbrev fresh : WriteSide
fresh = record {
  aw_hs = true;
  w_hs = false;
  held_addr = 9;
  held_beat = record { word = 0; strb = 0 };
  bvalid = true;
  ctrl_ie = true;
  out = [];
}

printed_ok : (write_edges inputs (write_edge true nothing fresh)).out ≡ codes "ok"
unfolding write_edges write_edge
printed_ok = refl

write_edges-bytes_of_example :
    (write_edges inputs (write_edge true nothing fresh)).out
    ≡ bytes_of
        (log_edges inputs (write_edge true nothing fresh) no_log).addrs
        (log_edges inputs (write_edge true nothing fresh) no_log).beats
unfolding write_edges write_edge
write_edges-bytes_of_example = write_edges-bytes_of nothing inputs fresh refl refl refl

abbrev settled : Settled
settled = record {
  ctrl_ie = false;
  out = [];
  last_addr = 0;
  last_beat = record { word = 0; strb = 0 };
  last_araddr = 0;
  last_rdata = 7;
}

access-settled_example :
    (write_access 3 0 4 65 (write_side settled) ≡ write_side (settled_write 4 65 settled))
    × ((read_answer 0 4 (read_side settled)).rvalid ≡ true)
    × ((read_answer 0 4 (read_side settled)).rdata ≡ (settled_read 4 settled).0)
    × (read_access 0 4 (read_side settled) ≡ read_side (settled_read 4 settled).1)
access-settled_example = access-settled 3 0 4 65 settled

abbrev no_memory : ℕ → ℕ
no_memory a = 0

abbrev simulated : Machine Settled
simulated = record { uart = settled; mmio = reset_mmio }

-- The driver on the simulated UART.
told : (run sim_uart no_memory 4 (uartlite_puts (codes "ok")) simulated).1.uart.out ≡ codes "ok"
unfolding run exec load write_to uartlite_puts uartlite_putc each
told = refl

-- A bus on which a byte arrives after some reads of STAT.
abbrev counting : ℕ → ℕ → ℕ × ℕ
counting a zero = (if a == ul_stat then 1 else 0x241, 0)
counting a (suc n) = (0, n)

uartlite_getc-Arrives_example :
    (uartlite_getc counting 2 2 ≡ none)
    × (uartlite_getc counting 5 2
        ≡ some (bit_and (counting ul_rx_fifo (polls counting 3 2)).0 0xFF, 0))
unfolding polls
uartlite_getc-Arrives_example =
    uartlite_getc-Arrives counting 2 2 5 2 (omega arith) (omega arith)
      (unfold Arrives in (refl, (refl, λ e. ground arith)))
