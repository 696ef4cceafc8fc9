-- ===== src/Lib.antt =====
-- Verification of Qinglong Core: the C++ testbenches under sim/cpp that load programs into the
-- memories of the SoC, drive its clock and report how a run ended, the C code under sw/common and
-- sw/freertos that runs on the SoC, and blocks of the hardware between the two.
--
-- The parts and how they interact:
--
-- * Elf models sim/cpp/elf_loader.h and sim/cpp/elf_loader.cpp. Elf.File has the reads through the
--   structures of <elf.h>, Elf.Segments the loops over the program headers, Elf.Symbols those over
--   the section headers and the symbols, Elf.Load the function `load_elf32` on the bytes of the
--   mapped file, and Elf.Mapped the struct `Mapped` round it. How a call ends is an `Outcome`: a
--   value, a thrown error, a fault (a read outside the file) or a hang (a loop whose 32-bit counter
--   wraps before it meets its bound).
-- * Dpi models the exported functions of rtl/mem/sram_dp.sv and rtl/mem/axil_bram_big.sv. A memory is
--   a function from word indices.
-- * Args models `plusarg` and `has_plusarg`, which sim/cpp/sim_main.cpp and sim/cpp/sim_linux.cpp
--   share, and Args.Number what they use of `strtoull`.
-- * Sim models sim/cpp/sim_main.cpp: Sim.Load the loop that writes the ELF words into the SRAM,
--   Sim.Loop the reset, the body of the main loop as one function per step, the loop and the timeout,
--   Sim.Text the lines of the commit trace, and Sim.Main `main` from the arguments to its status.
--   Sim.Soc is the interface to the class that Verilator generates, which is a parameter: a state, a
--   call of `eval`, the sampled outputs and the array behind the DPI functions. Sim.Top fills it with
--   rtl/soc/soc_tb_top.sv: the registers of Hw.Mmio behind the decoder of rtl/soc/soc_top.sv, and a
--   parameter for the rest of the SoC.
-- * Linux models sim/cpp/sim_linux.cpp: Linux.Blob `load_blob_at`, Linux.Images the filling of the
--   memories in `main`, Linux.Run the reset, the loop with its traces and messages and what follows
--   it, and Linux.Main `main` from the arguments to its status. Linux.Soc is the interface to the
--   class that Verilator generates for this testbench.
-- * Hw models blocks of the hardware, one rising edge at a time: Hw.Mmio is rtl/soc/mmio.sv,
--   Hw.Divider is rtl/core/div_unit.sv, Hw.Multiplier is rtl/core/mul_unit.sv and Hw.BusMaster is
--   rtl/soc/axi4_master.sv, each the whole file but for the constant attributes on the bus.
--   Hw.Csr is rtl/core/csr.sv, whose registers are vectors of bits (Hw.Vector), and Hw.Pmp the check of
--   rtl/core/pmp.sv, which has no state and reads the entries that Hw.Csr keeps. Hw.Plic is
--   rtl/soc/plic.sv, for any number of sources and contexts.
--   Hw.UartliteSim is rtl/mem/axil_uartlite_sim.sv, the UART of the simulated SoC, and Hw.Uart the
--   interface of a UART that a polling driver relies on, which that UART fills. The UART of the FPGA
--   is a block of the vendor: there the interface stands for what its guide documents of STAT and of
--   the FIFO.
-- * Sw models C code as the sequence of its volatile accesses and kernel calls (Sw.Code): Sw.Mmio is
--   sw/common/mmio.h, Sw.Uartlite is sw/common/uartlite.h, and Sw.Freertos is sw/freertos/main.c.
--   Sw.Machine executes such a sequence: each access goes to the device that the decoder of
--   rtl/soc/soc_top.sv selects. Sw.Freertos.System runs the two tasks under a kernel that may switch
--   before every access and may end a delay at any time; Sw.Freertos.Priority adds the priorities that
--   `main` gives the tasks. The kernel itself is another project's.
-- * Prelude has the shared names, tests and lemmas; Tests runs the definitions on a small ELF file and
--   toy SoCs and the software on a small UART, and applies each theorem at an input.
--
-- Conventions: numbers are natural numbers, an integer of w bits keeps its wrap-around written out,
-- and an `int` is its 32-bit pattern. A file or a text is the list of its bytes.
--
-- Bounds and fuel: the loops over a segment get a round for every four bytes and one more; they count
-- by 4, so running out of it means that the counter has wrapped. The main loops get `timeout` rounds
-- less the cycles counted already; each round counts one cycle.
--
-- Not modelled: the text of the messages on stderr and of the lines of the Linux testbench's trace
-- files (they are data with their values), the VCD and FST files, and `top->final()`, which are
-- output only; `commit_rd_addr` is taken to be below 100, as a register number is, where the trace
-- line pads it. Of the C code, time: how long a delay takes is the kernel's, and an access to a device is one step, whatever the bus takes for it. Of rtl/core/csr.sv,
-- the debug messages and the tap for the formal wrapper. The rest of the core, the caches, the
-- routers of the bus and the other devices, the assembly, the test programs, the scripts and the board
-- files are not part of this library.
pub mod Prelude
pub mod Elf
pub mod Args
pub mod Dpi
pub mod Sim
pub mod Linux
pub mod Hw
pub mod Sw
mod Tests
