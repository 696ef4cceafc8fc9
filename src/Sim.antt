-- ===== src/Sim.antt =====
-- sim/cpp/sim_main.cpp: the testbench that loads an ELF file, runs the clock and takes the exit code.
pub mod Soc
pub mod Text
pub mod Load
pub mod Loop
pub mod Main
pub mod Top
