-- ===== src/Tests.antt =====
-- Tests of the definitions on concrete inputs, and each theorem at an input that meets its
-- hypotheses.
mod Data
mod Elf
mod Sim
mod Linux
mod LinuxRun
mod Sw
mod Hw
mod Uartlite
mod BusMaster
mod Pmp
mod Csr
mod Top
mod Plic
mod Whole
