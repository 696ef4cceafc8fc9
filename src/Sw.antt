-- ===== src/Sw.antt =====
-- The C software under sw/ that runs on the SoC.
pub mod Code
pub mod Machine
pub mod Mmio
pub mod Uartlite
pub mod Freertos
