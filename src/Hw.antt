-- ===== src/Hw.antt =====
-- The blocks of rtl/ that software and the testbenches talk to, as clocked registers.
pub mod Mmio
pub mod Uart
pub mod UartliteSim
pub mod Vector
pub mod Pmp
pub mod Plic
pub mod Csr
pub mod BusMaster
pub mod Divider
pub mod Multiplier
