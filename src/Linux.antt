-- ===== src/Linux.antt =====
-- sim/cpp/sim_linux.cpp: the testbench that boots Linux from images in the DDR model.
pub mod Blob
pub mod Images
pub mod Soc
pub mod Run
pub mod Main
