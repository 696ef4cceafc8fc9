-- ===== src/Elf.antt =====
-- sim/cpp/elf_loader.h and sim/cpp/elf_loader.cpp: the loader of 32-bit RISC-V ELF files.
pub mod Outcome
pub mod File
pub mod Segments
pub mod Symbols
pub mod Load
pub mod Mapped
