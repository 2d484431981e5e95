-- ===== src/Symbol.antt =====
-- src/symbol.h and src/symbol.cc: the addresses that Pyflame finds in ELF files.
pub mod Addresses
pub mod Elf
pub mod Walk
