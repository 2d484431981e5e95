-- ===== src/Frob.antt =====
-- src/frob.cc: what Pyflame reads of a Python interpreter in the traced process.
pub mod Layout
pub mod Lines
pub mod Stack
pub mod Strings
pub mod Threads
pub mod Utf8
