-- ===== src/Tests.antt =====
-- A simulated operating system, and the theorems at concrete states of it.
mod Sim
mod Interp
mod Waits
mod Probing
mod Sampling
mod Calls
mod Starting
mod Detecting
mod Executable
mod Symbols
mod Zeros
mod Maps
mod Locating
mod Sharing
mod Mapping
mod Mounts
