-- ===== src/Tests.antt =====
-- Runs of the model on concrete data: the instances that they share, and one module of runs for each
-- group of the program's parts.
pub mod Sample
mod Connections
mod Bridges
mod Filing
mod Settings
mod Relays
mod Networks
mod Fuzzers
mod Processes
