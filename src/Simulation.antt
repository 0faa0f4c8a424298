-- ===== src/Simulation.antt =====
-- engine/simulation: the deterministic core, one module for each of its headers.
pub mod TickAccumulator
pub mod SaveStream
pub mod Command
pub mod CommandCodec
pub mod TurnGate
pub mod Rng
pub mod Schedule
pub mod World
pub mod Kernel
pub mod Replay
