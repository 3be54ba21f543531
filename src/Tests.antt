-- ===== src/Tests.antt =====
-- Runs of the model at concrete inputs, and each theorem at an input that meets its conditions.
mod Leaves
mod Inners
mod Threads
mod Tables
mod Memory
mod Calls
pub mod Trees
mod Roots
mod Sampling
mod Scans
mod ByteKeys
mod Locks
