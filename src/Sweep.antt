-- ===== src/Sweep.antt =====
-- The loop of a benchmark sweep, tools/benchmark_sweep_lib/execution.py.
pub mod Capture
pub mod Dedupe
pub mod Run
pub mod Counts
pub mod Resume
mod Examples
