-- ===== src/Schema.antt =====
-- tools/benchmark_schema: the validator of benchmark captures.
pub mod Kernels
pub mod Mode
pub mod Predicates
pub mod Chain
pub mod Context
pub mod Primes
pub mod Expect
pub mod Wrap64
pub mod Finite
pub mod ExactWide
pub mod Bounded
pub mod Contract
pub mod Output
pub mod Core
pub mod Events
pub mod Schedule
pub mod TileBounds
pub mod Adaptive
mod Examples
mod EntryExamples
mod BoundedExamples
