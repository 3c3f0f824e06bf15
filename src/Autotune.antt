-- ===== src/Autotune.antt =====
-- The installer of autotune caches, tools/install_autotune_cache.py.
pub mod Result
pub mod Split
pub mod Fields
pub mod Registry
pub mod Entry
pub mod World
pub mod Ledger
pub mod Order
pub mod Coverage
pub mod Install
pub mod Merge
pub mod Accepted
pub mod Reload
pub mod Counts
pub mod Safety
pub mod Key
pub mod RoundTrip
pub mod Grouped
mod Examples
