-- ===== src/Schema/Bounded.antt =====
-- semantic_bounded.py: the contract of bounded captures, in parts that are run one after another.
pub mod Names
pub mod Export
pub mod Kinds
pub mod Oneshot
pub mod Chains
pub mod Tail
pub mod Contract
pub mod Accepts
