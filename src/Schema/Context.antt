-- ===== src/Schema/Context.antt =====
-- semantic_contracts.py: the values that `validate_semantic_contract` hands to the validator of each
-- contract in its dict `ctx`.
use rns.Prelude.{String}
use rns.Prelude.Int.{ℤ}
use rns.Json.{Value}

pub record Context : Type 0 where
  pub semantics : Value
  pub prefix : Value
  pub packed_layout : Value
  pub schedule : Value
  pub backend_metadata : Value
  pub k_value : ℤ
  pub bound_mode : Value
  pub residue_chain_length : ℤ
  pub residue_output_mode : String
  pub status_check : Value
  pub prefix_policy : Value
  pub metadata : Value
