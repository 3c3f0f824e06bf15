-- ===== src/Schema/Chain.antt =====
-- validator_schedule.py: the length and the output mode of a residue chain, and the predicates that
-- read them.
use rns.Prelude.{Bool, false, [], ◌∷◌, String, str_eq, ◌||◌, if◌then◌else◌}
use rns.Prelude.Int.{ℤ, pos, ltb_ℤ}
use rns.Json.{Fields, str, int, get, get_or, is_true}
use rns.Outcome.{Outcome, ◌and◌, ◌or◌}
use rns.Check.{Check, ◌>>=◌, ◌>>◌, pure, lift, error}
use rns.Schema.Mode.{is, holds, int_value, mode_is, mode_in}
use rns.Schema.Kernels.{int_at_least}

module _ (d : Fields) where
  -- `_residue_chain_length` and `_residue_output_mode` report a wrong value where they are read,
  -- and go on with the default.
  unfoldable pub residue_chain_length : Check ℤ
  residue_chain_length =
      let value = get_or "residue_chain_length" (int (pos 1)) d in
      if int_at_least (pos 1) value
      then pure (int_value value)
      else (error "residue_chain_length must be a positive integer" >> pure (pos 1))

  unfoldable pub residue_output_mode : Check String
  residue_output_mode = elim (get_or "residue_output_mode" (str "host_export") d) [
    | str mode ↦
        (if str_eq mode "host_export" || str_eq mode "residue_current_rns"
          then pure mode
          else (error "residue_output_mode must be host_export or residue_current_rns"
              >> pure "host_export"))
    | _ ↦ (error "residue_output_mode must be a string" >> pure "host_export")
  ]

  -- `_is_residue_current_chain_capture`
  unfoldable pub is_residue_current_chain_capture : Check Bool
  is_residue_current_chain_capture = do
    mode ← residue_output_mode
    lift (
        holds (str_eq mode "residue_current_rns")
        or is (get "epilogue_type" d) "residue_current_rns_output")

  unfoldable pub host_export_and : Outcome Bool → Check Bool
  host_export_and rest = do
    mode ← residue_output_mode
    lift (
        holds (str_eq mode "host_export")
        and holds (is_true (get "residue_chain_final_export" d))
        and rest)

  -- `self._residue_chain_length() > 1 and self._residue_output_mode() == "host_export" and rest`
  unfoldable pub final_export_and : Outcome Bool → Check Bool
  unfolding host_export_and
  final_export_and rest = do
    chain ← residue_chain_length
    if ltb_ℤ (pos 1) chain then host_export_and rest else pure false

  unfoldable pub is_residue_chain_final_export_capture : Check Bool
  unfolding final_export_and
  is_residue_chain_final_export_capture = final_export_and (
      mode_in d
        ("residue_chain_final_host_export" ∷ "residue_chain_independent_final_host_export" ∷ []))

  unfoldable pub is_residue_chain_independent_final_export_capture : Check Bool
  unfolding final_export_and
  is_residue_chain_independent_final_export_capture = final_export_and (
      holds (is_true (get "residue_chain_independent_final_export" d))
      and mode_is d "residue_chain_independent_final_host_export")
