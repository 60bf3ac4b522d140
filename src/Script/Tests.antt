-- ===== src/Script/Tests.antt =====
-- The theorem on output types, at a Taproot output.
use acre_ledger_app.Base.{
  ℕ, List, [], ◌∷◌, arith, ◌≡◌, refl, some, length, replicate, length-replicate,
}
use acre_ledger_app.Bytes.Check.{are_bytes-IsByte}
use acre_ledger_app.Script.OpReturn.{format_opscript_script}
use acre_ledger_app.Script.Bounds.{Safe}
use acre_ledger_app.Script.Description.{IsDescription, format_opscript_script_in_bounds}
use acre_ledger_app.Script.{get_script_type}
use acre_ledger_app.Script.Standard.{pay_to_taproot, type_of, script_of, get_script_type-script_of}

get_script_type-script_of_example :
    get_script_type
      (script_of pay_to_taproot (replicate 32 7))
      (length (script_of pay_to_taproot (replicate 32 7)))
    ≡ some (some (type_of pay_to_taproot))
get_script_type-script_of_example = get_script_type-script_of pay_to_taproot (replicate 32 7) refl

-- OP_RETURN, and a push of two bytes
abbrev small_op_return : List ℕ
small_op_return = 0x6a ∷ 2 ∷ 0xab ∷ 0x01 ∷ []

format_opscript_script_in_bounds_example :
    Safe IsDescription (format_opscript_script small_op_return 4 (replicate 185 1))
format_opscript_script_in_bounds_example =
    format_opscript_script_in_bounds small_op_return 4 (replicate 185 1)
      (are_bytes-IsByte small_op_return refl) (omega arith) (length-replicate {A = ℕ} 185 1)
