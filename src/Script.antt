-- ===== src/Script.antt =====
-- src/common/script.c: the size of a push, the type of an output script, and the description of an
-- OP_RETURN output.
pub mod Standard
pub mod OpReturn
pub mod Bounds
pub mod Description
mod Tests
use acre_ledger_app.Base.{
  ℕ, zero, suc, ◌+◌, ◌-◌, ◌/◌, ◌%◌, Option, none, some, ◌>>=◌, List, [], ◌∷◌, ◌++◌,
}
use acre_ledger_app.Base.{
  Bool, true, false, not, ◌&&◌, ◌||◌, ltb, leb, ◌==◌, if◌then◌else◌, Memory, load,
}

unfoldable pub get_push_script_size : ℕ → ℕ
get_push_script_size n =
    if leb n 16
    then 1
    else if ltb n 0x80
    then 2
    else if ltb n 0x8000
    then 3
    else if ltb n 0x80_0000
    then 4
    else if ltb n 0x8000_0000
    then 5
    else 6

-- `SCRIPT_TYPE_...`
pub data ScriptType : Type 0 where
  p2pkh p2sh p2wpkh p2wsh p2tr unknown_segwit : ScriptType

-- `script[i] == v`
unfoldable pub holds_at : Memory → ℕ → ℕ → Option Bool
holds_at script i v = do b ← load script i; some (b == v)

-- The `&&` of C, which does not read further than it must
unfoldable pub and_then : Option Bool → Option Bool → Option Bool
and_then o p = elim o [ none ↦ none | some b ↦ elim b [ true ↦ p | false ↦ some false ] ]

unfoldable pub is_p2pkh : Memory → ℕ → Option Bool
is_p2pkh script script_len = and_then (some (script_len == 25)) (
    and_then (holds_at script 0 0x76) (
      and_then (holds_at script 1 0xa9) (
        and_then (holds_at script 2 0x14)
          (and_then (holds_at script 23 0x88) (holds_at script 24 0xac)))))

unfoldable pub is_p2sh : Memory → ℕ → Option Bool
is_p2sh script script_len = and_then (some (script_len == 23)) (
    and_then (holds_at script 0 0xa9) (and_then (holds_at script 1 0x14) (holds_at script 22 0x87)))

-- A witness program of a version's opcode and a length
unfoldable pub is_program : ℕ → ℕ → Memory → ℕ → Option Bool
is_program opcode len script script_len =
    and_then (some (script_len == 2 + len))
      (and_then (holds_at script 0 opcode) (holds_at script 1 len))

-- Any witness program, as BIP-0141 has it
unfoldable pub is_segwit : Memory → ℕ → Option Bool
is_segwit script script_len =
    if leb 4 script_len && leb script_len 42
    then (do
      version ← load script 0
      if version == 0 || (leb 0x51 version && leb version 0x60)
          then (do push_len ← load script 1; some (script_len == 1 + 1 + push_len))
          else some false)
    else some false

-- `if (test) return type;`, and what follows
unfoldable pub or_else :
    Option Bool → ScriptType → Option (Option ScriptType) → Option (Option ScriptType)
or_else test type rest = elim test [
  | none ↦ none
  | some b ↦ elim b [ true ↦ some (some type) | false ↦ rest ]
]

-- The inner `none` is the return value -1.
unfoldable pub get_script_type : Memory → ℕ → Option (Option ScriptType)
get_script_type script script_len = or_else (is_p2pkh script script_len) p2pkh (
    or_else (is_p2sh script script_len) p2sh (
      or_else (is_program 0 0x14 script script_len) p2wpkh (
        or_else (is_program 0 0x20 script script_len) p2wsh (
          or_else (is_program 0x51 0x20 script script_len) p2tr
            (or_else (is_segwit script script_len) unknown_segwit (some none))))))
