-- ===== src/Script/OpReturn.antt =====
-- src/common/script.c: `format_opscript_script`, the description of an OP_RETURN output.
use acre_ledger_app.Base.{
  ℕ, zero, suc, ◌+◌, ◌-◌, ◌/◌, ◌%◌, Option, none, some, [], ◌∷◌, ◌++◌, replicate,
}
use acre_ledger_app.Base.{
  Bool, true, false, not, ◌&&◌, ◌||◌, ltb, leb, ◌==◌, if◌then◌else◌, Memory, load, store,
  store_bytes,
}

-- The outer `none` is an access outside the memory, the inner one the return value -1. What a call
-- that fails leaves in `out` is not looked at.
abbrev pub Attempt : Type 0 → Type 0
Attempt A = Option (Option A)

infixl 5 ◌>>=◌
abbrev pub ◌>>=◌ : {A B : Type 0} → Attempt A → (A → Attempt B) → Attempt B
none >>= f = none
some none >>= f = some none
some (some a) >>= f = f a

abbrev pub return : {A : Type 0} → A → Attempt A
return a = some (some a)

abbrev pub fail : {A : Type 0} → Attempt A
fail = some none

abbrev pub lift : {A : Type 0} → Option A → Attempt A
lift none = none
lift (some a) = some (some a)

abbrev pub require : Bool → Attempt (Unit {0})
require true = return tt
require false = fail

-- `out` and `out_ctr`
pub record Out : Type 0 where
  pub memory : Memory
  pub out_ctr : ℕ

-- `out[out_ctr++] = c`
unfoldable pub put : ℕ → Out → Attempt Out
put c out = do
  memory ← lift (store out.memory out.out_ctr c)
  return (record { memory = memory; out_ctr = out.out_ctr + 1 })

-- "0123456789abcdef"
abbrev pub hex : Memory
hex = 48 ∷ 49 ∷ 50 ∷ 51 ∷ 52 ∷ 53 ∷ 54 ∷ 55 ∷ 56 ∷ 57 ∷ 97 ∷ 98 ∷ 99 ∷ 100 ∷ 101 ∷ 102 ∷ []

-- "OP_RETURN "
abbrev pub op_return_text : Memory
op_return_text = 79 ∷ 80 ∷ 95 ∷ 82 ∷ 69 ∷ 84 ∷ 85 ∷ 82 ∷ 78 ∷ 32 ∷ []

-- The number of OP_1 to OP_16, in decimal
unfoldable pub put_number : ℕ → Out → Attempt Out
put_number num out =
    if leb 10 num then (do out ← put 49 out; put (48 + (num - 10)) out) else put (48 + num) out

-- The length byte of OP_PUSHDATA1: the offset behind it, and the number of bytes that are pushed
unfoldable pub read_length : Memory → ℕ → ℕ → Attempt (ℕ × ℕ)
read_length script script_len offset = do
  _ ← require (ltb offset script_len)
  hex_length ← lift (load script offset)
  _ ← require (ltb 75 hex_length)
  return (offset + 1, hex_length)

-- What the opcode before `offset` does: the offset of the pushed bytes, their number, and the output
unfoldable pub run_opcode : Memory → ℕ → ℕ → ℕ → Out → Attempt (ℕ × ℕ × Out)
run_opcode script script_len opcode offset out =
    if ltb 0x60 opcode || opcode == 0x50 || opcode == 0x4d || opcode == 0x4e
    then fail
    else if opcode == 0
    then (do out ← put 48 out; return (offset, 0, out))
    else if leb 1 opcode && leb opcode 75
    then return (offset, opcode, out)
    else if opcode == 0x4c
    then (do r ← read_length script script_len offset; return (r.0, r.1, out))
    else if opcode == 0x4f
    then (do out ← put 45 out; out ← put 49 out; return (offset, 0, out))
    else if leb 0x51 opcode && leb opcode 0x60
    then (do out ← put_number (opcode - 0x50) out; return (offset, 0, out))
    else fail

-- The loop over the pushed bytes
unfoldable pub put_hex : Memory → ℕ → ℕ → Out → Attempt Out
put_hex script offset zero out = return out
put_hex script offset (suc n) out = do
  data_byte ← lift (load script offset)
  high ← lift (load hex (data_byte / 16))
  out ← put high out
  low ← lift (load hex (data_byte % 16))
  out ← put low out
  put_hex script (offset + 1) n out

-- A push of one byte that has an opcode of its own
unfoldable pub check_minimal : Memory → ℕ → ℕ → Attempt (Unit {0})
check_minimal script offset hex_length =
    if hex_length == 1
    then (do b ← lift (load script offset); require (not (b == 0x81 || (leb 1 b && leb b 16))))
    else return tt

unfoldable pub put_push : Memory → ℕ → ℕ → Out → Attempt Out
put_push script offset hex_length out =
    if ltb 0 hex_length
    then (do out ← put 48 out; out ← put 120 out; put_hex script offset hex_length out)
    else return out

-- A round of the loop over the opcodes
unfoldable pub opcode_round : Memory → ℕ → ℕ → Out → Attempt (ℕ × Out)
opcode_round script script_len offset out = do
  opcode ← lift (load script offset)
  r ← run_opcode script script_len opcode (offset + 1) out
  _ ← require (leb (r.0 + r.1) script_len)
  _ ← check_minimal script r.0 r.1
  out ← put_push script r.0 r.1 r.2
  out ← put 32 out
  return (r.0 + r.1, out)

-- The loop, with the number of pushes that are still allowed
unfoldable pub opcode_loop : ℕ → Memory → ℕ → ℕ → Out → Attempt (ℕ × Out)
opcode_loop zero script script_len offset out = return (offset, out)
opcode_loop (suc pushes) script script_len offset out =
    if ltb offset script_len
    then (do
      r ← opcode_round script script_len offset out
      opcode_loop pushes script script_len r.0 r.1)
    else return (offset, out)

-- MAX_OPRETURN_OUTPUT_DESC_SIZE
abbrev pub max_description : ℕ
max_description = 185

-- `out[out_ctr - 1] = '\0'`, and the return
unfoldable pub terminate : Out → Attempt (ℕ × Memory)
terminate out = do
  memory ← lift (store out.memory (out.out_ctr - 1) 0)
  return (out.out_ctr, memory)

-- `strncpy` fills what is left of `out` with zeros.
unfoldable pub describe : Memory → ℕ → Memory → Attempt (ℕ × Memory)
describe script script_len out = do
  memory ← lift (store_bytes out 0 (op_return_text ++ replicate (max_description - 10) 0))
  let start : Out = record { memory = memory; out_ctr = 10 }
  if script_len == 1 then terminate start else (do
    r ← opcode_loop 5 script script_len 1 start
    _ ← require (leb script_len r.0)
    terminate r.1)

unfoldable pub format_opscript_script : Memory → ℕ → Memory → Attempt (ℕ × Memory)
format_opscript_script script script_len out = if script_len == 0 then fail else (do
  first ← lift (load script 0)
  _ ← require (first == 0x6a)
  _ ← require (leb script_len 83)
  describe script script_len out)
