-- ===== src/Parser.antt =====
-- src/common/parser.c and parser.h: two buffers that are read as one, and a parser that takes up
-- where it stopped for want of data.
pub mod Stream
pub mod Consolidate
mod Tests
use acre_ledger_app.Base.{
  ℕ, zero, suc, ◌+◌, ◌-◌, ◌%◌, ◌^◌, Option, none, some, ◌>>=◌, List, [], ◌∷◌, ◌++◌,
}
use acre_ledger_app.Base.{
  Bool, true, false, not, load, load_bytes, store_bytes, drop, replicate, ltb, leb, ◌==◌,
}
use acre_ledger_app.Base.{if◌then◌else◌, take}
use acre_ledger_app.Bytes.{
  Endianness, be, le, read_u16_be, read_u16_le, read_u32_be, read_u32_le, read_u64_le,
}
use acre_ledger_app.Buffer
use acre_ledger_app.Buffer.{Buffer, add_size, sub_size}

-- `buffer_t *buffers[2]`
pub record Buffers : Type 0 where
  pub buffer0 : Buffer
  pub buffer1 : Buffer

abbrev pub left_in : Buffer → ℕ
left_in b = sub_size b.size b.offset

unfoldable pub dbuffer_get_length : Buffers → ℕ
dbuffer_get_length buffers = add_size (left_in buffers.buffer0) (left_in buffers.buffer1)

unfoldable pub dbuffer_can_read : Buffers → ℕ → Bool
dbuffer_can_read buffers n = leb n (dbuffer_get_length buffers)

-- `if (n > 0) buffer_read_bytes(...)`, whose result the code does not look at. If it were false, the
-- caller would go on with bytes that nothing wrote: that is `none`.
unfoldable pub read_part : Buffer → ℕ → Option (List ℕ × Buffer)
read_part buffer zero = some ([], buffer)
read_part buffer (suc n) = do r ← Buffer.read_bytes buffer (suc n); r

-- The inner `none` is the result false, with `out` untouched.
unfoldable pub dbuffer_read_bytes : Buffers → ℕ → Option (Option (List ℕ × Buffers))
dbuffer_read_bytes buffers n =
    let length0 : ℕ = left_in buffers.buffer0 in
    if ltb (dbuffer_get_length buffers) n
    then some none
    else let n0 : ℕ = if leb n length0 then n else length0 in
      (read_part buffers.buffer0 n0 >>= λ r0. read_part buffers.buffer1 (n - n0) >>= λ r1.
      some (some (r0.0 ++ r1.0, record { buffer0 = r0.1; buffer1 = r1.1 })))

-- The bytes and what is left, where the read is known to succeed: false would leave them unwritten.
unfoldable pub read_exactly : Buffers → ℕ → Option (List ℕ × Buffers)
read_exactly buffers n = do r ← dbuffer_read_bytes buffers n; r

unfoldable pub dbuffer_read_u8 : Buffers → Option (Bool × ℕ × Buffers)
dbuffer_read_u8 buffers = dbuffer_read_bytes buffers 1 >>= λ r. elim r [
  | none ↦ some (false, 0, buffers)
  | some (out, rest) ↦ load out 0 >>= λ value. some (true, value, rest)
]

unfoldable pub dbuffer_read_u16 : Buffers → Endianness → Option (Bool × ℕ × Buffers)
dbuffer_read_u16 buffers endianness =
    if not (dbuffer_can_read buffers 2)
    then some (false, 0, buffers)
    else (read_exactly buffers 2 >>= λ r.
        elim endianness [ be ↦ read_u16_be r.0 0 | le ↦ read_u16_le r.0 0 ] >>= λ value.
        some (true, value, r.1))

unfoldable pub dbuffer_read_u32 : Buffers → Endianness → Option (Bool × ℕ × Buffers)
dbuffer_read_u32 buffers endianness =
    if not (dbuffer_can_read buffers 4)
    then some (false, 0, buffers)
    else (read_exactly buffers 4 >>= λ r.
        elim endianness [ be ↦ read_u32_be r.0 0 | le ↦ read_u32_le r.0 0 ] >>= λ value.
        some (true, value, r.1))

unfoldable pub peek_first : Buffers → Option ℕ
peek_first buffers =
    if Buffer.can_read buffers.buffer0 1
    then load buffers.buffer0.ptr buffers.buffer0.offset
    else load buffers.buffer1.ptr buffers.buffer1.offset

-- The length excluding the prefix
unfoldable pub varint_data_length : ℕ → ℕ
varint_data_length first_byte =
    if first_byte == 0xfd
    then 2
    else if first_byte == 0xfe
    then 4
    else if first_byte == 0xff
    then 8
    else 0

unfoldable pub dbuffer_read_varint : Buffers → Option (Bool × ℕ × Buffers)
dbuffer_read_varint buffers =
    if not (dbuffer_can_read buffers 1)
    then some (false, 0, buffers)
    else (peek_first buffers >>= λ peeked.
        if not (dbuffer_can_read buffers (1 + varint_data_length peeked))
        then some (false, 0, buffers)
        else (read_exactly buffers 1 >>= λ r. load r.0 0 >>= λ first_byte.
            if leb first_byte 0xfc
            then some (true, first_byte, r.1)
            else (read_exactly r.1 (varint_data_length peeked) >>= λ s.
                read_u64_le (s.0 ++ replicate (8 - varint_data_length peeked) 0) 0 >>= λ value.
                some (true, value, s.1))))

-- The two blocks of memory do not overlap.
unfoldable pub parser_consolidate_buffers : Buffers → ℕ → Option (Bool × Buffers)
parser_consolidate_buffers buffers max_size =
    let length0 : ℕ = left_in buffers.buffer0 in
    let length1 : ℕ = left_in buffers.buffer1 in
    if ltb max_size (add_size length0 length1)
    then some (false, buffers)
    else (load_bytes buffers.buffer0.ptr buffers.buffer0.offset length0 >>= λ bytes0.
        store_bytes buffers.buffer0.ptr 0 bytes0 >>= λ ptr.
        load_bytes buffers.buffer1.ptr buffers.buffer1.offset length1 >>= λ bytes1.
        store_bytes ptr length0 bytes1 >>= λ ptr. some (
          true,
          record buffers {
            buffer0 = record { ptr = ptr; size = add_size length0 length1; offset = 0 };
          },
        ))

-- What a step returns: a negative number, 0 for more data, or a positive number.
pub data StepResult : Type 0 where
  error : ℕ → StepResult
  more_data : StepResult
  next : StepResult

abbrev pub ParsingStep : Type 0 → Type 0
ParsingStep S = S → Buffers → Option (StepResult × S × Buffers)

pub record ParserContext (S : Type 0) : Type 0 where
  pub cur_step : ℕ
  pub state : S

-- The steps from `cur_step` on
unfoldable pub run_steps :
    {S : Type 0}
    → List (ParsingStep S)
    → ParserContext S
    → Buffers
    → Option (StepResult × ParserContext S × Buffers)
run_steps [] parser_context buffers = some (next, parser_context, buffers)
run_steps (step_fn ∷ steps) parser_context buffers = step_fn parser_context.state buffers >>= λ r.
    elim r.0 [
      | error k ↦ some (error k, record parser_context { state = r.1 }, r.2)
      | more_data ↦ some (more_data, record parser_context { state = r.1 }, r.2)
      | next ↦ run_steps steps (record { cur_step = parser_context.cur_step + 1; state = r.1 }) r.2
    ]

unfoldable pub parser_run :
    {S : Type 0}
    → List (ParsingStep S)
    → ParserContext S
    → Buffers
    → Option (StepResult × ParserContext S × Buffers)
parser_run parsing_steps parser_context buffers =
    run_steps (drop parser_context.cur_step parsing_steps) parser_context buffers
