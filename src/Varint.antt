-- ===== src/Varint.antt =====
-- src/common/varint.c: Bitcoin's variable-length integers, in 1, 3, 5 or 9 bytes.
pub mod Format
mod Tests
use acre_ledger_app.Base.{ℕ, ◌+◌, ◌%◌, ◌^◌, Option, none, some, ◌>>=◌, Memory, load, store}
use acre_ledger_app.Base.{ltb, leb, ◌==◌, if◌then◌else◌}
use acre_ledger_app.Bytes.{read_u16_le, read_u32_le, read_u64_le}
use acre_ledger_app.Bytes.{write_u16_le, write_u32_le, write_u64_le}

unfoldable pub varint_size : ℕ → ℕ
varint_size value =
    if leb value 0xfc
    then 1
    else if leb value 0xffff
    then 3
    else if leb value 0xffff_ffff
    then 5
    else 9

-- The inner `none` is the return value -1; else the length and `*value`.
unfoldable pub varint_read : Memory → ℕ → Option (Option (ℕ × ℕ))
varint_read input in_len = if ltb in_len 1 then some none else do
  prefix ← load input 0
  if prefix == 0xfd
      then (if ltb in_len 3 then some none else do v ← read_u16_le input 1; some (some (3, v)))
      else if prefix == 0xfe
      then (if ltb in_len 5 then some none else do v ← read_u32_le input 1; some (some (5, v)))
      else if prefix == 0xff
      then (if ltb in_len 9 then some none else do v ← read_u64_le input 1; some (some (9, v)))
      else some (some (1, prefix))

-- The memory after the call, and the return value: `none` is -1.
unfoldable pub varint_write : Memory → ℕ → ℕ → Option (Memory × Option ℕ)
varint_write out offset value =
    let varint_len = varint_size value in
    if varint_len == 1
    then (do o ← store out offset (value % 2 ^ 8); some (o, some varint_len))
    else if varint_len == 3
    then (do
      o ← store out offset 0xfd
      o ← write_u16_le o (offset + 1) (value % 2 ^ 16)
      some (o, some varint_len))
    else if varint_len == 5
    then (do
      o ← store out offset 0xfe
      o ← write_u32_le o (offset + 1) (value % 2 ^ 32)
      some (o, some varint_len))
    else if varint_len == 9
    then (do
      o ← store out offset 0xff
      o ← write_u64_le o (offset + 1) value
      some (o, some varint_len))
    else some (out, none)
