-- ===== src/Buffer.antt =====
-- src/common/buffer.c and buffer.h: a cursor over a block of memory. `size_t` has 32 bits on the
-- devices. A function that updates `*buffer` returns the new one beside its result; the outer
-- `none` is an access outside the memory that `ptr` points to.
pub mod Stream
pub mod Reads
pub mod Words
pub mod Total
pub mod Invariant
pub mod Writes
mod Tests
use acre_ledger_app.Base.{ℕ, zero, suc, ◌+◌, ◌-◌, ◌*◌, ◌%◌, ◌^◌, Bool, true, false, not, ◌||◌}
use acre_ledger_app.Base.{
  Option, none, some, ◌>>=◌, List, [], ◌∷◌, length, drop, Memory, load, store,
}
use acre_ledger_app.Base.{load_bytes, store_bytes, ltb, leb, ◌==◌, if◌then◌else◌}
use acre_ledger_app.Bytes.{Endianness, be, le, read_u16_be, read_u32_be, read_u64_be}
use acre_ledger_app.Bytes.{read_u16_le, read_u32_le, read_u64_le}
use acre_ledger_app.Bytes.{write_u16_be, write_u32_be, write_u64_be}
use acre_ledger_app.Bytes.{write_u16_le, write_u32_le, write_u64_le}
use acre_ledger_app.Varint.{varint_read}

-- `ptr` is the memory from the pointer on.
pub record Buffer : Type 0 where
  pub ptr : Memory
  pub size : ℕ
  pub offset : ℕ

-- `size_t` arithmetic
abbrev pub add_size : ℕ → ℕ → ℕ
add_size a b = (a + b) % 2 ^ 32

abbrev pub sub_size : ℕ → ℕ → ℕ
sub_size a b = (a + 2 ^ 32 - b) % 2 ^ 32

abbrev pub create : Memory → ℕ → Buffer
create ptr size = record { ptr = ptr; size = size; offset = 0 }

unfoldable pub can_read : Buffer → ℕ → Bool
can_read buffer n = leb n (sub_size buffer.size buffer.offset)

unfoldable pub seek_set : Buffer → ℕ → Bool × Buffer
seek_set buffer offset =
    if ltb buffer.size offset then (false, buffer) else (true, record buffer { offset = offset })

unfoldable pub seek_cur : Buffer → ℕ → Bool × Buffer
seek_cur buffer offset =
    if ltb (add_size buffer.offset offset) buffer.offset
      || ltb buffer.size (add_size buffer.offset offset)
    then (false, buffer)
    else (true, record buffer { offset = add_size buffer.offset offset })

unfoldable pub seek_end : Buffer → ℕ → Bool × Buffer
seek_end buffer offset =
    if ltb buffer.size offset
    then (false, buffer)
    else (true, record buffer { offset = sub_size buffer.size offset })

unfoldable pub read_u8 : Buffer → Option (Bool × ℕ × Buffer)
read_u8 buffer =
    if not (can_read buffer 1)
    then some (false, 0, buffer)
    else do value ← load buffer.ptr buffer.offset; some (true, value, (seek_cur buffer 1).1)

-- The inner `none` is the result false, with `*value` untouched.
unfoldable pub peek_n : Buffer → ℕ → Option (Option ℕ)
peek_n buffer n =
    if not (can_read buffer (add_size n 1))
    then some none
    else do value ← load buffer.ptr (add_size buffer.offset n); some (some value)

unfoldable pub peek : Buffer → Option (Option ℕ)
peek buffer = peek_n buffer 0

unfoldable pub read_u16 : Buffer → Endianness → Option (Bool × ℕ × Buffer)
read_u16 buffer endianness = if not (can_read buffer 2) then some (false, 0, buffer) else do
  value ← elim endianness [
    | be ↦ read_u16_be buffer.ptr buffer.offset
    | le ↦ read_u16_le buffer.ptr buffer.offset
  ]
  some (true, value, (seek_cur buffer 2).1)

unfoldable pub read_u32 : Buffer → Endianness → Option (Bool × ℕ × Buffer)
read_u32 buffer endianness = if not (can_read buffer 4) then some (false, 0, buffer) else do
  value ← elim endianness [
    | be ↦ read_u32_be buffer.ptr buffer.offset
    | le ↦ read_u32_le buffer.ptr buffer.offset
  ]
  some (true, value, (seek_cur buffer 4).1)

unfoldable pub read_u64 : Buffer → Endianness → Option (Bool × ℕ × Buffer)
read_u64 buffer endianness = if not (can_read buffer 8) then some (false, 0, buffer) else do
  value ← elim endianness [
    | be ↦ read_u64_be buffer.ptr buffer.offset
    | le ↦ read_u64_le buffer.ptr buffer.offset
  ]
  some (true, value, (seek_cur buffer 8).1)

unfoldable pub read_varint : Buffer → Option (Bool × ℕ × Buffer)
read_varint buffer = do
  r ← varint_read (drop buffer.offset buffer.ptr) (sub_size buffer.size buffer.offset)
  elim r [
    | none ↦ some (false, 0, buffer)
    | some (n, value) ↦ some (true, value, (seek_cur buffer n).1)
  ]

-- The inner `none` is the result false, with `out` untouched.
unfoldable pub read_bytes : Buffer → ℕ → Option (Option (List ℕ × Buffer))
read_bytes buffer n =
    if ltb (sub_size buffer.size buffer.offset) n
    then some none
    else do out ← load_bytes buffer.ptr buffer.offset n; some (some (out, (seek_cur buffer n).1))

unfoldable pub write_u8 : Buffer → ℕ → Option (Bool × Buffer)
write_u8 buffer value = if not (can_read buffer 1) then some (false, buffer) else do
  ptr ← store buffer.ptr buffer.offset value
  some (true, (seek_cur (record buffer { ptr = ptr }) 1).1)

unfoldable pub write_u16 : Buffer → ℕ → Endianness → Option (Bool × Buffer)
write_u16 buffer value endianness = if not (can_read buffer 2) then some (false, buffer) else do
  ptr ← elim endianness [
    | be ↦ write_u16_be buffer.ptr buffer.offset value
    | le ↦ write_u16_le buffer.ptr buffer.offset value
  ]
  some (true, (seek_cur (record buffer { ptr = ptr }) 2).1)

unfoldable pub write_u32 : Buffer → ℕ → Endianness → Option (Bool × Buffer)
write_u32 buffer value endianness = if not (can_read buffer 4) then some (false, buffer) else do
  ptr ← elim endianness [
    | be ↦ write_u32_be buffer.ptr buffer.offset value
    | le ↦ write_u32_le buffer.ptr buffer.offset value
  ]
  some (true, (seek_cur (record buffer { ptr = ptr }) 4).1)

unfoldable pub write_u64 : Buffer → ℕ → Endianness → Option (Bool × Buffer)
write_u64 buffer value endianness = if not (can_read buffer 8) then some (false, buffer) else do
  ptr ← elim endianness [
    | be ↦ write_u64_be buffer.ptr buffer.offset value
    | le ↦ write_u64_le buffer.ptr buffer.offset value
  ]
  some (true, (seek_cur (record buffer { ptr = ptr }) 8).1)

-- `bytes` are the `n` bytes at the source pointer.
unfoldable pub write_bytes : Buffer → List ℕ → Option (Bool × Buffer)
write_bytes buffer bytes = if not (can_read buffer (length bytes)) then some (false, buffer) else do
  ptr ← store_bytes buffer.ptr buffer.offset bytes
  some (true, (seek_cur (record buffer { ptr = ptr }) (length bytes)).1)

-- `address` is the address that `ptr` holds. The result is the offset of the returned pointer from
-- `ptr`; the `none` is NULL.
unfoldable pub alloc : ℕ → Buffer → ℕ → Bool → Option ℕ × Buffer
alloc address buffer size aligned =
    let d : ℕ = (address + buffer.offset) % 2 ^ 32 % 4 in
    let padding_size : ℕ = if aligned then (if d == 0 then 0 else 4 - d) else 0 in
    if not (can_read buffer (add_size padding_size size))
    then (none, buffer)
    else (some (buffer.offset + padding_size), (seek_cur buffer (add_size padding_size size)).1)
