-- ===== src/Bytes.antt =====
-- src/common/read.c and src/common/write.c: integers in memory, most or least significant byte
-- first. A byte is a number; an access outside the memory is a fault.
pub mod Values
pub mod Words
pub mod Check
pub mod Reads
pub mod Writes
use acre_ledger_app.Base.{ℕ, ◌+◌, ◌%◌, ◌<◌, bit_or, Option, some, ◌>>=◌, Memory, load, store}
use acre_ledger_app.Base.Bits.{shl, shr}

abbrev pub IsByte : ℕ → Type 0
IsByte b = b < 256

pub data Endianness : Type 0 where
  be le : Endianness

unfoldable pub read_u16_be : Memory → ℕ → Option ℕ
read_u16_be ptr offset = do
  a ← load ptr (offset + 0)
  b ← load ptr (offset + 1)
  some (bit_or (shl a 8) (shl b 0))

unfoldable pub read_u32_be : Memory → ℕ → Option ℕ
read_u32_be ptr offset = do
  a ← load ptr (offset + 0)
  b ← load ptr (offset + 1)
  c ← load ptr (offset + 2)
  d ← load ptr (offset + 3)
  some (bit_or (bit_or (bit_or (shl a 24) (shl b 16)) (shl c 8)) (shl d 0))

unfoldable pub read_u64_be : Memory → ℕ → Option ℕ
read_u64_be ptr offset = do
  a ← load ptr (offset + 0)
  b ← load ptr (offset + 1)
  c ← load ptr (offset + 2)
  d ← load ptr (offset + 3)
  e ← load ptr (offset + 4)
  f ← load ptr (offset + 5)
  g ← load ptr (offset + 6)
  h ← load ptr (offset + 7)
  some (
      bit_or
        (bit_or
          (bit_or
            (bit_or (bit_or (bit_or (bit_or (shl a 56) (shl b 48)) (shl c 40)) (shl d 32))
              (shl e 24))
            (shl f 16))
          (shl g 8))
        (shl h 0))

unfoldable pub read_u16_le : Memory → ℕ → Option ℕ
read_u16_le ptr offset = do
  a ← load ptr (offset + 0)
  b ← load ptr (offset + 1)
  some (bit_or (shl a 0) (shl b 8))

unfoldable pub read_u32_le : Memory → ℕ → Option ℕ
read_u32_le ptr offset = do
  a ← load ptr (offset + 0)
  b ← load ptr (offset + 1)
  c ← load ptr (offset + 2)
  d ← load ptr (offset + 3)
  some (bit_or (bit_or (bit_or (shl a 0) (shl b 8)) (shl c 16)) (shl d 24))

unfoldable pub read_u64_le : Memory → ℕ → Option ℕ
read_u64_le ptr offset = do
  a ← load ptr (offset + 0)
  b ← load ptr (offset + 1)
  c ← load ptr (offset + 2)
  d ← load ptr (offset + 3)
  e ← load ptr (offset + 4)
  f ← load ptr (offset + 5)
  g ← load ptr (offset + 6)
  h ← load ptr (offset + 7)
  some (
      bit_or
        (bit_or
          (bit_or
            (bit_or (bit_or (bit_or (bit_or (shl a 0) (shl b 8)) (shl c 16)) (shl d 24)) (shl e 32))
            (shl f 40))
          (shl g 48))
        (shl h 56))

unfoldable pub write_u16_be : Memory → ℕ → ℕ → Option Memory
write_u16_be ptr offset value = do
  p1 ← store ptr (offset + 0) (shr value 8 % 256)
  store p1 (offset + 1) (shr value 0 % 256)

unfoldable pub write_u32_be : Memory → ℕ → ℕ → Option Memory
write_u32_be ptr offset value = do
  p1 ← store ptr (offset + 0) (shr value 24 % 256)
  p2 ← store p1 (offset + 1) (shr value 16 % 256)
  p3 ← store p2 (offset + 2) (shr value 8 % 256)
  store p3 (offset + 3) (shr value 0 % 256)

unfoldable pub write_u64_be : Memory → ℕ → ℕ → Option Memory
write_u64_be ptr offset value = do
  p1 ← store ptr (offset + 0) (shr value 56 % 256)
  p2 ← store p1 (offset + 1) (shr value 48 % 256)
  p3 ← store p2 (offset + 2) (shr value 40 % 256)
  p4 ← store p3 (offset + 3) (shr value 32 % 256)
  p5 ← store p4 (offset + 4) (shr value 24 % 256)
  p6 ← store p5 (offset + 5) (shr value 16 % 256)
  p7 ← store p6 (offset + 6) (shr value 8 % 256)
  store p7 (offset + 7) (shr value 0 % 256)

unfoldable pub write_u16_le : Memory → ℕ → ℕ → Option Memory
write_u16_le ptr offset value = do
  p1 ← store ptr (offset + 0) (shr value 0 % 256)
  store p1 (offset + 1) (shr value 8 % 256)

unfoldable pub write_u32_le : Memory → ℕ → ℕ → Option Memory
write_u32_le ptr offset value = do
  p1 ← store ptr (offset + 0) (shr value 0 % 256)
  p2 ← store p1 (offset + 1) (shr value 8 % 256)
  p3 ← store p2 (offset + 2) (shr value 16 % 256)
  store p3 (offset + 3) (shr value 24 % 256)

unfoldable pub write_u64_le : Memory → ℕ → ℕ → Option Memory
write_u64_le ptr offset value = do
  p1 ← store ptr (offset + 0) (shr value 0 % 256)
  p2 ← store p1 (offset + 1) (shr value 8 % 256)
  p3 ← store p2 (offset + 2) (shr value 16 % 256)
  p4 ← store p3 (offset + 3) (shr value 24 % 256)
  p5 ← store p4 (offset + 4) (shr value 32 % 256)
  p6 ← store p5 (offset + 5) (shr value 40 % 256)
  p7 ← store p6 (offset + 6) (shr value 48 % 256)
  store p7 (offset + 7) (shr value 56 % 256)
