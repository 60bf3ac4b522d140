-- ===== src/Bitvector.antt =====
-- src/common/bitvector.h: flags in an array of bytes.
pub mod Flags
mod Tests
use acre_ledger_app.Base.{ℕ, ◌+◌, ◌-◌, ◌*◌, ◌/◌, ◌%◌, ◌^◌, Option, some, ◌>>=◌}
use acre_ledger_app.Base.{Memory, load, store, bit_and, bit_or, Bool, ◌==◌, not, if◌then◌else◌}

abbrev pub bitvector_real_size : ℕ → ℕ
bitvector_real_size n = (n + 7) / 8

-- `none` is an access outside the vector. A shift of a byte to the right is a division.
unfoldable pub bitvector_get : Memory → ℕ → Option Bool
bitvector_get vec i = do
  byte ← load vec (i / 8)
  some (not (bit_and (byte / 2 ^ (7 - i % 8)) 1 == 0))

-- `~mask`, of the bits of a byte
unfoldable pub bitvector_set : Memory → ℕ → Bool → Option Memory
bitvector_set vec i value = do
  byte ← load vec (i / 8)
  store vec (i / 8)
      (if value then bit_or byte (2 ^ (7 - i % 8)) else bit_and byte (255 - 2 ^ (7 - i % 8)))
