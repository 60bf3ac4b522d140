-- ===== src/Varint/Format.antt =====
-- The wire format of a variable-length integer, and that varint.c writes and reads it.
use acre_ledger_app.Base.{ℕ, ◌+◌, ◌%◌, ◌^◌, ◌≤◌, ◌<◌, ◌≡◌, ap, ◌∙◌, arith}
use acre_ledger_app.Base.{Option, some, List, [], ◌∷◌, ◌++◌, length, All, All-append}
use acre_ledger_app.Base.{Memory, store, ◌>>=◌}
use acre_ledger_app.Base.{leb, if◌then◌else◌, >>=_assoc, store_bytes}
use acre_ledger_app.Base.Blocks.{overwrite, store_bytes-eq-overwrite}
use acre_ledger_app.Bytes.{IsByte, read_u16_le, read_u32_le, read_u64_le}
use acre_ledger_app.Bytes.Values.{le_bytes, length-le_bytes, le_bytes-IsByte, le_value-le_bytes}
use acre_ledger_app.Bytes.Reads.{read_u16_le-eq-le_value, read_u32_le-eq-le_value}
use acre_ledger_app.Bytes.Reads.{read_u64_le-eq-le_value}
use acre_ledger_app.Bytes.Writes.{write_u16_le-eq-le_bytes, write_u32_le-eq-le_bytes}
use acre_ledger_app.Bytes.Writes.{write_u64_le-eq-le_bytes}
use acre_ledger_app.Bytes.{write_u16_le, write_u32_le, write_u64_le}
use native.Mathlib.Numerals.{towards_suc}
use acre_ledger_app.Varint.{varint_size, varint_read, varint_write}

-- The shortest encoding: a prefix byte where the value needs one, then the value, low byte first.
unfoldable pub varint_bytes : ℕ → List ℕ
varint_bytes v =
    if leb v 0xfc
    then v ∷ []
    else if leb v 0xffff
    then 0xfd ∷ le_bytes 2 v
    else if leb v 0xffff_ffff
    then 0xfe ∷ le_bytes 4 v
    else 0xff ∷ le_bytes 8 v

pub length-varint_bytes : (v : ℕ) → length (varint_bytes v) ≡ varint_size v
unfolding varint_bytes varint_size
length-varint_bytes v =
    ground (arith, length-le_bytes 2 v, length-le_bytes 4 v, length-le_bytes 8 v)

pub varint_bytes-IsByte : (v : ℕ) → All IsByte (varint_bytes v)
unfolding varint_bytes
varint_bytes-IsByte v =
    ground (arith, le_bytes-IsByte 2 v, le_bytes-IsByte 4 v, le_bytes-IsByte 8 v)

read_u16_le-behind :
    (p v : ℕ) (rest : List ℕ)
    → IsByte p
    → v < 2 ^ 16
    → All IsByte rest
    → read_u16_le (p ∷ (le_bytes 2 v ++ rest)) 1 ≡ some v
unfolding le_bytes
read_u16_le-behind p v rest hp h b =
    read_u16_le-eq-le_value (p ∷ (le_bytes 2 v ++ rest)) 1 (omega arith)
      (hp, All-append IsByte (le_bytes 2 v) rest (le_bytes-IsByte 2 v) b)
    ∙ ap some (le_value-le_bytes 2 v h)

read_u32_le-behind :
    (p v : ℕ) (rest : List ℕ)
    → IsByte p
    → v < 2 ^ 32
    → All IsByte rest
    → read_u32_le (p ∷ (le_bytes 4 v ++ rest)) 1 ≡ some v
unfolding le_bytes
read_u32_le-behind p v rest hp h b =
    read_u32_le-eq-le_value (p ∷ (le_bytes 4 v ++ rest)) 1 (omega arith)
      (hp, All-append IsByte (le_bytes 4 v) rest (le_bytes-IsByte 4 v) b)
    ∙ ap some (le_value-le_bytes 4 v h)

read_u64_le-behind :
    (p v : ℕ) (rest : List ℕ)
    → IsByte p
    → v < 2 ^ 64
    → All IsByte rest
    → read_u64_le (p ∷ (le_bytes 8 v ++ rest)) 1 ≡ some v
unfolding le_bytes
read_u64_le-behind p v rest hp h b =
    read_u64_le-eq-le_value (p ∷ (le_bytes 8 v ++ rest)) 1 (omega arith)
      (hp, All-append IsByte (le_bytes 8 v) rest (le_bytes-IsByte 8 v) b)
    ∙ ap some (le_value-le_bytes 8 v h)

-- `varint_read` reads back the value from its encoding, whatever follows, and says its length.
pub varint_read-varint_bytes :
    (v n : ℕ) (rest : List ℕ)
    → v < 2 ^ 64
    → All IsByte rest
    → varint_size v ≤ n
    → varint_read (varint_bytes v ++ rest) n ≡ some (some (varint_size v, v))
unfolding varint_bytes varint_size varint_read
varint_read-varint_bytes v n rest h b fits = ground (
  arith,
  read_u16_le-behind 0xfd v rest,
  read_u32_le-behind 0xfe v rest,
  read_u64_le-behind 0xff v rest,
)

-- The memory and the return value of a call
abbrev returning : Option ℕ → Memory → Option (Memory × Option ℕ)
returning r m = some (m, r)

le_bytes-mod_16 : (v : ℕ) → le_bytes 2 (v % 2 ^ 16) ≡ le_bytes 2 v
unfolding le_bytes
le_bytes-mod_16 v = ground arith

write_u16_le-behind :
    (m : Memory) (off p v : ℕ) (r : Option ℕ)
    → (store m off p >>= λ o. write_u16_le o (off + 1) (v % 2 ^ 16) >>= returning r)
      ≡ (store_bytes m off (p ∷ le_bytes 2 v) >>= returning r)
write_u16_le-behind m off p v r =
    simp (write_u16_le-eq-le_bytes, towards_suc, le_bytes-mod_16, >>=_assoc)

le_bytes-mod_32 : (v : ℕ) → le_bytes 4 (v % 2 ^ 32) ≡ le_bytes 4 v
unfolding le_bytes
le_bytes-mod_32 v = ground arith

write_u32_le-behind :
    (m : Memory) (off p v : ℕ) (r : Option ℕ)
    → (store m off p >>= λ o. write_u32_le o (off + 1) (v % 2 ^ 32) >>= returning r)
      ≡ (store_bytes m off (p ∷ le_bytes 4 v) >>= returning r)
write_u32_le-behind m off p v r =
    simp (write_u32_le-eq-le_bytes, towards_suc, le_bytes-mod_32, >>=_assoc)

write_u64_le-behind :
    (m : Memory) (off p v : ℕ) (r : Option ℕ)
    → (store m off p >>= λ o. write_u64_le o (off + 1) v >>= returning r)
      ≡ (store_bytes m off (p ∷ le_bytes 8 v) >>= returning r)
write_u64_le-behind m off p v r = simp (write_u64_le-eq-le_bytes, towards_suc, >>=_assoc)

one_byte :
    (m : Memory) (off v : ℕ) (r : Option ℕ)
    → v < 256
    → (store m off (v % 2 ^ 8) >>= returning r) ≡ (store_bytes m off (v ∷ []) >>= returning r)
one_byte m off v r h = let e : v % 2 ^ 8 ≡ v = omega arith in rw (e, >>=_assoc)

varint_write-eq-store_bytes :
    (m : Memory) (off v : ℕ)
    → varint_write m off v
      ≡ (store_bytes m off (varint_bytes v) >>= returning (some (varint_size v)))
unfolding varint_bytes varint_size varint_write
varint_write-eq-store_bytes m off v = ground (
  arith,
  one_byte m off v (some 1),
  write_u16_le-behind m off 0xfd v (some 3),
  write_u32_le-behind m off 0xfe v (some 5),
  write_u64_le-behind m off 0xff v (some 9),
)

-- Where the encoding fits, `varint_write` writes exactly it and returns its length.
pub varint_write-eq-overwrite :
    (m : Memory) (off v : ℕ)
    → off + varint_size v ≤ length m
    → varint_write m off v ≡ some (overwrite m off (varint_bytes v), some (varint_size v))
varint_write-eq-overwrite m off v h =
    varint_write-eq-store_bytes m off v
    ∙ rw (store_bytes-eq-overwrite m off (varint_bytes v) (omega (arith, length-varint_bytes v)))
