-- ===== src/Bytes/Writes.antt =====
-- Each write of write.c replaces exactly the bytes that it covers by those of the value, and stays
-- inside the memory whenever they do.
use acre_ledger_app.Base.{ℕ, ◌+◌, ◌%◌, ◌≤◌, ◌≡◌, refl, ap, ◌∙◌, Option, none, some, [], ◌∷◌, arith}
use acre_ledger_app.Base.{length, Memory, ◌>>=◌, store_bytes}
use acre_ledger_app.Base.Bits.{shr}
use acre_ledger_app.Base.Blocks.{overwrite, store_bytes-eq-overwrite}
use acre_ledger_app.Bytes.{write_u16_be, write_u32_be, write_u64_be}
use acre_ledger_app.Bytes.{write_u16_le, write_u32_le, write_u64_le}
use acre_ledger_app.Bytes.Values.{le_bytes, be_bytes, length-le_bytes, length-be_bytes}
use native.Mathlib.Nat.{add-zero}
use native.Mathlib.Numerals.{towards_suc}

>>=-some : (o : Option Memory) → o ≡ (o >>= some)
>>=-some none = refl
>>=-some (some m) = refl

bytes_u16_be : (v : ℕ) → (shr v 8 % 256) ∷ (shr v 0 % 256) ∷ [] ≡ be_bytes 2 v
unfolding be_bytes le_bytes
bytes_u16_be v = ground arith

write_u16_be-eq-store_bytes :
    (m : Memory) (off v : ℕ)
    → write_u16_be m off v ≡ store_bytes m off ((shr v 8 % 256) ∷ (shr v 0 % 256) ∷ [])
unfolding write_u16_be
write_u16_be-eq-store_bytes m off v = simp (add-zero, towards_suc, ← >>=-some)

pub write_u16_be-eq-be_bytes :
    (m : Memory) (off v : ℕ) → write_u16_be m off v ≡ store_bytes m off (be_bytes 2 v)
write_u16_be-eq-be_bytes m off v =
    write_u16_be-eq-store_bytes m off v ∙ ap (store_bytes m off) (bytes_u16_be v)

pub write_u16_be-eq-overwrite :
    (m : Memory) (off v : ℕ)
    → off + 2 ≤ length m
    → write_u16_be m off v ≡ some (overwrite m off (be_bytes 2 v))
write_u16_be-eq-overwrite m off v h =
    write_u16_be-eq-be_bytes m off v
    ∙ store_bytes-eq-overwrite m off (be_bytes 2 v) (omega (arith, length-be_bytes 2 v))

bytes_u32_be :
    (v : ℕ)
    → (shr v 24 % 256) ∷ (shr v 16 % 256) ∷ (shr v 8 % 256) ∷ (shr v 0 % 256) ∷ [] ≡ be_bytes 4 v
unfolding be_bytes le_bytes
bytes_u32_be v = ground arith

write_u32_be-eq-store_bytes :
    (m : Memory) (off v : ℕ)
    → write_u32_be m off v
      ≡ store_bytes m off
          ((shr v 24 % 256) ∷ (shr v 16 % 256) ∷ (shr v 8 % 256) ∷ (shr v 0 % 256) ∷ [])
unfolding write_u32_be
write_u32_be-eq-store_bytes m off v = simp (add-zero, towards_suc, ← >>=-some)

pub write_u32_be-eq-be_bytes :
    (m : Memory) (off v : ℕ) → write_u32_be m off v ≡ store_bytes m off (be_bytes 4 v)
write_u32_be-eq-be_bytes m off v =
    write_u32_be-eq-store_bytes m off v ∙ ap (store_bytes m off) (bytes_u32_be v)

pub write_u32_be-eq-overwrite :
    (m : Memory) (off v : ℕ)
    → off + 4 ≤ length m
    → write_u32_be m off v ≡ some (overwrite m off (be_bytes 4 v))
write_u32_be-eq-overwrite m off v h =
    write_u32_be-eq-be_bytes m off v
    ∙ store_bytes-eq-overwrite m off (be_bytes 4 v) (omega (arith, length-be_bytes 4 v))

bytes_u64_be :
    (v : ℕ)
    → (shr v 56 % 256)
        ∷ (shr v 48 % 256)
        ∷ (shr v 40 % 256)
        ∷ (shr v 32 % 256)
        ∷ (shr v 24 % 256)
        ∷ (shr v 16 % 256)
        ∷ (shr v 8 % 256)
        ∷ (shr v 0 % 256)
        ∷ []
      ≡ be_bytes 8 v
unfolding be_bytes le_bytes
bytes_u64_be v = ground arith

write_u64_be-eq-store_bytes :
    (m : Memory) (off v : ℕ)
    → write_u64_be m off v
      ≡ store_bytes m off (
          (shr v 56 % 256)
          ∷ (shr v 48 % 256)
          ∷ (shr v 40 % 256)
          ∷ (shr v 32 % 256)
          ∷ (shr v 24 % 256)
          ∷ (shr v 16 % 256)
          ∷ (shr v 8 % 256)
          ∷ (shr v 0 % 256)
          ∷ [])
unfolding write_u64_be
write_u64_be-eq-store_bytes m off v = simp (add-zero, towards_suc, ← >>=-some)

pub write_u64_be-eq-be_bytes :
    (m : Memory) (off v : ℕ) → write_u64_be m off v ≡ store_bytes m off (be_bytes 8 v)
write_u64_be-eq-be_bytes m off v =
    write_u64_be-eq-store_bytes m off v ∙ ap (store_bytes m off) (bytes_u64_be v)

pub write_u64_be-eq-overwrite :
    (m : Memory) (off v : ℕ)
    → off + 8 ≤ length m
    → write_u64_be m off v ≡ some (overwrite m off (be_bytes 8 v))
write_u64_be-eq-overwrite m off v h =
    write_u64_be-eq-be_bytes m off v
    ∙ store_bytes-eq-overwrite m off (be_bytes 8 v) (omega (arith, length-be_bytes 8 v))

bytes_u16_le : (v : ℕ) → (shr v 0 % 256) ∷ (shr v 8 % 256) ∷ [] ≡ le_bytes 2 v
unfolding le_bytes
bytes_u16_le v = ground arith

write_u16_le-eq-store_bytes :
    (m : Memory) (off v : ℕ)
    → write_u16_le m off v ≡ store_bytes m off ((shr v 0 % 256) ∷ (shr v 8 % 256) ∷ [])
unfolding write_u16_le
write_u16_le-eq-store_bytes m off v = simp (add-zero, towards_suc, ← >>=-some)

pub write_u16_le-eq-le_bytes :
    (m : Memory) (off v : ℕ) → write_u16_le m off v ≡ store_bytes m off (le_bytes 2 v)
write_u16_le-eq-le_bytes m off v =
    write_u16_le-eq-store_bytes m off v ∙ ap (store_bytes m off) (bytes_u16_le v)

pub write_u16_le-eq-overwrite :
    (m : Memory) (off v : ℕ)
    → off + 2 ≤ length m
    → write_u16_le m off v ≡ some (overwrite m off (le_bytes 2 v))
write_u16_le-eq-overwrite m off v h =
    write_u16_le-eq-le_bytes m off v
    ∙ store_bytes-eq-overwrite m off (le_bytes 2 v) (omega (arith, length-le_bytes 2 v))

bytes_u32_le :
    (v : ℕ)
    → (shr v 0 % 256) ∷ (shr v 8 % 256) ∷ (shr v 16 % 256) ∷ (shr v 24 % 256) ∷ [] ≡ le_bytes 4 v
unfolding le_bytes
bytes_u32_le v = ground arith

write_u32_le-eq-store_bytes :
    (m : Memory) (off v : ℕ)
    → write_u32_le m off v
      ≡ store_bytes m off
          ((shr v 0 % 256) ∷ (shr v 8 % 256) ∷ (shr v 16 % 256) ∷ (shr v 24 % 256) ∷ [])
unfolding write_u32_le
write_u32_le-eq-store_bytes m off v = simp (add-zero, towards_suc, ← >>=-some)

pub write_u32_le-eq-le_bytes :
    (m : Memory) (off v : ℕ) → write_u32_le m off v ≡ store_bytes m off (le_bytes 4 v)
write_u32_le-eq-le_bytes m off v =
    write_u32_le-eq-store_bytes m off v ∙ ap (store_bytes m off) (bytes_u32_le v)

pub write_u32_le-eq-overwrite :
    (m : Memory) (off v : ℕ)
    → off + 4 ≤ length m
    → write_u32_le m off v ≡ some (overwrite m off (le_bytes 4 v))
write_u32_le-eq-overwrite m off v h =
    write_u32_le-eq-le_bytes m off v
    ∙ store_bytes-eq-overwrite m off (le_bytes 4 v) (omega (arith, length-le_bytes 4 v))

bytes_u64_le :
    (v : ℕ)
    → (shr v 0 % 256)
        ∷ (shr v 8 % 256)
        ∷ (shr v 16 % 256)
        ∷ (shr v 24 % 256)
        ∷ (shr v 32 % 256)
        ∷ (shr v 40 % 256)
        ∷ (shr v 48 % 256)
        ∷ (shr v 56 % 256)
        ∷ []
      ≡ le_bytes 8 v
unfolding le_bytes
bytes_u64_le v = ground arith

write_u64_le-eq-store_bytes :
    (m : Memory) (off v : ℕ)
    → write_u64_le m off v
      ≡ store_bytes m off (
          (shr v 0 % 256)
          ∷ (shr v 8 % 256)
          ∷ (shr v 16 % 256)
          ∷ (shr v 24 % 256)
          ∷ (shr v 32 % 256)
          ∷ (shr v 40 % 256)
          ∷ (shr v 48 % 256)
          ∷ (shr v 56 % 256)
          ∷ [])
unfolding write_u64_le
write_u64_le-eq-store_bytes m off v = simp (add-zero, towards_suc, ← >>=-some)

pub write_u64_le-eq-le_bytes :
    (m : Memory) (off v : ℕ) → write_u64_le m off v ≡ store_bytes m off (le_bytes 8 v)
write_u64_le-eq-le_bytes m off v =
    write_u64_le-eq-store_bytes m off v ∙ ap (store_bytes m off) (bytes_u64_le v)

pub write_u64_le-eq-overwrite :
    (m : Memory) (off v : ℕ)
    → off + 8 ≤ length m
    → write_u64_le m off v ≡ some (overwrite m off (le_bytes 8 v))
write_u64_le-eq-overwrite m off v h =
    write_u64_le-eq-le_bytes m off v
    ∙ store_bytes-eq-overwrite m off (le_bytes 8 v) (omega (arith, length-le_bytes 8 v))
