-- ===== src/Buffer/Reads.antt =====
-- What each read of a buffer takes from its stream, and when it fails.
use acre_ledger_app.Base.{ℕ, zero, suc, ◌-◌, [], ◌∷◌, ltb, ◌≤◌, ◌<◌, ◌≡◌, ap, ◌∙◌, arith}
use acre_ledger_app.Base.{true, false, none, some, List, load, length, take, drop, Option-cases}
use acre_ledger_app.Base.{load_bytes, inl, inr, sym}
use acre_ledger_app.Base.Blocks.{length-load_bytes, load_bytes-eq-take, load-drop}
use acre_ledger_app.Bytes.{Endianness, be, le}
use acre_ledger_app.Bytes.Reads.{read_u16_be-eq-be_value, read_u32_be-eq-be_value}
use acre_ledger_app.Bytes.Reads.{read_u64_be-eq-be_value, read_u16_le-eq-le_value}
use acre_ledger_app.Bytes.Reads.{read_u32_le-eq-le_value, read_u64_le-eq-le_value}
use acre_ledger_app.Buffer.{Buffer, sub_size, read_u8, read_u16, read_u32, read_u64, read_bytes}
use acre_ledger_app.Buffer.Stream.{
  IsValid, remaining, advance, value, can_read_within, can_read_beyond,
}
use acre_ledger_app.Buffer.Stream.{
  seek_cur-within, take-remaining, in_memory_within, length-remaining,
}

pub head-take :
    (n : ℕ) (xs : List ℕ) {x : ℕ} {rest : List ℕ} → take n xs ≡ x ∷ rest → load xs 0 ≡ some x
head-take zero xs e = cc
head-take (suc n) [] e = cc
head-take (suc n) (y ∷ xs) e = cc

module _ {b : Buffer} (v : IsValid b) where
  -- With 2 bytes left `buffer_read_u16` returns their value in the given order and moves on by
  -- 2 bytes; with fewer it fails, with the value 0 and the buffer as it was.
  pub read_u16-takes :
      (e : Endianness)
      → 2 ≤ length (remaining b)
      → read_u16 b e ≡ some (true, value e (take 2 (remaining b)), advance b 2)
  unfolding read_u16
  read_u16-takes be h = rw (
    can_read_within v 2 h,
    read_u16_be-eq-be_value b.ptr b.offset (in_memory_within v 2 h) v.bytes,
    seek_cur-within v 2 h,
    take-remaining v 2 h,
  )
  read_u16-takes le h = rw (
    can_read_within v 2 h,
    read_u16_le-eq-le_value b.ptr b.offset (in_memory_within v 2 h) v.bytes,
    seek_cur-within v 2 h,
    take-remaining v 2 h,
  )

  pub read_u16-fails :
      (e : Endianness) → length (remaining b) < 2 → read_u16 b e ≡ some (false, 0, b)
  unfolding read_u16
  read_u16-fails e h = rw (can_read_beyond v 2 h)

  -- With 4 bytes left `buffer_read_u32` returns their value in the given order and moves on by
  -- 4 bytes; with fewer it fails, with the value 0 and the buffer as it was.
  pub read_u32-takes :
      (e : Endianness)
      → 4 ≤ length (remaining b)
      → read_u32 b e ≡ some (true, value e (take 4 (remaining b)), advance b 4)
  unfolding read_u32
  read_u32-takes be h = rw (
    can_read_within v 4 h,
    read_u32_be-eq-be_value b.ptr b.offset (in_memory_within v 4 h) v.bytes,
    seek_cur-within v 4 h,
    take-remaining v 4 h,
  )
  read_u32-takes le h = rw (
    can_read_within v 4 h,
    read_u32_le-eq-le_value b.ptr b.offset (in_memory_within v 4 h) v.bytes,
    seek_cur-within v 4 h,
    take-remaining v 4 h,
  )

  pub read_u32-fails :
      (e : Endianness) → length (remaining b) < 4 → read_u32 b e ≡ some (false, 0, b)
  unfolding read_u32
  read_u32-fails e h = rw (can_read_beyond v 4 h)

  -- With 8 bytes left `buffer_read_u64` returns their value in the given order and moves on by
  -- 8 bytes; with fewer it fails, with the value 0 and the buffer as it was.
  pub read_u64-takes :
      (e : Endianness)
      → 8 ≤ length (remaining b)
      → read_u64 b e ≡ some (true, value e (take 8 (remaining b)), advance b 8)
  unfolding read_u64
  read_u64-takes be h = rw (
    can_read_within v 8 h,
    read_u64_be-eq-be_value b.ptr b.offset (in_memory_within v 8 h) v.bytes,
    seek_cur-within v 8 h,
    take-remaining v 8 h,
  )
  read_u64-takes le h = rw (
    can_read_within v 8 h,
    read_u64_le-eq-le_value b.ptr b.offset (in_memory_within v 8 h) v.bytes,
    seek_cur-within v 8 h,
    take-remaining v 8 h,
  )

  pub read_u64-fails :
      (e : Endianness) → length (remaining b) < 8 → read_u64 b e ≡ some (false, 0, b)
  unfolding read_u64
  read_u64-fails e h = rw (can_read_beyond v 8 h)

  load-head : {x : ℕ} {rest : List ℕ} → remaining b ≡ x ∷ rest → load b.ptr b.offset ≡ some x
  load-head {x} {rest} e =
      load-drop b.ptr b.offset ∙ head-take (b.size - b.offset) (drop b.offset b.ptr) e

  within_size : (n : ℕ) → n ≤ length (remaining b) → ltb (sub_size b.size b.offset) n ≡ false
  within_size n h = ground (arith, length-remaining v, v.in_size, v.small)

  beyond_size : (n : ℕ) → length (remaining b) < n → ltb (sub_size b.size b.offset) n ≡ true
  beyond_size n h = ground (arith, length-remaining v, v.in_size, v.small)

  pub read_u8-takes :
      {x : ℕ} {rest : List ℕ} → remaining b ≡ x ∷ rest → read_u8 b ≡ some (true, x, advance b 1)
  unfolding read_u8
  read_u8-takes {x} {rest} e =
      let h : 1 ≤ length (remaining b) = omega (arith, ap length e) in
      rw (can_read_within v 1 h, seek_cur-within v 1 h, load-head e)

  pub read_u8-fails : length (remaining b) < 1 → read_u8 b ≡ some (false, 0, b)
  unfolding read_u8
  read_u8-fails h = rw (can_read_beyond v 1 h)

  -- With `n` bytes left `buffer_read_bytes` copies them and moves on; with fewer it fails.
  pub read_bytes-takes :
      (n : ℕ)
      → n ≤ length (remaining b)
      → read_bytes b n ≡ some (some (take n (remaining b), advance b n))
  unfolding read_bytes
  read_bytes-takes n h = rw (
    within_size n h,
    load_bytes-eq-take b.ptr b.offset n (in_memory_within v n h),
    seek_cur-within v n h,
    take-remaining v n h,
  )

  pub read_bytes-fails : (n : ℕ) → length (remaining b) < n → read_bytes b n ≡ some none
  unfolding read_bytes
  read_bytes-fails n h = rw (beyond_size n h)

-- What `buffer_read_bytes` copies has the length asked for.
pub length-read_bytes :
    (b : Buffer) (n : ℕ) {out : List ℕ} {b' : Buffer}
    → read_bytes b n ≡ some (some (out, b'))
    → length out ≡ n
unfolding read_bytes
length-read_bytes b n {out} e = elim (Option-cases (load_bytes b.ptr b.offset n)) [
  | inl z ↦ absurd (ground (arith, z))
  | inr (bs, z) ↦
      let same : bs ≡ out = ground (arith, z) in
      ap length (sym same) ∙ length-load_bytes n b.ptr b.offset z
]
