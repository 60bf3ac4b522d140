-- ===== src/Buffer/Writes.antt =====
-- What each write of a buffer stores, when it fails, and that the reads read it back.
use acre_ledger_app.Base.{ℕ, ◌^◌, ◌≤◌, ◌<◌, ◌≡◌, refl, ap, ◌∙◌, sym, arith}
use acre_ledger_app.Base.{true, false, some, List, length, take, drop, All, take-append}
use acre_ledger_app.Base.Blocks.{overwrite, store_bytes-eq-overwrite, length-overwrite}
use acre_ledger_app.Base.Blocks.{drop-overwrite, overwrite-All}
use acre_ledger_app.Bytes.{IsByte, Endianness, be, le}
use acre_ledger_app.Bytes.Values.{be_bytes, le_bytes, length-be_bytes, length-le_bytes}
use acre_ledger_app.Bytes.Values.{be_bytes-IsByte, le_bytes-IsByte, be_value-be_bytes}
use acre_ledger_app.Bytes.Values.{le_value-le_bytes}
use acre_ledger_app.Bytes.Writes.{write_u16_be-eq-overwrite, write_u32_be-eq-overwrite}
use acre_ledger_app.Bytes.Writes.{write_u64_be-eq-overwrite, write_u16_le-eq-overwrite}
use acre_ledger_app.Bytes.Writes.{write_u32_le-eq-overwrite, write_u64_le-eq-overwrite}
use acre_ledger_app.Buffer.{Buffer, seek_cur, read_u16, read_u32, read_u64}
use acre_ledger_app.Buffer.{write_u16, write_u32, write_u64, write_bytes}
use acre_ledger_app.Buffer.Stream.{
  IsValid, remaining, advance, value, can_read_within, can_read_beyond,
}
use acre_ledger_app.Buffer.Stream.{
  seek_cur-within, take-remaining, in_memory_within, length-remaining,
}
use acre_ledger_app.Buffer.Reads.{read_u16-takes, read_u32-takes, read_u64-takes}

-- The `n` bytes of a number in either order
abbrev pub bytes_of : Endianness → ℕ → ℕ → List ℕ
bytes_of be n x = be_bytes n x
bytes_of le n x = le_bytes n x

pub length-bytes_of : (e : Endianness) (n x : ℕ) → length (bytes_of e n x) ≡ n
length-bytes_of be n x = length-be_bytes n x
length-bytes_of le n x = length-le_bytes n x

pub bytes_of-IsByte : (e : Endianness) (n x : ℕ) → All IsByte (bytes_of e n x)
bytes_of-IsByte be n x = be_bytes-IsByte n x
bytes_of-IsByte le n x = le_bytes-IsByte n x

value-bytes_of : (e : Endianness) (n x : ℕ) → x < 256 ^ n → value e (bytes_of e n x) ≡ x
value-bytes_of be n x h = be_value-be_bytes n x h
value-bytes_of le n x h = le_value-le_bytes n x h

-- The buffer with `bs` stored at its position, which stays where it was
abbrev pub patched : Buffer → List ℕ → Buffer
patched b bs = record b { ptr = overwrite b.ptr b.offset bs }

module _ {b : Buffer} (v : IsValid b) where
  pub patched-IsValid :
      (bs : List ℕ) → length bs ≤ length (remaining b) → All IsByte bs → IsValid (patched b bs)
  patched-IsValid bs h ok =
      let len : length (overwrite b.ptr b.offset bs) ≡ length b.ptr =
        length-overwrite b.ptr b.offset bs (in_memory_within v (length bs) h) in
      record {
        in_size = v.in_size;
        in_memory = omega (arith, len, v.in_memory);
        small = v.small;
        bytes = overwrite-All IsByte b.ptr b.offset bs v.bytes ok;
      }

  pub length-remaining-patched :
      (bs : List ℕ)
      → length bs ≤ length (remaining b)
      → All IsByte bs
      → length (remaining (patched b bs)) ≡ length (remaining b)
  length-remaining-patched bs h ok =
      omega (arith, length-remaining v, length-remaining (patched-IsValid bs h ok))

  -- Reading from the position of the write finds what was written.
  take-remaining-patched :
      (bs : List ℕ) (n : ℕ)
      → length bs ≡ n
      → n ≤ length (remaining b)
      → All IsByte bs
      → take n (remaining (patched b bs)) ≡ bs
  take-remaining-patched bs n e h ok =
      ap (λ (t : ℕ). take t (remaining (patched b bs))) (sym e)
      ∙ take-remaining (patched-IsValid bs (omega arith) ok) (length bs)
          (omega (arith, length-remaining-patched bs (omega arith) ok))
      ∙ ap (take (length bs))
          (drop-overwrite b.ptr b.offset bs (omega (arith, in_memory_within v n h)))
      ∙ take-append bs (drop (length bs) (drop b.offset b.ptr))

  seek_cur-patched :
      (bs : List ℕ) (n : ℕ)
      → length bs ≡ n
      → n ≤ length (remaining b)
      → All IsByte bs
      → seek_cur (patched b bs) n ≡ (true, advance (patched b bs) n)
  seek_cur-patched bs n e h ok =
      seek_cur-within (patched-IsValid bs (omega arith) ok) n
        (omega (arith, length-remaining-patched bs (omega arith) ok))

  -- Room for the bytes: they are stored and the buffer moves past them. Else nothing changes.
  pub write_bytes-puts :
      (bs : List ℕ)
      → length bs ≤ length (remaining b)
      → All IsByte bs
      → write_bytes b bs ≡ some (true, advance (patched b bs) (length bs))
  unfolding write_bytes
  write_bytes-puts bs h ok = rw (
    can_read_within v (length bs) h,
    store_bytes-eq-overwrite b.ptr b.offset bs (in_memory_within v (length bs) h),
    seek_cur-patched bs (length bs) refl h ok,
  )

  pub write_bytes-fails :
      (bs : List ℕ) → length (remaining b) < length bs → write_bytes b bs ≡ some (false, b)
  unfolding write_bytes
  write_bytes-fails bs h = rw (can_read_beyond v (length bs) h)

  pub write_u16-puts :
      (x : ℕ) (e : Endianness)
      → 2 ≤ length (remaining b)
      → write_u16 b x e ≡ some (true, advance (patched b (bytes_of e 2 x)) 2)
  unfolding write_u16
  write_u16-puts x be h = rw (
    can_read_within v 2 h,
    write_u16_be-eq-overwrite b.ptr b.offset x (in_memory_within v 2 h),
    seek_cur-patched (be_bytes 2 x) 2 (length-be_bytes 2 x) h (be_bytes-IsByte 2 x),
  )
  write_u16-puts x le h = rw (
    can_read_within v 2 h,
    write_u16_le-eq-overwrite b.ptr b.offset x (in_memory_within v 2 h),
    seek_cur-patched (le_bytes 2 x) 2 (length-le_bytes 2 x) h (le_bytes-IsByte 2 x),
  )

  pub write_u16-fails :
      (x : ℕ) (e : Endianness) → length (remaining b) < 2 → write_u16 b x e ≡ some (false, b)
  unfolding write_u16
  write_u16-fails x e h = rw (can_read_beyond v 2 h)

  -- A 16-bit number that was written is read back from the position of the write, in either order,
  -- and the buffer is then where the write left it.
  pub read_u16-write_u16 :
      (x : ℕ) (e : Endianness)
      → 2 ≤ length (remaining b)
      → x < 2 ^ 16
      → (b' : Buffer) × (write_u16 b x e ≡ some (true, b'))
        × (read_u16 (record b' { offset = b.offset }) e ≡ some (true, x, b'))
  read_u16-write_u16 x e h small =
      let bs : List ℕ = bytes_of e 2 x in
      let len : length bs ≡ 2 = length-bytes_of e 2 x in
      let ok : All IsByte bs = bytes_of-IsByte e 2 x in
      let found : take 2 (remaining (patched b bs)) ≡ bs = take-remaining-patched bs 2 len h ok in
      (
        advance (patched b bs) 2,
        write_u16-puts x e h,
        read_u16-takes (patched-IsValid bs (omega arith) ok) e
              (omega (arith, length-remaining-patched bs (omega arith) ok))
            ∙ ap (λ (t : ℕ). some (true, t, advance (patched b bs) 2))
                (ap (value e) found ∙ value-bytes_of e 2 x small),
      )

  pub write_u32-puts :
      (x : ℕ) (e : Endianness)
      → 4 ≤ length (remaining b)
      → write_u32 b x e ≡ some (true, advance (patched b (bytes_of e 4 x)) 4)
  unfolding write_u32
  write_u32-puts x be h = rw (
    can_read_within v 4 h,
    write_u32_be-eq-overwrite b.ptr b.offset x (in_memory_within v 4 h),
    seek_cur-patched (be_bytes 4 x) 4 (length-be_bytes 4 x) h (be_bytes-IsByte 4 x),
  )
  write_u32-puts x le h = rw (
    can_read_within v 4 h,
    write_u32_le-eq-overwrite b.ptr b.offset x (in_memory_within v 4 h),
    seek_cur-patched (le_bytes 4 x) 4 (length-le_bytes 4 x) h (le_bytes-IsByte 4 x),
  )

  pub write_u32-fails :
      (x : ℕ) (e : Endianness) → length (remaining b) < 4 → write_u32 b x e ≡ some (false, b)
  unfolding write_u32
  write_u32-fails x e h = rw (can_read_beyond v 4 h)

  -- A 32-bit number that was written is read back from the position of the write, in either order,
  -- and the buffer is then where the write left it.
  pub read_u32-write_u32 :
      (x : ℕ) (e : Endianness)
      → 4 ≤ length (remaining b)
      → x < 2 ^ 32
      → (b' : Buffer) × (write_u32 b x e ≡ some (true, b'))
        × (read_u32 (record b' { offset = b.offset }) e ≡ some (true, x, b'))
  read_u32-write_u32 x e h small =
      let bs : List ℕ = bytes_of e 4 x in
      let len : length bs ≡ 4 = length-bytes_of e 4 x in
      let ok : All IsByte bs = bytes_of-IsByte e 4 x in
      let found : take 4 (remaining (patched b bs)) ≡ bs = take-remaining-patched bs 4 len h ok in
      (
        advance (patched b bs) 4,
        write_u32-puts x e h,
        read_u32-takes (patched-IsValid bs (omega arith) ok) e
              (omega (arith, length-remaining-patched bs (omega arith) ok))
            ∙ ap (λ (t : ℕ). some (true, t, advance (patched b bs) 4))
                (ap (value e) found ∙ value-bytes_of e 4 x small),
      )

  pub write_u64-puts :
      (x : ℕ) (e : Endianness)
      → 8 ≤ length (remaining b)
      → write_u64 b x e ≡ some (true, advance (patched b (bytes_of e 8 x)) 8)
  unfolding write_u64
  write_u64-puts x be h = rw (
    can_read_within v 8 h,
    write_u64_be-eq-overwrite b.ptr b.offset x (in_memory_within v 8 h),
    seek_cur-patched (be_bytes 8 x) 8 (length-be_bytes 8 x) h (be_bytes-IsByte 8 x),
  )
  write_u64-puts x le h = rw (
    can_read_within v 8 h,
    write_u64_le-eq-overwrite b.ptr b.offset x (in_memory_within v 8 h),
    seek_cur-patched (le_bytes 8 x) 8 (length-le_bytes 8 x) h (le_bytes-IsByte 8 x),
  )

  pub write_u64-fails :
      (x : ℕ) (e : Endianness) → length (remaining b) < 8 → write_u64 b x e ≡ some (false, b)
  unfolding write_u64
  write_u64-fails x e h = rw (can_read_beyond v 8 h)

  -- A 64-bit number that was written is read back from the position of the write, in either order,
  -- and the buffer is then where the write left it.
  pub read_u64-write_u64 :
      (x : ℕ) (e : Endianness)
      → 8 ≤ length (remaining b)
      → x < 2 ^ 64
      → (b' : Buffer) × (write_u64 b x e ≡ some (true, b'))
        × (read_u64 (record b' { offset = b.offset }) e ≡ some (true, x, b'))
  read_u64-write_u64 x e h small =
      let bs : List ℕ = bytes_of e 8 x in
      let len : length bs ≡ 8 = length-bytes_of e 8 x in
      let ok : All IsByte bs = bytes_of-IsByte e 8 x in
      let found : take 8 (remaining (patched b bs)) ≡ bs = take-remaining-patched bs 8 len h ok in
      (
        advance (patched b bs) 8,
        write_u64-puts x e h,
        read_u64-takes (patched-IsValid bs (omega arith) ok) e
              (omega (arith, length-remaining-patched bs (omega arith) ok))
            ∙ ap (λ (t : ℕ). some (true, t, advance (patched b bs) 8))
                (ap (value e) found ∙ value-bytes_of e 8 x small),
      )
