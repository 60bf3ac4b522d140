-- ===== src/Buffer/Stream.antt =====
-- A valid buffer as a stream of the bytes that it has left: what each read takes from the stream,
-- and when it fails. No read of a valid buffer leaves the memory.
use acre_ledger_app.Base.{ℕ, ◌+◌, ◌-◌, ◌^◌, ◌≤◌, ◌<◌, ◌≡◌, ap, ◌∙◌, arith}
use acre_ledger_app.Base.{true, false, List}
use acre_ledger_app.Base.{
  length, take, drop, All, All-drop, All-take, length-take, length-drop, leb,
}
use acre_ledger_app.Base.{drop-drop, take-take, drop-take}
use acre_ledger_app.Bytes.{IsByte, Endianness, be, le}
use acre_ledger_app.Bytes.Values.{le_value, be_value}
use acre_ledger_app.Buffer.{Buffer, can_read, seek_cur}

pub record IsValid (b : Buffer) : Type 0 where
  pub in_size : b.offset ≤ b.size
  pub in_memory : b.size ≤ length b.ptr
  pub small : b.size < 2 ^ 32
  pub bytes : All IsByte b.ptr

abbrev pub remaining : Buffer → List ℕ
remaining b = take (b.size - b.offset) (drop b.offset b.ptr)

abbrev pub advance : Buffer → ℕ → Buffer
advance b n = record b { offset = b.offset + n }

-- The number that bytes stand for in either order
abbrev pub value : Endianness → List ℕ → ℕ
value be bs = be_value bs
value le bs = le_value bs

module _ {b : Buffer} (v : IsValid b) where
  pub length-remaining : length (remaining b) ≡ b.size - b.offset
  length-remaining =
      omega (
        arith,
        v,
        length-take (b.size - b.offset) (drop b.offset b.ptr),
        length-drop b.offset b.ptr,
      )

  pub can_read-eq-leb : (n : ℕ) → can_read b n ≡ leb n (length (remaining b))
  unfolding can_read
  can_read-eq-leb n = ap (leb n) (omega (arith, v, length-remaining))

  pub can_read_within : (n : ℕ) → n ≤ length (remaining b) → can_read b n ≡ true
  can_read_within n h = can_read-eq-leb n ∙ ground arith

  pub can_read_beyond : (n : ℕ) → length (remaining b) < n → can_read b n ≡ false
  can_read_beyond n h = can_read-eq-leb n ∙ ground arith

  pub advance-IsValid : (n : ℕ) → n ≤ length (remaining b) → IsValid (advance b n)
  advance-IsValid n h = record {
    in_size = omega (arith, v, length-remaining);
    in_memory = v.in_memory;
    small = v.small;
    bytes = v.bytes;
  }

  pub remaining-advance : (n : ℕ) → remaining (advance b n) ≡ drop n (remaining b)
  remaining-advance n =
      ap (λ (t : ℕ). take t (drop (b.offset + n) b.ptr)) {y = b.size - b.offset - n} (omega arith)
      ∙ rw (drop-take n (b.size - b.offset) (drop b.offset b.ptr), drop-drop n b.offset b.ptr)

  pub seek_cur-within : (n : ℕ) → n ≤ length (remaining b) → seek_cur b n ≡ (true, advance b n)
  unfolding seek_cur
  seek_cur-within n h = ground (arith, length-remaining, v.in_size, v.small)

  -- The bytes next to be read, in memory and in the stream
  pub take-remaining :
      (n : ℕ) → n ≤ length (remaining b) → take n (remaining b) ≡ take n (drop b.offset b.ptr)
  take-remaining n h =
      take-take n (b.size - b.offset) (drop b.offset b.ptr) (omega (arith, length-remaining))

  pub in_memory_within : (n : ℕ) → n ≤ length (remaining b) → b.offset + n ≤ length b.ptr
  in_memory_within n h = omega (arith, length-remaining, v.in_size, v.in_memory)

  pub remaining-IsByte : All IsByte (remaining b)
  remaining-IsByte =
      All-take IsByte (b.size - b.offset) (drop b.offset b.ptr)
        (All-drop IsByte b.offset b.ptr v.bytes)
