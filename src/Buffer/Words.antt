-- ===== src/Buffer/Words.antt =====
-- The reads and writes of integers and of byte strings, at every width and on every branch.
use acre_ledger_app.Base.{ℕ, ◌^◌, ◌≤◌, ◌<◌, ◌≡◌, arith, Bool-cases, inl, inr}
use acre_ledger_app.Base.{
  Bool, true, false, Option, none, some, length, take, drop, leb, if◌then◌else◌,
}
use acre_ledger_app.Bytes.{Endianness}
use acre_ledger_app.Buffer.{Buffer, read_u16, read_u32, read_u64, write_u16, write_u32, write_u64}
use acre_ledger_app.Buffer.{read_bytes}
use acre_ledger_app.Buffer.Stream.{
  IsValid, remaining, advance, value, advance-IsValid, remaining-advance,
}
use acre_ledger_app.Buffer.Reads.{read_u16-takes, read_u32-takes, read_u64-takes}
use acre_ledger_app.Buffer.Reads.{read_u16-fails, read_u32-fails, read_u64-fails}
use acre_ledger_app.Buffer.Reads.{read_bytes-takes, read_bytes-fails}
use acre_ledger_app.Buffer.Writes.{read_u16-write_u16, read_u32-write_u32, read_u64-write_u64}

pub data Width : Type 0 where
  u16 u32 u64 : Width

abbrev pub bytes : Width → ℕ
bytes u16 = 2
bytes u32 = 4
bytes u64 = 8

abbrev pub read_word : Width → Buffer → Endianness → Option (Bool × ℕ × Buffer)
read_word u16 = read_u16
read_word u32 = read_u32
read_word u64 = read_u64

abbrev pub write_word : Width → Buffer → ℕ → Endianness → Option (Bool × Buffer)
write_word u16 = write_u16
write_word u32 = write_u32
write_word u64 = write_u64

-- Both branches of a guard on the bytes left, as one equation
guarded :
    {A : Type 0} (m n : ℕ) {r x y : A}
    → (n ≤ m → r ≡ x)
    → (m < n → r ≡ y)
    → r ≡ (if leb n m then x else y)
guarded m n {r} {x} {y} fits short = elim (Bool-cases (leb n m)) [
  | inl e ↦ rw e (fits (ground arith))
  | inr e ↦ rw e (short (ground arith))
]

-- A read of an integer from a valid buffer: with enough bytes left, it returns the number that the
-- next bytes stand for in the given order and moves past them; with fewer, it fails with the value 0
-- and leaves the buffer as it was. It never reads outside the memory.
pub read_word-stream :
    (w : Width) (b : Buffer) (e : Endianness)
    → IsValid b
    → read_word w b e ≡ (
        if leb (bytes w) (length (remaining b))
        then some (true, value e (take (bytes w) (remaining b)), advance b (bytes w))
        else some (false, 0, b))
read_word-stream u16 b e v = guarded _ 2 (read_u16-takes v e) (read_u16-fails v e)
read_word-stream u32 b e v = guarded _ 4 (read_u32-takes v e) (read_u32-fails v e)
read_word-stream u64 b e v = guarded _ 8 (read_u64-takes v e) (read_u64-fails v e)

-- An integer that was written to a valid buffer with room for it is read back from the position of
-- the write, in either byte order, and that read ends where the write ended.
pub read_word-write_word :
    (w : Width) (b : Buffer) (x : ℕ) (e : Endianness)
    → IsValid b
    → bytes w ≤ length (remaining b)
    → x < 256 ^ bytes w
    → (b' : Buffer) × (write_word w b x e ≡ some (true, b'))
      × (read_word w (record b' { offset = b.offset }) e ≡ some (true, x, b'))
read_word-write_word u16 b x e v room small = read_u16-write_u16 v x e room small
read_word-write_word u32 b x e v room small = read_u32-write_u32 v x e room small
read_word-write_word u64 b x e v room small = read_u64-write_u64 v x e room small

-- A read of `n` bytes from a valid buffer: with enough left, it copies the next `n` and the buffer
-- that it leaves is valid and has the rest still to come; with fewer, it fails. It never reads
-- outside the memory.
pub read_bytes-stream :
    (b : Buffer) (n : ℕ)
    → IsValid b
    → (read_bytes b n ≡ (
        if leb n (length (remaining b))
        then some (some (take n (remaining b), advance b n))
        else some none))
      × (n ≤ length (remaining b) → IsValid (advance b n))
      × (remaining (advance b n) ≡ drop n (remaining b))
read_bytes-stream b n v = (
  guarded _ n (read_bytes-takes v n) (read_bytes-fails v n),
  advance-IsValid v n,
  remaining-advance v n,
)
