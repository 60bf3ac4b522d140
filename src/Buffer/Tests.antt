-- ===== src/Buffer/Tests.antt =====
-- The theorems on buffers, at a buffer of six bytes that stands at its second.
use acre_ledger_app.Base.{◌≤◌, ◌≡◌, true, false, none, some, [], ◌∷◌}
use acre_ledger_app.Base.{length, take, drop, leb, if◌then◌else◌, arith}
use acre_ledger_app.Bytes.{be, le}
use acre_ledger_app.Buffer.{Buffer, read_bytes}
use acre_ledger_app.Buffer.Stream.{IsValid, remaining, advance, value}
use acre_ledger_app.Buffer.Words.{u16, u32, read_word, write_word, read_word-stream}
use acre_ledger_app.Buffer.Words.{read_word-write_word, read_bytes-stream}
use acre_ledger_app.Buffer.Invariant.{run, put_u32, run-IsValid}

abbrev six_bytes : Buffer
six_bytes = record { ptr = 1 ∷ 2 ∷ 3 ∷ 4 ∷ 5 ∷ 6 ∷ []; size = 6; offset = 1 }

six_bytes-IsValid : IsValid six_bytes
six_bytes-IsValid = record {
  in_size = omega arith;
  in_memory = omega arith;
  small = omega arith;
  bytes =
      (omega arith, (omega arith, (omega arith, (omega arith, (omega arith, (omega arith, tt))))));
}

read_word-stream_example : read_word u32 six_bytes le ≡ (
    if leb 4 (length (remaining six_bytes))
    then some (true, value le (take 4 (remaining six_bytes)), advance six_bytes 4)
    else some (false, 0, six_bytes))
read_word-stream_example = read_word-stream u32 six_bytes le six_bytes-IsValid

read_word-write_word_example :
    (b' : Buffer) × (write_word u16 six_bytes 0xbeef be ≡ some (true, b'))
    × (read_word u16 (record b' { offset = 1 }) be ≡ some (true, 0xbeef, b'))
read_word-write_word_example =
    read_word-write_word u16 six_bytes 0xbeef be six_bytes-IsValid (omega arith) (omega arith)

read_bytes-stream_example :
    (read_bytes six_bytes 3 ≡ (
      if leb 3 (length (remaining six_bytes))
      then some (some (take 3 (remaining six_bytes), advance six_bytes 3))
      else some none))
    × (3 ≤ length (remaining six_bytes) → IsValid (advance six_bytes 3))
    × (remaining (advance six_bytes 3) ≡ drop 3 (remaining six_bytes))
read_bytes-stream_example = read_bytes-stream six_bytes 3 six_bytes-IsValid

run-IsValid_example : (b' : Buffer) × (run (put_u32 7 be) six_bytes ≡ some b') × IsValid b'
run-IsValid_example = run-IsValid six_bytes six_bytes-IsValid (put_u32 7 be) tt
