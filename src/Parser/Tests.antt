-- ===== src/Parser/Tests.antt =====
-- The theorem on two buffers, at a read that takes the end of one and the start of the other.
use acre_ledger_app.Base.{
  ◌≡◌, none, some, [], ◌∷◌, length, min, take, drop, leb, if◌then◌else◌, arith,
}
use acre_ledger_app.Buffer.Stream.{IsValid}
use acre_ledger_app.Parser.{Buffers, dbuffer_read_bytes, parser_consolidate_buffers}
use acre_ledger_app.Parser.Consolidate.{joined, parser_consolidate_buffers-eq}
use acre_ledger_app.Base.{true}
use acre_ledger_app.Parser.Stream.{stream, advance_both, dbuffer_read_bytes-stream}

abbrev two_buffers : Buffers
two_buffers = record {
  buffer0 = record { ptr = 1 ∷ 2 ∷ 3 ∷ []; size = 3; offset = 1 };
  buffer1 = record { ptr = 4 ∷ 5 ∷ 6 ∷ []; size = 3; offset = 0 };
}

first-IsValid : IsValid two_buffers.buffer0
first-IsValid = record {
  in_size = omega arith;
  in_memory = omega arith;
  small = omega arith;
  bytes = (omega arith, (omega arith, (omega arith, tt)));
}

second-IsValid : IsValid two_buffers.buffer1
second-IsValid = record {
  in_size = omega arith;
  in_memory = omega arith;
  small = omega arith;
  bytes = (omega arith, (omega arith, (omega arith, tt)));
}

dbuffer_read_bytes-stream_example :
    (dbuffer_read_bytes two_buffers 4 ≡ (
      if leb 4 (length (stream two_buffers))
      then some (some (take 4 (stream two_buffers), advance_both two_buffers 4))
      else some none))
    × (stream (advance_both two_buffers 4) ≡ drop 4 (stream two_buffers))
    × IsValid (advance_both two_buffers (min 4 (length (stream two_buffers)))).buffer0
    × IsValid (advance_both two_buffers (min 4 (length (stream two_buffers)))).buffer1
dbuffer_read_bytes-stream_example =
    dbuffer_read_bytes-stream two_buffers 4 first-IsValid second-IsValid (omega arith)

-- A first buffer with memory to spare
abbrev roomy : Buffers
roomy = record {
  buffer0 = record { ptr = 1 ∷ 2 ∷ 3 ∷ 0 ∷ 0 ∷ 0 ∷ []; size = 3; offset = 1 };
  buffer1 = record { ptr = 4 ∷ 5 ∷ 6 ∷ []; size = 3; offset = 0 };
}

roomy-IsValid : IsValid roomy.buffer0
roomy-IsValid = record {
  in_size = omega arith;
  in_memory = omega arith;
  small = omega arith;
  bytes =
      (omega arith, (omega arith, (omega arith, (omega arith, (omega arith, (omega arith, tt))))));
}

parser_consolidate_buffers-eq_example :
    (parser_consolidate_buffers roomy 6
      ≡ some (
        true,
        record roomy {
          buffer0 = record { ptr = joined roomy; size = length (stream roomy); offset = 0 };
        },
      ))
    × (take (length (stream roomy)) (joined roomy) ≡ stream roomy)
parser_consolidate_buffers-eq_example =
    parser_consolidate_buffers-eq roomy 6 roomy-IsValid second-IsValid (omega arith) (omega arith)
      (omega arith)
