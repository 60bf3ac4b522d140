-- ===== src/Parser/Consolidate.antt =====
-- `parser_consolidate_buffers` moves the stream of two buffers into the first.
use acre_ledger_app.Base.{ℕ, ◌+◌, ◌-◌, ◌^◌, ◌≤◌, ◌<◌, ◌≡◌, refl, ap, ◌∙◌, arith}
use acre_ledger_app.Base.{
  true, false, some, List, ◌++◌, length, take, drop, length-append, take-append,
}
use acre_ledger_app.Base.{Memory, ltb, load_bytes}
use acre_ledger_app.Base.Blocks.{
  overwrite, take-overwrite, length-overwrite, load_bytes-eq-take, store_bytes-eq-overwrite,
}
use acre_ledger_app.Buffer.{Buffer, add_size}
use acre_ledger_app.Buffer.Stream.{IsValid, remaining, length-remaining}
use acre_ledger_app.Parser.{Buffers, left_in, parser_consolidate_buffers}
use acre_ledger_app.Parser.Stream.{stream}

-- The rest of a valid buffer, as it is copied out
load-remaining :
    (b : Buffer) → IsValid b → load_bytes b.ptr b.offset (left_in b) ≡ some (remaining b)
load-remaining b v =
    let left : left_in b ≡ b.size - b.offset = omega (arith, v) in
    rw left (load_bytes-eq-take b.ptr b.offset (b.size - b.offset) (omega (arith, v)))

-- The memory of the first buffer after both moves
abbrev pub joined : Buffers → Memory
joined d =
    overwrite (overwrite d.buffer0.ptr 0 (remaining d.buffer0)) (length (remaining d.buffer0))
      (remaining d.buffer1)

module _ (d : Buffers) (room : length (stream d) ≤ length d.buffer0.ptr) where
  both : length (stream d) ≡ length (remaining d.buffer0) + length (remaining d.buffer1)
  both = length-append (remaining d.buffer0) (remaining d.buffer1)

  moved_length : length (overwrite d.buffer0.ptr 0 (remaining d.buffer0)) ≡ length d.buffer0.ptr
  moved_length = length-overwrite d.buffer0.ptr 0 (remaining d.buffer0) (omega (arith, both))

  take-joined : take (length (stream d)) (joined d) ≡ stream d
  take-joined =
      let first : take (length (remaining d.buffer0))
            (overwrite d.buffer0.ptr 0 (remaining d.buffer0))
          ≡ remaining d.buffer0 =
        take-append (remaining d.buffer0) (drop (length (remaining d.buffer0)) d.buffer0.ptr) in
      ap (λ (n : ℕ). take n (joined d)) both
      ∙ take-overwrite (overwrite d.buffer0.ptr 0 (remaining d.buffer0))
          (length (remaining d.buffer0)) (remaining d.buffer1) (omega (arith, both, moved_length))
      ∙ ap (λ (t : List ℕ). t ++ remaining d.buffer1) first

-- Two valid buffers whose rests fit the size allowed, which the first has memory for: the first is
-- left with both rests, in order, at the start of its memory, and the second as it was.
pub parser_consolidate_buffers-eq :
    (d : Buffers) (max_size : ℕ)
    → IsValid d.buffer0
    → IsValid d.buffer1
    → length (stream d) ≤ max_size
    → max_size ≤ length d.buffer0.ptr
    → max_size < 2 ^ 32
    → (parser_consolidate_buffers d max_size
        ≡ some (
          true,
          record d { buffer0 = record { ptr = joined d; size = length (stream d); offset = 0 } },
        ))
      × (take (length (stream d)) (joined d) ≡ stream d)
unfolding parser_consolidate_buffers
parser_consolidate_buffers-eq d max_size v0 v1 fits inside small =
    let split = length-append (remaining d.buffer0) (remaining d.buffer1) in
    let left0 : left_in d.buffer0 ≡ length (remaining d.buffer0) =
      omega (arith, v0, length-remaining v0) in
    let left1 : left_in d.buffer1 ≡ length (remaining d.buffer1) =
      omega (arith, v1, length-remaining v1) in
    let total : add_size (left_in d.buffer0) (left_in d.buffer1) ≡ length (stream d) =
      omega (arith, left0, left1, split) in
    let allowed : ltb max_size (length (stream d)) ≡ false = ground arith in
    let moved = moved_length d (omega arith) in
    (
      rw
          (
            total,
            allowed,
            load-remaining d.buffer0 v0,
            store_bytes-eq-overwrite d.buffer0.ptr 0 (remaining d.buffer0) (omega (arith, split)),
            load-remaining d.buffer1 v1,
            left0,
            store_bytes-eq-overwrite (overwrite d.buffer0.ptr 0 (remaining d.buffer0))
                (length (remaining d.buffer0)) (remaining d.buffer1) (omega (arith, split, moved)),
          )
          refl,
      take-joined d (omega arith),
    )
