-- ===== src/Parser/Stream.antt =====
-- Two valid buffers as one stream: the rest of the first, then the rest of the second.
use acre_ledger_app.Base.{ℕ, zero, suc, ◌+◌, ◌-◌, ◌^◌, ◌≤◌, ◌<◌, ◌≡◌, refl, ap, sym, arith, min}
use acre_ledger_app.Base.{none, some, List, [], ◌∷◌, ◌++◌, length, take, drop, length-append}
use acre_ledger_app.Base.{true, false, ltb, leb, if◌then◌else◌, Bool-cases, inl, inr}
use acre_ledger_app.Buffer.{Buffer}
use acre_ledger_app.Buffer.Stream.{
  IsValid, remaining, advance, length-remaining, remaining-advance, advance-IsValid,
}
use acre_ledger_app.Buffer.Reads.{read_bytes-takes}
use acre_ledger_app.Parser.{Buffers, left_in, dbuffer_get_length, read_part, dbuffer_read_bytes}

take-append_split :
    (n k m : ℕ) (xs ys : List ℕ)
    → k ≡ min n (length xs)
    → m ≡ n - length xs
    → take n (xs ++ ys) ≡ take k xs ++ take m ys
take-append_split n zero m [] ys p q = let e : m ≡ n = omega arith in rw e refl
take-append_split n (suc k) m [] ys p q = absurd (omega arith)
take-append_split zero zero zero (x ∷ xs) ys p q = refl
take-append_split zero zero (suc m) (x ∷ xs) ys p q = absurd (omega arith)
take-append_split zero (suc k) m (x ∷ xs) ys p q = absurd (omega arith)
take-append_split (suc n) zero m (x ∷ xs) ys p q = absurd (omega arith)
take-append_split (suc n) (suc k) m (x ∷ xs) ys p q =
    ap (λ (r : List ℕ). x ∷ r) (take-append_split n k m xs ys (omega arith) (omega arith))

drop-append_split :
    (n k m : ℕ) (xs ys : List ℕ)
    → k ≡ min n (length xs)
    → m ≡ n - length xs
    → drop n (xs ++ ys) ≡ drop k xs ++ drop m ys
drop-append_split n zero m [] ys p q = let e : m ≡ n = omega arith in rw e refl
drop-append_split n (suc k) m [] ys p q = absurd (omega arith)
drop-append_split zero zero zero (x ∷ xs) ys p q = refl
drop-append_split zero zero (suc m) (x ∷ xs) ys p q = absurd (omega arith)
drop-append_split zero (suc k) m (x ∷ xs) ys p q = absurd (omega arith)
drop-append_split (suc n) zero m (x ∷ xs) ys p q = absurd (omega arith)
drop-append_split (suc n) (suc k) m (x ∷ xs) ys p q =
    drop-append_split n k m xs ys (omega arith) (omega arith)

abbrev pub stream : Buffers → List ℕ
stream d = remaining d.buffer0 ++ remaining d.buffer1

-- Both buffers after `n` bytes of the stream
abbrev pub advance_both : Buffers → ℕ → Buffers
advance_both d n = record {
  buffer0 = advance d.buffer0 (min n (length (remaining d.buffer0)));
  buffer1 = advance d.buffer1 (n - length (remaining d.buffer0));
}

read_part-takes :
    (b : Buffer) (n : ℕ)
    → IsValid b
    → n ≤ length (remaining b)
    → read_part b n ≡ some (take n (remaining b), advance b n)
unfolding read_part
read_part-takes b zero v h =
    ap (λ (o : ℕ). some ([], record b { offset = o })) {x = b.offset} {y = b.offset + 0}
      (omega arith)
read_part-takes b (suc n) v h = rw (read_bytes-takes v (suc n) h) refl

module _ (d : Buffers) (v0 : IsValid d.buffer0) (v1 : IsValid d.buffer1) where
  left0 : left_in d.buffer0 ≡ length (remaining d.buffer0)
  left0 = omega (arith, v0, length-remaining v0)

  left1 : left_in d.buffer1 ≡ length (remaining d.buffer1)
  left1 = omega (arith, v1, length-remaining v1)

  pub dbuffer_get_length-eq-length :
      length (stream d) < 2 ^ 32 → dbuffer_get_length d ≡ length (stream d)
  unfolding dbuffer_get_length
  dbuffer_get_length-eq-length small =
      omega (arith, left0, left1, length-append (remaining d.buffer0) (remaining d.buffer1))

  -- The parts of a read that fits
  takes_both :
      (n : ℕ)
      → n ≤ length (stream d)
      → length (stream d) < 2 ^ 32
      → dbuffer_read_bytes d n ≡ some (some (take n (stream d), advance_both d n))
  unfolding dbuffer_read_bytes
  takes_both n h small =
      let both = length-append (remaining d.buffer0) (remaining d.buffer1) in
      let enough : ltb (dbuffer_get_length d) n ≡ false =
        ground (arith, dbuffer_get_length-eq-length small) in
      let first : (if leb n (left_in d.buffer0) then n else left_in d.buffer0)
          ≡ min n (length (remaining d.buffer0)) =
        ground (arith, left0) in
      let second : n - min n (length (remaining d.buffer0)) ≡ n - length (remaining d.buffer0) =
        omega arith in
      rw
        (
          enough,
          first,
          second,
          read_part-takes d.buffer0 (min n (length (remaining d.buffer0))) v0 (omega arith),
          read_part-takes d.buffer1 (n - length (remaining d.buffer0)) v1 (omega (arith, both)),
          take-append_split n (min n (length (remaining d.buffer0)))
              (n - length (remaining d.buffer0)) (remaining d.buffer0) (remaining d.buffer1) refl
              refl,
        )
        refl

  fails_both :
      (n : ℕ)
      → length (stream d) < n
      → length (stream d) < 2 ^ 32
      → dbuffer_read_bytes d n ≡ some none
  unfolding dbuffer_read_bytes
  fails_both n h small =
      let short : ltb (dbuffer_get_length d) n ≡ true =
        ground (arith, dbuffer_get_length-eq-length small) in
      rw short refl

  stream-advance_both : (n : ℕ) → stream (advance_both d n) ≡ drop n (stream d)
  stream-advance_both n =
      rw
        (
          remaining-advance v0 (min n (length (remaining d.buffer0))),
          remaining-advance v1 (n - length (remaining d.buffer0)),
        )
        (sym (
          drop-append_split n (min n (length (remaining d.buffer0)))
            (n - length (remaining d.buffer0)) (remaining d.buffer0) (remaining d.buffer1) refl
            refl))

-- A read of `n` bytes from two valid buffers whose lengths do not overflow: with enough left in both
-- together it copies the next `n` of the stream and leaves the rest of it to come, in buffers that
-- are valid; with fewer, it fails. It never reads outside the memory.
pub dbuffer_read_bytes-stream :
    (d : Buffers) (n : ℕ)
    → IsValid d.buffer0
    → IsValid d.buffer1
    → length (stream d) < 2 ^ 32
    → (dbuffer_read_bytes d n ≡ (
        if leb n (length (stream d))
        then some (some (take n (stream d), advance_both d n))
        else some none))
      × (stream (advance_both d n) ≡ drop n (stream d))
      × IsValid (advance_both d (min n (length (stream d)))).buffer0
      × IsValid (advance_both d (min n (length (stream d)))).buffer1
dbuffer_read_bytes-stream d n v0 v1 small =
    let both = length-append (remaining d.buffer0) (remaining d.buffer1) in
    (
      elim (Bool-cases (leb n (length (stream d)))) [
        | inl e ↦ rw e (takes_both d v0 v1 n (ground arith) small)
        | inr e ↦ rw e (fails_both d v0 v1 n (ground arith) small)
      ],
      stream-advance_both d v0 v1 n,
      advance-IsValid v0 _ (omega arith),
      advance-IsValid v1 _ (omega (arith, both)),
    )
