-- ===== src/Buffer/Invariant.antt =====
-- Whatever is done with a valid buffer, it stays valid.
use acre_ledger_app.Base.{ℕ, ◌+◌, ◌^◌, ◌≤◌, ◌<◌, ◌≡◌, refl, ap, ◌∙◌, sym, arith}
use acre_ledger_app.Base.{
  Option, none, some, ◌>>=◌, List, [], ◌∷◌, length, All, Bool, true, false, not, leb, ltb, ◌||◌,
  store, >>=_assoc, if◌then◌else◌, Bool-cases, inl, inr,
}
use acre_ledger_app.Bytes.{IsByte, Endianness}
use acre_ledger_app.Buffer.{
  Buffer, add_size, sub_size, can_read, seek_set, seek_cur, seek_end, read_u8, read_u16, read_u32,
  read_u64, read_varint, peek_n, alloc, read_bytes, write_u8, write_u16, write_u32, write_u64,
  write_bytes,
}
use acre_ledger_app.Buffer.Stream.{IsValid, remaining, advance, advance-IsValid}
use acre_ledger_app.Buffer.Reads.{
  read_u8-takes, read_u8-fails, read_u16-takes, read_u16-fails, read_u32-takes, read_u32-fails,
  read_u64-takes, read_u64-fails, read_bytes-takes, read_bytes-fails,
}
use acre_ledger_app.Buffer.Total.{varint_result, read_varint-total, peek_n-total}
use acre_ledger_app.Buffer.Writes.{
  bytes_of, patched, patched-IsValid, bytes_of-IsByte, length-bytes_of, length-remaining-patched,
  write_u16-puts, write_u16-fails, write_u32-puts, write_u32-fails, write_u64-puts, write_u64-fails,
  write_bytes-puts, write_bytes-fails,
}

-- A call of a function of buffer.c, but for `buffer_read_bip32_path`, which may read behind the memory.
-- `buffer_peek` looks 0 ahead.
pub data Operation : Type 0 where
  set_offset move_on set_from_end : ℕ → Operation
  take_u8 : Operation
  take_u16 take_u32 take_u64 : Endianness → Operation
  take_bytes : ℕ → Operation
  take_varint : Operation
  look_ahead : ℕ → Operation
  reserve : ℕ → ℕ → Bool → Operation
  put_u8 : ℕ → Operation
  put_u16 put_u32 put_u64 : ℕ → Endianness → Operation
  put_bytes : List ℕ → Operation

abbrev rest_of : Buffer → Option (List ℕ × Buffer) → Buffer
rest_of b none = b
rest_of b (some r) = r.1

-- The buffer after the call
unfoldable pub run : Operation → Buffer → Option Buffer
run (set_offset n) b = some (seek_set b n).1
run (move_on n) b = some (seek_cur b n).1
run (set_from_end n) b = some (seek_end b n).1
run take_u8 b = read_u8 b >>= λ r. some r.2
run (take_u16 e) b = read_u16 b e >>= λ r. some r.2
run (take_u32 e) b = read_u32 b e >>= λ r. some r.2
run (take_u64 e) b = read_u64 b e >>= λ r. some r.2
run (take_bytes n) b = read_bytes b n >>= λ r. some (rest_of b r)
run take_varint b = read_varint b >>= λ r. some r.2
run (look_ahead n) b = peek_n b n >>= λ r. some b
run (reserve address size aligned) b = some (alloc address b size aligned).1
run (put_u8 x) b = write_u8 b x >>= λ r. some r.1
run (put_u16 x e) b = write_u16 b x e >>= λ r. some r.1
run (put_u32 x e) b = write_u32 b x e >>= λ r. some r.1
run (put_u64 x e) b = write_u64 b x e >>= λ r. some r.1
run (put_bytes bs) b = write_bytes b bs >>= λ r. some r.1

-- What C's types say of the arguments; `n + 1` in `buffer_peek_n` does not overflow.
abbrev pub HasArguments : Operation → Type 0
HasArguments (put_u8 x) = IsByte x
HasArguments (put_bytes bs) = All IsByte bs
HasArguments (look_ahead n) = n + 1 < 2 ^ 32
HasArguments op = Unit

module _ (b : Buffer) (v : IsValid b) where
  moved : (n : ℕ) → n ≤ b.size → IsValid (record b { offset = n })
  moved n h = record { in_size = h; in_memory = v.in_memory; small = v.small; bytes = v.bytes }

  kept :
      {A : Type 0} (f : A → Buffer) (o : Option A) (n : ℕ) (good bad : A)
      → (n ≤ length (remaining b) → o ≡ some good)
      → (length (remaining b) < n → o ≡ some bad)
      → (n ≤ length (remaining b) → IsValid (f good))
      → IsValid (f bad)
      → (b' : Buffer) × ((o >>= λ r. some (f r)) ≡ some b') × IsValid b'
  kept f o n good bad within beyond ok same = elim (Bool-cases (leb n (length (remaining b)))) [
    | inl e ↦
        let h : n ≤ length (remaining b) = ground (arith, e) in
        (f good, ap (λ x. x >>= λ r. some (f r)) (within h), ok h)
    | inr e ↦
        let h : length (remaining b) < n = ground (arith, e) in
        (f bad, ap (λ x. x >>= λ r. some (f r)) (beyond h), same)
  ]

  patched_past :
      (bs : List ℕ) (n : ℕ)
      → length bs ≡ n
      → All IsByte bs
      → n ≤ length (remaining b)
      → IsValid (advance (patched b bs) n)
  patched_past bs n len ok h =
      let small : length bs ≤ length (remaining b) = omega arith in
      advance-IsValid (patched-IsValid v bs small ok) n
        (omega (arith, length-remaining-patched v bs small ok))

  write_u8-eq-write_bytes : (x : ℕ) → write_u8 b x ≡ write_bytes b (x ∷ [])
  unfolding write_u8 write_bytes
  write_u8-eq-write_bytes x =
      ap (λ (o : Option (Bool × Buffer)). if not (can_read b 1) then some (false, b) else o)
        (sym (
          >>=_assoc (store b.ptr b.offset x) some
            (λ ptr. some (true, (seek_cur (record b { ptr = ptr }) 1).1))))

  seek_set-IsValid : (n : ℕ) → IsValid (seek_set b n).1
  unfolding seek_set
  seek_set-IsValid n = elim (Bool-cases (ltb b.size n)) [
    | inl e ↦ rw e v
    | inr e ↦ rw e (moved n (ground (arith, e)))
  ]

  seek_end-IsValid : (n : ℕ) → IsValid (seek_end b n).1
  unfolding seek_end
  seek_end-IsValid n = elim (Bool-cases (ltb b.size n)) [
    | inl e ↦ rw e v
    | inr e ↦ rw e (moved (sub_size b.size n) (ground (arith, e, v.small)))
  ]

  seek_cur-IsValid : (n : ℕ) → IsValid (seek_cur b n).1
  unfolding seek_cur
  seek_cur-IsValid n =
      elim (Bool-cases (ltb (add_size b.offset n) b.offset || ltb b.size (add_size b.offset n))) [
        | inl e ↦ rw e v
        | inr e ↦ rw e (moved (add_size b.offset n) (ground (arith, e)))
      ]

  take_u8-IsValid :
      (rs : List ℕ)
      → remaining b ≡ rs
      → (b' : Buffer) × ((read_u8 b >>= λ r. some r.2) ≡ some b') × IsValid b'
  take_u8-IsValid [] e = (
    b,
    ap (λ o. o >>= λ (r : Bool × ℕ × Buffer). some r.2) (read_u8-fails v (rw e (omega arith))),
    v,
  )
  take_u8-IsValid (x ∷ rs) e = (
    advance b 1,
    ap (λ o. o >>= λ (r : Bool × ℕ × Buffer). some r.2) (read_u8-takes v e),
    advance-IsValid v 1 (rw e (omega arith)),
  )

  take_varint-IsValid :
      (o : Option (ℕ × ℕ))
      → read_varint b ≡ some (varint_result b o)
      → (b' : Buffer) × ((read_varint b >>= λ r. some r.2) ≡ some b') × IsValid b'
  take_varint-IsValid none e = (b, rw e refl, v)
  take_varint-IsValid (some (n, x)) e = ((seek_cur b n).1, rw e refl, seek_cur-IsValid n)

  moved_or_not :
      (t : Bool) (p q : Option ℕ) (n : ℕ)
      → let r : Option ℕ × Buffer = if t then (p, b) else (q, (seek_cur b n).1) in IsValid r.1
  moved_or_not true p q n = v
  moved_or_not false p q n = seek_cur-IsValid n

  alloc-IsValid : (address size : ℕ) (aligned : Bool) → IsValid (alloc address b size aligned).1
  unfolding alloc
  alloc-IsValid address size aligned = moved_or_not _ none _ _

  -- The cursor and the memory stay in bounds: on a valid buffer none of these calls leaves the memory,
  -- and the buffer is valid after it, also where the call fails: `buffer_seek_set`, `buffer_seek_cur`,
  -- `buffer_seek_end`, `buffer_read_u8`, `_u16`, `_u32`, `_u64`, `_varint` and `_bytes`, `buffer_peek`,
  -- `buffer_peek_n` with n + 1 < 2 ^ 32, `buffer_alloc`, and `buffer_write_u8`, `_u16`, `_u32`, `_u64`
  -- and `_bytes`, with all arguments of their types. `buffer_read_bip32_path` is not among them.
  pub run-IsValid :
      (op : Operation) → HasArguments op → (b' : Buffer) × (run op b ≡ some b') × IsValid b'
  unfolding run
  run-IsValid (set_offset n) a = (_, refl, seek_set-IsValid n)
  run-IsValid (move_on n) a = (_, refl, seek_cur-IsValid n)
  run-IsValid (set_from_end n) a = (_, refl, seek_end-IsValid n)
  run-IsValid take_u8 a = take_u8-IsValid (remaining b) refl
  run-IsValid (take_u16 e) a =
      kept (λ (r : Bool × ℕ × Buffer). r.2) (read_u16 b e) 2 _ _ (read_u16-takes v e)
        (read_u16-fails v e) (advance-IsValid v 2) v
  run-IsValid (take_u32 e) a =
      kept (λ (r : Bool × ℕ × Buffer). r.2) (read_u32 b e) 4 _ _ (read_u32-takes v e)
        (read_u32-fails v e) (advance-IsValid v 4) v
  run-IsValid (take_u64 e) a =
      kept (λ (r : Bool × ℕ × Buffer). r.2) (read_u64 b e) 8 _ _ (read_u64-takes v e)
        (read_u64-fails v e) (advance-IsValid v 8) v
  run-IsValid (take_bytes n) a =
      kept (rest_of b) (read_bytes b n) n _ none (read_bytes-takes v n) (read_bytes-fails v n)
        (advance-IsValid v n) v
  run-IsValid take_varint a = let (o, e) = read_varint-total b v in take_varint-IsValid o e
  run-IsValid (look_ahead n) a = let (o, e) = peek_n-total b v n a in (b, rw e refl, v)
  run-IsValid (reserve address size aligned) a = (_, refl, alloc-IsValid address size aligned)
  run-IsValid (put_u8 x) a =
      kept (λ (r : Bool × Buffer). r.1) (write_u8 b x) 1 (true, advance (patched b (x ∷ [])) 1)
        (false, b) (λ h. write_u8-eq-write_bytes x ∙ write_bytes-puts v (x ∷ []) h (a, tt))
        (λ h. write_u8-eq-write_bytes x ∙ write_bytes-fails v (x ∷ []) h)
        (patched_past (x ∷ []) 1 refl (a, tt)) v
  run-IsValid (put_u16 x e) a =
      kept (λ (r : Bool × Buffer). r.1) (write_u16 b x e) 2 _ _ (write_u16-puts v x e)
        (write_u16-fails v x e)
        (patched_past (bytes_of e 2 x) 2 (length-bytes_of e 2 x) (bytes_of-IsByte e 2 x)) v
  run-IsValid (put_u32 x e) a =
      kept (λ (r : Bool × Buffer). r.1) (write_u32 b x e) 4 _ _ (write_u32-puts v x e)
        (write_u32-fails v x e)
        (patched_past (bytes_of e 4 x) 4 (length-bytes_of e 4 x) (bytes_of-IsByte e 4 x)) v
  run-IsValid (put_u64 x e) a =
      kept (λ (r : Bool × Buffer). r.1) (write_u64 b x e) 8 _ _ (write_u64-puts v x e)
        (write_u64-fails v x e)
        (patched_past (bytes_of e 8 x) 8 (length-bytes_of e 8 x) (bytes_of-IsByte e 8 x)) v
  run-IsValid (put_bytes bs) a =
      kept (λ (r : Bool × Buffer). r.1) (write_bytes b bs) (length bs) _ _
        (λ h. write_bytes-puts v bs h a) (write_bytes-fails v bs)
        (patched_past bs (length bs) refl a) v
