-- ===== src/Buffer/Total.antt =====
-- src/common/buffer.c: `buffer_peek_n` and `buffer_read_varint` stay within the memory of a valid buffer.
use acre_ledger_app.Base.{
  ℕ, zero, suc, ◌+◌, ◌^◌, ◌≤◌, ◌<◌, ◌≡◌, refl, arith, Option, none, some, List, [], ◌∷◌, length,
  take, drop, All, All-drop, length-drop, ltb, leb, ◌==◌, get_elem?, Memory, Bool, true, false,
  Bool-cases, inl, inr,
}
use acre_ledger_app.Bytes.{IsByte}
use acre_ledger_app.Bytes.Values.{le_value}
use acre_ledger_app.Bytes.Reads.{
  read_u16_le-eq-le_value, read_u32_le-eq-le_value, read_u64_le-eq-le_value,
}
use acre_ledger_app.Varint.{varint_read}
use acre_ledger_app.Buffer.{Buffer, add_size, sub_size, peek_n, read_varint, seek_cur}
use acre_ledger_app.Buffer.Stream.{
  IsValid, remaining, can_read_within, can_read_beyond, length-remaining, in_memory_within,
}

entry : (xs : List ℕ) (i : ℕ) → i < length xs → (c : ℕ) × (get_elem? xs i ≡ some c)
entry [] i h = absurd (omega arith)
entry (x ∷ xs) zero h = (x, refl)
entry (x ∷ xs) (suc i) h = entry xs i (omega arith)

pub peek_n-total :
    (b : Buffer) → IsValid b → (n : ℕ) → n + 1 < 2 ^ 32 → (o : Option ℕ) × (peek_n b n ≡ some o)
unfolding peek_n
peek_n-total b v n h = elim (Bool-cases (leb (n + 1) (length (remaining b)))) [
  | inl e ↦
      let inside : n + 1 ≤ length (remaining b) = ground (arith, e) in
      let (c, there) =
        entry b.ptr (b.offset + n) (omega (arith, in_memory_within v (n + 1) inside)) in
      let same : add_size n 1 ≡ n + 1 = omega (arith, h) in
      let here : add_size b.offset n ≡ b.offset + n =
        omega (arith, inside, length-remaining v, v.in_size, v.small) in
      (some c, rw (same, can_read_within v (n + 1) inside, here, there) refl)
  | inr e ↦
      let same : add_size n 1 ≡ n + 1 = omega (arith, h) in
      (none, rw (same, can_read_beyond v (n + 1) (ground (arith, e))) refl)
]

varint_read-total :
    (m : Memory) (len : ℕ)
    → len ≤ length m
    → All IsByte m
    → (o : Option (ℕ × ℕ)) × (varint_read m len ≡ some o)
unfolding varint_read
varint_read-total m len h bytes = elim (Bool-cases (ltb len 1)) [
  | inl e ↦ (none, rw e refl)
  | inr e ↦
      let (prefix, first) = entry m 0 (ground (arith, e)) in
      elim (Bool-cases (prefix == 0xfd)) [
        | inl p ↦ elim (Bool-cases (ltb len 3)) [
          | inl k ↦ (none, rw (e, first, p, k) refl)
          | inr k ↦ (
            some (3, le_value (take 2 (drop 1 m))),
            rw (e, first, p, k, read_u16_le-eq-le_value m 1 (ground (arith, k)) bytes) refl,
          )
        ]
        | inr p ↦ elim (Bool-cases (prefix == 0xfe)) [
          | inl q ↦ elim (Bool-cases (ltb len 5)) [
            | inl k ↦ (none, rw (e, first, p, q, k) refl)
            | inr k ↦ (
              some (5, le_value (take 4 (drop 1 m))),
              rw (e, first, p, q, k, read_u32_le-eq-le_value m 1 (ground (arith, k)) bytes) refl,
            )
          ]
          | inr q ↦ elim (Bool-cases (prefix == 0xff)) [
            | inl r ↦ elim (Bool-cases (ltb len 9)) [
              | inl k ↦ (none, rw (e, first, p, q, r, k) refl)
              | inr k ↦ (
                some (9, le_value (take 8 (drop 1 m))),
                rw (e, first, p, q, r, k, read_u64_le-eq-le_value m 1 (ground (arith, k)) bytes)
                    refl,
              )
            ]
            | inr r ↦ (some (1, prefix), rw (e, first, p, q, r) refl)
          ]
        ]
      ]
]

abbrev pub varint_result : Buffer → Option (ℕ × ℕ) → Bool × ℕ × Buffer
varint_result b none = (false, 0, b)
varint_result b (some (n, x)) = (true, x, (seek_cur b n).1)

read_varint-run :
    (b : Buffer) (o : Option (ℕ × ℕ))
    → varint_read (drop b.offset b.ptr) (sub_size b.size b.offset) ≡ some o
    → read_varint b ≡ some (varint_result b o)
unfolding read_varint
read_varint-run b none e = rw e refl
read_varint-run b (some (n, x)) e = rw e refl

pub read_varint-total :
    (b : Buffer) → IsValid b → (o : Option (ℕ × ℕ)) × (read_varint b ≡ some (varint_result b o))
read_varint-total b v =
    let inside : sub_size b.size b.offset ≤ length (drop b.offset b.ptr) =
      omega (arith, v.in_size, v.in_memory, v.small, length-drop b.offset b.ptr) in
    let (o, e) =
      varint_read-total (drop b.offset b.ptr) (sub_size b.size b.offset) inside
        (All-drop IsByte b.offset b.ptr v.bytes) in
    (o, read_varint-run b o e)
