-- ===== src/Rawtx/Varints.antt =====
-- Varints that are read from the stream of two buffers.
use acre_ledger_app.Base.{
  ℕ, zero, suc, ◌+◌, ◌-◌, ◌*◌, ◌/◌, ◌%◌, ◌^◌, ◌≤◌, ◌<◌, ◌≡◌, refl, ap, ◌∙◌, sym, arith,
}
use acre_ledger_app.Base.{some, List, [], ◌∷◌, ◌++◌, length, take, drop, length-append, take-length}
use acre_ledger_app.Base.{true, false, leb, append_assoc, replicate, load, Bool-cases, inl, inr}
use acre_ledger_app.Base.Blocks.{load-drop}
use mathlib.Core.Path.{subst}
use native.Mathlib.Nat.{pow-suc}
use acre_ledger_app.Bytes.{read_u64_le}
use acre_ledger_app.Bytes.Values.{
  le_value, le_bytes, length-le_bytes, le_bytes-IsByte, le_value-le_bytes,
}
use acre_ledger_app.Bytes.Reads.{read_u64_le-eq-le_value}
use acre_ledger_app.Varint.Format.{varint_bytes}
use acre_ledger_app.Buffer.Stream.{IsValid, remaining, can_read_within, can_read_beyond}
use acre_ledger_app.Buffer.Reads.{head-take}
use acre_ledger_app.Parser.{Buffers, dbuffer_can_read, peek_first, varint_data_length}
use acre_ledger_app.Parser.{read_exactly, dbuffer_read_varint}
use acre_ledger_app.Parser.Stream.{dbuffer_get_length-eq-length}
use acre_ledger_app.Rawtx.State.{TxState, Reply, with_varint}
use acre_ledger_app.Rawtx.Consume.{IsStream, read_bytes-next, Consumes}

le_bytes-zero : (n : ℕ) → le_bytes n 0 ≡ replicate n 0
unfolding le_bytes
le_bytes-zero zero = refl
le_bytes-zero (suc n) = rw (le_bytes-zero n) refl

le_bytes-padded : (k j v : ℕ) → v < 256 ^ k → le_bytes k v ++ replicate j 0 ≡ le_bytes (k + j) v
unfolding le_bytes
le_bytes-padded zero j v h =
    let e : v ≡ 0 = omega arith in
    let z : 0 + j ≡ j = omega arith in rw (e, z) (sym (le_bytes-zero j))
le_bytes-padded (suc k) j v h =
    let small : v < 256 * 256 ^ k = omega (arith, pow-suc 256 k) in
    let z : suc k + j ≡ suc (k + j) = omega arith in
    rw z (ap (λ (r : List ℕ). (v % 256) ∷ r) (le_bytes-padded k j (v / 256) (omega arith)))

pub read_u64_le-le_bytes : (v : ℕ) → v < 2 ^ 64 → read_u64_le (le_bytes 8 v) 0 ≡ some v
read_u64_le-le_bytes v h =
    read_u64_le-eq-le_value (le_bytes 8 v) 0 (omega (arith, length-le_bytes 8 v))
      (le_bytes-IsByte 8 v)
    ∙ ap some (
        ap le_value (
          ap (λ (n : ℕ). take n (le_bytes 8 v)) (sym (length-le_bytes 8 v))
          ∙ take-length (le_bytes 8 v))
        ∙ le_value-le_bytes 8 v (omega arith))

module _ (d : Buffers) (s : List ℕ) (v : IsStream d s) where
  can_read-eq-leb : (n : ℕ) → dbuffer_can_read d n ≡ leb n (length s)
  unfolding dbuffer_can_read
  can_read-eq-leb n =
      ap (leb n)
        (dbuffer_get_length-eq-length d v.valid0 v.valid1 (rw v.same v.small) ∙ ap length v.same)

  pub can_read-enough : (n : ℕ) → n ≤ length s → dbuffer_can_read d n ≡ true
  can_read-enough n h = can_read-eq-leb n ∙ ground arith

first_of :
    (n i : ℕ) (m : List ℕ) {x : ℕ} {xs : List ℕ} → take n (drop i m) ≡ x ∷ xs → load m i ≡ some x
first_of n i m e = load-drop m i ∙ head-take n (drop i m) e

peek_first_split :
    (d : Buffers) (r0 : List ℕ) (x : ℕ) (xs : List ℕ)
    → IsValid d.buffer0
    → remaining d.buffer0 ≡ r0
    → r0 ++ remaining d.buffer1 ≡ x ∷ xs
    → peek_first d ≡ some x
unfolding peek_first
peek_first_split d [] x xs v0 e0 e =
    let empty = can_read_beyond v0 1 (rw e0 (omega arith)) in
    rw empty (first_of _ d.buffer1.offset d.buffer1.ptr e)
peek_first_split d (y ∷ ys) x xs v0 e0 e =
    let some_left = can_read_within v0 1 (rw e0 (omega arith)) in
    rw some_left (first_of _ d.buffer0.offset d.buffer0.ptr e0 ∙ cc)

pub peek_first-next :
    (d : Buffers) (x : ℕ) (xs : List ℕ) → IsStream d (x ∷ xs) → peek_first d ≡ some x
peek_first-next d x xs v = peek_first_split d _ x xs v.valid0 refl v.same

read_exactly-next :
    (d : Buffers) (n : ℕ) (bytes rest : List ℕ)
    → length bytes ≡ n
    → IsStream d (bytes ++ rest)
    → (d' : Buffers) × (read_exactly d n ≡ some (bytes, d')) × IsStream d' rest
unfolding read_exactly
read_exactly-next d n bytes rest len v =
    let (d', run, v') = read_bytes-next d bytes rest v in (d', rw (sym len, run) refl, v')

-- What a read of the varint `v` leaves
abbrev ReadsVarint : Buffers → ℕ → List ℕ → Type 0
ReadsVarint d v rest =
    (d' : Buffers) × (dbuffer_read_varint d ≡ some (true, v, d')) × IsStream d' rest

prefixed :
    (d : Buffers) (p k j v : ℕ) (rest : List ℕ)
    → 0xfc < p
    → varint_data_length p ≡ k
    → k + j ≡ 8
    → v < 256 ^ k
    → v < 2 ^ 64
    → IsStream d (p ∷ (le_bytes k v ++ rest))
    → ReadsVarint d v rest
unfolding dbuffer_read_varint
prefixed d p k j v rest above width pad fits fits64 s =
    let (d1, run1, s1) = read_exactly-next d 1 (p ∷ []) (le_bytes k v ++ rest) refl s in
    let (d2, run2, s2) = read_exactly-next d1 k (le_bytes k v) rest (length-le_bytes k v) s1 in
    let one = can_read-enough d _ s 1 (omega arith) in
    let all =
      can_read-enough d _ s (1 + k)
        (omega (arith, length-append (le_bytes k v) rest, length-le_bytes k v)) in
    let big : leb p 0xfc ≡ false = ground arith in
    let rest_of : 8 - k ≡ j = omega arith in
    let number : read_u64_le (le_bytes k v ++ replicate j 0) 0 ≡ some v =
      ap (λ (m : List ℕ). read_u64_le m 0) (le_bytes-padded k j v fits)
      ∙ rw pad (read_u64_le-le_bytes v fits64) in
    (d2, rw (one, peek_first-next d p _ s, width, all, run1, big, run2, rest_of, number) refl, s2)

single :
    (d : Buffers) (v : ℕ) (rest : List ℕ) → v ≤ 0xfc → IsStream d (v ∷ rest) → ReadsVarint d v rest
unfolding dbuffer_read_varint varint_data_length
single d v rest small s =
    let (d1, run1, s1) = read_exactly-next d 1 (v ∷ []) rest refl s in
    let one = can_read-enough d _ s 1 (omega arith) in
    let le_fc : leb v 0xfc ≡ true = ground arith in
    let none_more : varint_data_length v ≡ 0 = ground arith in
    (
      d1,
      unfold dbuffer_read_varint in
          rw (one, peek_first-next d v _ s, none_more, one, run1, le_fc) refl,
      s1,
    )

abbrev Readable : ℕ → List ℕ → Type 0
Readable v bytes = (d : Buffers) (rest : List ℕ) → IsStream d (bytes ++ rest) → ReadsVarint d v rest

varint_bytes-Readable : (v : ℕ) → v < 2 ^ 64 → Readable v (varint_bytes v)
unfolding varint_bytes varint_data_length
varint_bytes-Readable v h = elim (Bool-cases (leb v 0xfc)) [
  | inl a ↦ rw a (λ d rest s. single d v rest (ground arith) s)
  | inr a ↦ rw a (elim (Bool-cases (leb v 0xffff)) [
    | inl b ↦
        rw b (λ d rest s. prefixed d 0xfd 2 6 v rest (omega arith) refl refl (ground arith) h s)
    | inr b ↦ rw b (elim (Bool-cases (leb v 0xffff_ffff)) [
      | inl c ↦
          rw c (λ d rest s. prefixed d 0xfe 4 4 v rest (omega arith) refl refl (ground arith) h s)
      | inr c ↦
          rw c (λ d rest s. prefixed d 0xff 8 0 v rest (omega arith) refl refl (ground arith) h s)
    ])
  ])
]

pub consumes_varint :
    (v : ℕ) (more : List ℕ) (s : TxState) (f : ℕ → Buffers → Reply) (Q : TxState → Type 0)
    → v < 2 ^ 64
    → Consumes (f v) more Q
    → Consumes (λ d. with_varint s d f) (varint_bytes v ++ more) Q
unfolding with_varint
consumes_varint v more s f Q h after d rest valid =
    let (d1, run, v1) =
      varint_bytes-Readable v h d (more ++ rest)
        (subst (IsStream d) (append_assoc (varint_bytes v) more rest) valid) in
    let (s', d2, run', v2, q) = after d1 rest v1 in (s', d2, rw run run', v2, q)
