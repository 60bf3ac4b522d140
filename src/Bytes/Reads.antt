-- ===== src/Bytes/Reads.antt =====
-- Each read of read.c returns the value of the bytes that it covers, and stays inside the memory
-- whenever those bytes do.
use acre_ledger_app.Base.{ℕ, ◌+◌, ◌≤◌, ◌≡◌, refl, ap, ◌∙◌, some, ◌∷◌, arith}
use acre_ledger_app.Base.{length, take, drop, All, All-drop, length-drop, Memory}
use acre_ledger_app.Bytes.{IsByte, read_u16_be, read_u32_be, read_u64_be}
use acre_ledger_app.Bytes.{read_u16_le, read_u32_le, read_u64_le}
use acre_ledger_app.Bytes.Values.{le_value, be_value}
use acre_ledger_app.Bytes.Words.{
  load-at, or_u16_be, or_u32_be, or_u64_be, or_u16_le, or_u32_le, or_u64_le,
}

read_u16_be_head :
    (l : Memory) → 2 ≤ length l → All IsByte l → read_u16_be l 0 ≡ some (be_value (take 2 l))
unfolding read_u16_be
read_u16_be_head (a ∷ b ∷ rest) len ok = ap some (or_u16_be a b ok.0 ok.1.0)
read_u16_be_head _ len ok = absurd (omega arith)

pub read_u16_be-eq-be_value :
    (m : Memory) (off : ℕ)
    → off + 2 ≤ length m
    → All IsByte m
    → read_u16_be m off ≡ some (be_value (take 2 (drop off m)))
read_u16_be-eq-be_value m off h b =
    unfold read_u16_be in
    (rw (load-at m off 0, load-at m off 1) refl)
    ∙ read_u16_be_head (drop off m) (omega (arith, length-drop off m)) (All-drop IsByte off m b)

read_u32_be_head :
    (l : Memory) → 4 ≤ length l → All IsByte l → read_u32_be l 0 ≡ some (be_value (take 4 l))
unfolding read_u32_be
read_u32_be_head (a ∷ b ∷ c ∷ d ∷ rest) len ok =
    ap some (or_u32_be a b c d ok.0 ok.1.0 ok.1.1.0 ok.1.1.1.0)
read_u32_be_head _ len ok = absurd (omega arith)

pub read_u32_be-eq-be_value :
    (m : Memory) (off : ℕ)
    → off + 4 ≤ length m
    → All IsByte m
    → read_u32_be m off ≡ some (be_value (take 4 (drop off m)))
read_u32_be-eq-be_value m off h b =
    unfold read_u32_be in
    (rw (load-at m off 0, load-at m off 1, load-at m off 2, load-at m off 3) refl)
    ∙ read_u32_be_head (drop off m) (omega (arith, length-drop off m)) (All-drop IsByte off m b)

read_u64_be_head :
    (l : Memory) → 8 ≤ length l → All IsByte l → read_u64_be l 0 ≡ some (be_value (take 8 l))
unfolding read_u64_be
read_u64_be_head (a ∷ b ∷ c ∷ d ∷ e ∷ f ∷ g ∷ h ∷ rest) len ok = ap some (
    or_u64_be a b c d e f g h ok.0 ok.1.0 ok.1.1.0 ok.1.1.1.0 ok.1.1.1.1.0 ok.1.1.1.1.1.0
      ok.1.1.1.1.1.1.0 ok.1.1.1.1.1.1.1.0)
read_u64_be_head _ len ok = absurd (omega arith)

pub read_u64_be-eq-be_value :
    (m : Memory) (off : ℕ)
    → off + 8 ≤ length m
    → All IsByte m
    → read_u64_be m off ≡ some (be_value (take 8 (drop off m)))
read_u64_be-eq-be_value m off h b =
    unfold read_u64_be in
    (rw
      (
        load-at m off 0,
        load-at m off 1,
        load-at m off 2,
        load-at m off 3,
        load-at m off 4,
        load-at m off 5,
        load-at m off 6,
        load-at m off 7,
      )
      refl)
    ∙ read_u64_be_head (drop off m) (omega (arith, length-drop off m)) (All-drop IsByte off m b)

read_u16_le_head :
    (l : Memory) → 2 ≤ length l → All IsByte l → read_u16_le l 0 ≡ some (le_value (take 2 l))
unfolding read_u16_le
read_u16_le_head (a ∷ b ∷ rest) len ok = ap some (or_u16_le a b ok.0 ok.1.0)
read_u16_le_head _ len ok = absurd (omega arith)

pub read_u16_le-eq-le_value :
    (m : Memory) (off : ℕ)
    → off + 2 ≤ length m
    → All IsByte m
    → read_u16_le m off ≡ some (le_value (take 2 (drop off m)))
read_u16_le-eq-le_value m off h b =
    unfold read_u16_le in
    (rw (load-at m off 0, load-at m off 1) refl)
    ∙ read_u16_le_head (drop off m) (omega (arith, length-drop off m)) (All-drop IsByte off m b)

read_u32_le_head :
    (l : Memory) → 4 ≤ length l → All IsByte l → read_u32_le l 0 ≡ some (le_value (take 4 l))
unfolding read_u32_le
read_u32_le_head (a ∷ b ∷ c ∷ d ∷ rest) len ok =
    ap some (or_u32_le a b c d ok.0 ok.1.0 ok.1.1.0 ok.1.1.1.0)
read_u32_le_head _ len ok = absurd (omega arith)

pub read_u32_le-eq-le_value :
    (m : Memory) (off : ℕ)
    → off + 4 ≤ length m
    → All IsByte m
    → read_u32_le m off ≡ some (le_value (take 4 (drop off m)))
read_u32_le-eq-le_value m off h b =
    unfold read_u32_le in
    (rw (load-at m off 0, load-at m off 1, load-at m off 2, load-at m off 3) refl)
    ∙ read_u32_le_head (drop off m) (omega (arith, length-drop off m)) (All-drop IsByte off m b)

read_u64_le_head :
    (l : Memory) → 8 ≤ length l → All IsByte l → read_u64_le l 0 ≡ some (le_value (take 8 l))
unfolding read_u64_le
read_u64_le_head (a ∷ b ∷ c ∷ d ∷ e ∷ f ∷ g ∷ h ∷ rest) len ok = ap some (
    or_u64_le a b c d e f g h ok.0 ok.1.0 ok.1.1.0 ok.1.1.1.0 ok.1.1.1.1.0 ok.1.1.1.1.1.0
      ok.1.1.1.1.1.1.0 ok.1.1.1.1.1.1.1.0)
read_u64_le_head _ len ok = absurd (omega arith)

pub read_u64_le-eq-le_value :
    (m : Memory) (off : ℕ)
    → off + 8 ≤ length m
    → All IsByte m
    → read_u64_le m off ≡ some (le_value (take 8 (drop off m)))
read_u64_le-eq-le_value m off h b =
    unfold read_u64_le in
    (rw
      (
        load-at m off 0,
        load-at m off 1,
        load-at m off 2,
        load-at m off 3,
        load-at m off 4,
        load-at m off 5,
        load-at m off 6,
        load-at m off 7,
      )
      refl)
    ∙ read_u64_le_head (drop off m) (omega (arith, length-drop off m)) (All-drop IsByte off m b)
