-- ===== src/Policy/Hex.antt =====
-- src/common/wallet.c: what `buffer_read_hex_hash` does on the hexadecimal digits of bytes.
use acre_ledger_app.Base.{ℕ, ◌+◌, ◌*◌, ◌/◌, ◌%◌, ◌^◌, ◌≤◌, ◌<◌, ◌≡◌, refl, ap, arith}
use acre_ledger_app.Base.{
  some, List, [], ◌∷◌, ◌++◌, length, All, length-append, true, ltb, if◌then◌else◌,
}
use acre_ledger_app.Bytes.{IsByte}
use acre_ledger_app.Buffer.{Buffer}
use acre_ledger_app.Buffer.Stream.{remaining, can_read_within, advance}
use acre_ledger_app.Policy.Reader.{return}
use acre_ledger_app.Policy.Text.{
  is_digit, is_lowercase_hex, lowercase_hex_to_int, hex_loop, buffer_read_hex_hash,
}
use acre_ledger_app.Policy.Stream.{Holds, Reads, step-Holds, resume-eq}
use acre_ledger_app.Policy.Characters.{read_u8-next}

-- The digit of a number less than 16: '0' to '9', then 'a' to 'f'
abbrev pub hex_digit : ℕ → ℕ
hex_digit d = if ltb d 10 then 48 + d else 87 + d

-- Bytes in hexadecimal, the upper four bits first
abbrev pub hex_text : List ℕ → List ℕ
hex_text [] = []
hex_text (x ∷ bs) = hex_digit (x / 16) ∷ hex_digit (x % 16) ∷ hex_text bs

pub length-hex_text : (bs : List ℕ) → length (hex_text bs) ≡ 2 * length bs
length-hex_text [] = refl
length-hex_text (x ∷ bs) = omega (arith, length-hex_text bs)

hex_digit-is_lowercase_hex : (d : ℕ) → d < 16 → is_lowercase_hex (hex_digit d) ≡ true
unfolding is_lowercase_hex is_digit
hex_digit-is_lowercase_hex d h = ground arith

lowercase_hex_to_int-hex_digit : (d : ℕ) → d < 16 → lowercase_hex_to_int (hex_digit d) ≡ d
unfolding lowercase_hex_to_int is_digit
lowercase_hex_to_int-hex_digit d h = ground arith

hex_loop-hex_text : (bs : List ℕ) → All IsByte bs → Reads (hex_loop (length bs)) (hex_text bs) bs
unfolding hex_loop
hex_loop-hex_text [] a b rest h = (b, refl, h)
hex_loop-hex_text (x ∷ bs) a b rest h =
    let upper : x / 16 < 16 = omega (arith, a.0) in
    let lower : x % 16 < 16 = omega arith in
    let h1 = step-Holds b _ _ h in
    let h2 = step-Holds (advance b 1) _ _ h1 in
    let (b', run, h') = hex_loop-hex_text bs a.1 (advance (advance b 1) 1) rest h2 in
    let value : (16 * (x / 16) + x % 16) % 2 ^ 8 ≡ x = omega (arith, a.0) in
    (
      b',
      resume-eq _ (read_u8-next b _ _ h) (
          resume-eq _ (read_u8-next (advance b 1) _ _ h1) (
            rw
              (
                hex_digit-is_lowercase_hex (x / 16) upper,
                hex_digit-is_lowercase_hex (x % 16) lower,
                lowercase_hex_to_int-hex_digit (x / 16) upper,
                lowercase_hex_to_int-hex_digit (x % 16) lower,
                value,
              )
              (resume-eq (λ rest. return (x ∷ rest)) run refl))),
      h',
    )

-- On the hexadecimal digits of bytes, in lower case, whatever follows them,
-- `buffer_read_hex_hash` for that many bytes returns the bytes, and takes the digits and nothing
-- else.
pub buffer_read_hex_hash-hex_text :
    (bs : List ℕ) (b : Buffer) (rest : List ℕ)
    → All IsByte bs
    → Holds b (hex_text bs ++ rest)
    → (b' : Buffer) × (buffer_read_hex_hash (length bs) b ≡ some (some (bs, b'))) × Holds b' rest
unfolding buffer_read_hex_hash
buffer_read_hex_hash-hex_text bs b rest a h =
    let left = ap length h.same in
    let enough : (2 * length bs) % 2 ^ 32 ≤ length (remaining b) =
      omega (arith, h.valid, left, length-append (hex_text bs) rest, length-hex_text bs) in
    rw (can_read_within h.valid ((2 * length bs) % 2 ^ 32) enough) (hex_loop-hex_text bs a b rest h)
