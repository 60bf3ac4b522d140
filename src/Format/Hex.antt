-- ===== src/Format/Hex.antt =====
-- src/common/format.c: what `format_hex` writes.
use acre_ledger_app.Base.{ℕ, suc, ◌+◌, ◌*◌, ◌/◌, ◌%◌, ◌^◌, ◌≤◌, ◌<◌, ◌≡◌, refl, ap, ◌∙◌, sym, arith}
use acre_ledger_app.Base.{
  Option, none, some, ◌>>=◌, >>=_assoc, List, [], ◌∷◌, ◌++◌, length, length-append, All, drop,
  drop-drop, Memory, load, store, store_bytes, bit_and, Bool, true, false, ◌==◌, leb, ltb,
}
use acre_ledger_app.Base.Blocks.{load-drop, overwrite, store_bytes-eq-overwrite}
use acre_ledger_app.Base.Bounded.{all_below-at}
use acre_ledger_app.Bytes.{IsByte}
use acre_ledger_app.Policy.Hex.{hex_digit, hex_text, length-hex_text}
use acre_ledger_app.Format.{hex, write_digits, format_hex}

upper_bits : (x : ℕ) → IsByte x → bit_and x 0xf0 / 16 ≡ x / 16
upper_bits x h =
    let same = all_below-at 256 (λ (x : ℕ). bit_and x 0xf0 / 16 == x / 16) refl x h in
    ground (arith, same)

lower_bits : (x : ℕ) → IsByte x → bit_and x 0x0f ≡ x % 16
lower_bits x h =
    let same = all_below-at 256 (λ (x : ℕ). bit_and x 0x0f == x % 16) refl x h in
    ground (arith, same)

is_some : Option ℕ → ℕ → Bool
is_some none c = false
is_some (some x) c = x == c

is_some-eq : (o : Option ℕ) (c : ℕ) → is_some o c ≡ true → o ≡ some c
unfolding is_some
is_some-eq none c e = cc
is_some-eq (some x) c e = ap some (ground (arith, e))

load-hex : (d : ℕ) → d < 16 → load hex d ≡ some (hex_digit d)
unfolding is_some
load-hex d h =
    is_some-eq (load hex d) (hex_digit d)
      (all_below-at 16 (λ (d : ℕ). is_some (load hex d) (hex_digit d)) refl d h)

-- Two runs that agree after the same first step
bind-cong :
    {A B : Type 0} (o : Option A) (f g : A → Option B)
    → ((a : A) → f a ≡ g a)
    → (o >>= f) ≡ (o >>= g)
bind-cong none f g h = refl
bind-cong (some a) f g h = h a

store_bytes-append :
    (bs cs : List ℕ) (m : Memory) (i : ℕ)
    → store_bytes m i (bs ++ cs) ≡ (store_bytes m i bs >>= λ m. store_bytes m (i + length bs) cs)
store_bytes-append [] cs m i = ap (λ (k : ℕ). store_bytes m k cs) (omega arith)
store_bytes-append (b ∷ bs) cs m i =
    bind-cong (store m i b) _ _ (λ m'.
      store_bytes-append bs cs m' (suc i)
      ∙ bind-cong (store_bytes m' (suc i) bs) _ _
          (λ m''. ap (λ (k : ℕ). store_bytes m'' k cs) (omega arith)))
    ∙ sym (>>=_assoc (store m i b) (λ m'. store_bytes m' (suc i) bs) _)

-- The result of the loop, where `xs` is what it has left to read
write_digits-hex_text :
    (xs input : List ℕ) (out_len i w : ℕ) (out : Memory)
    → drop i input ≡ xs
    → All IsByte xs
    → 2 * (i + length xs) + 1 ≤ out_len
    → out_len < 2 ^ 32
    → write_digits input out_len (length xs) i w out
      ≡ (store_bytes out w (hex_text xs) >>= λ out. some (w + 2 * length xs, out))
unfolding write_digits
write_digits-hex_text [] input out_len i w out e a fits small =
    ap (λ (k : ℕ). some (k, out)) (omega arith)
write_digits-hex_text (x ∷ xs) input out_len i w out e a fits small =
    let guard : leb ((i * 2 + (2 + 1)) % 2 ^ 32) out_len ≡ true = ground (arith, fits, small) in
    let byte : load input i ≡ some x = load-drop input i ∙ ap (λ xs. load xs 0) e in
    let rest : drop (i + 1) input ≡ xs = sym (drop-drop 1 i input) ∙ ap (drop 1) e in
    let hi = ap (load hex) (upper_bits x a.0) ∙ load-hex (x / 16) (omega (arith, a.0)) in
    let lo = ap (load hex) (lower_bits x a.0) ∙ load-hex (x % 16) (omega arith) in
    let hi_char : ℕ = hex_digit (x / 16) in
    let lo_char : ℕ = hex_digit (x % 16) in
    let finish : Memory → Option (ℕ × Memory) = λ out. some (w + 2 * length (x ∷ xs), out) in
    let one : w + 1 ≡ suc w = omega arith in
    let two : w + 2 ≡ suc (suc w) = omega arith in
    let next : (out : Memory)
        → write_digits input out_len (length xs) (i + 1) (w + 2) out
          ≡ (store_bytes out (suc (suc w)) (hex_text xs) >>= finish) =
      λ out.
        ap (λ (k : ℕ). write_digits input out_len (length xs) (i + 1) k out) two
        ∙ (write_digits-hex_text xs input out_len (i + 1) (suc (suc w)) out rest a.1
              (omega (arith, fits)) small
            ∙ bind-cong (store_bytes out (suc (suc w)) (hex_text xs)) _ _
                (λ out. ap (λ (k : ℕ). some (k, out)) (omega arith))) in
    let both : (out : Memory)
        → (store out (w + 1) lo_char >>= λ out.
            write_digits input out_len (length xs) (i + 1) (w + 2) out)
          ≡ (store_bytes out (suc w) (lo_char ∷ hex_text xs) >>= finish) =
      λ out.
        ap
          (λ (k : ℕ). store out k lo_char >>= λ out.
            write_digits input out_len (length xs) (i + 1) (w + 2) out)
          one
        ∙ (bind-cong (store out (suc w) lo_char) _ _ next
            ∙ sym (
                >>=_assoc (store out (suc w) lo_char)
                  (λ out. store_bytes out (suc (suc w)) (hex_text xs)) finish)) in
    rw (guard, byte, hi, lo)
      (bind-cong (store out w hi_char) _ _ both
        ∙ sym (
            >>=_assoc (store out w hi_char) (λ out. store_bytes out (suc w) (lo_char ∷ hex_text xs))
              finish))

-- Into a buffer that has room for two characters per byte and a terminating zero, `format_hex`
-- writes the hexadecimal digits of the bytes, in lower case, and the zero, and nothing behind it,
-- and returns the number of characters written, the zero included.
pub format_hex-hex_text :
    (bs : List ℕ) (out : Memory) (out_len : ℕ)
    → All IsByte bs
    → 2 * length bs + 1 ≤ out_len
    → out_len ≤ length out
    → out_len < 2 ^ 32
    → format_hex bs (length bs) out out_len
      ≡ some (some (2 * length bs + 1, overwrite out 0 (hex_text bs ++ (0 ∷ []))))
unfolding format_hex
format_hex-hex_text bs out out_len a fits room small =
    let guard : ltb out_len ((2 * length bs + 1) % 2 ^ 32) ≡ false = ground (arith, fits, small) in
    let digits = write_digits-hex_text bs bs out_len 0 0 out refl a (omega (arith, fits)) small in
    let whole = length-append (hex_text bs) (0 ∷ []) in
    let text = length-hex_text bs in
    let written = store_bytes-eq-overwrite out 0 (hex_text bs ++ (0 ∷ [])) (omega arith) in
    let finish : Memory → Option (Option (ℕ × Memory)) =
      λ out. some (some (2 * length bs + 1, out)) in
    let end : 0 + 2 * length bs ≡ 0 + length (hex_text bs) = omega (arith, text) in
    let last : (out : Memory)
        → (store out (0 + 2 * length bs) 0 >>= λ out. some (some (0 + 2 * length bs + 1, out)))
          ≡ (store_bytes out (0 + length (hex_text bs)) (0 ∷ []) >>= finish) =
      λ out.
        ap (λ (k : ℕ). store out k 0 >>= λ out. some (some (k + 1, out))) end
        ∙ (bind-cong (store out (0 + length (hex_text bs)) 0) _ finish
              (λ out. ap (λ (k : ℕ). some (some (k, out))) (omega (arith, text)))
            ∙ sym (>>=_assoc (store out (0 + length (hex_text bs)) 0) some finish)) in
    let all : (store_bytes out 0 (hex_text bs) >>= λ out.
    store out (0 + 2 * length bs) 0 >>= λ out. some (some (0 + 2 * length bs + 1, out)))
        ≡ some (some (2 * length bs + 1, overwrite out 0 (hex_text bs ++ (0 ∷ [])))) =
      bind-cong (store_bytes out 0 (hex_text bs)) _ _ last
      ∙ (sym (
            >>=_assoc (store_bytes out 0 (hex_text bs))
              (λ out. store_bytes out (0 + length (hex_text bs)) (0 ∷ [])) finish)
          ∙ ap (λ o. o >>= finish)
              (sym (store_bytes-append (hex_text bs) (0 ∷ []) out 0) ∙ written)) in
    rw (guard, digits)
      (>>=_assoc (store_bytes out 0 (hex_text bs)) (λ out. some (0 + 2 * length bs, out)) _ ∙ all)
