-- ===== src/Policy/Derivation.antt =====
-- Derivation steps and key placeholders are read back from their text.
use acre_ledger_app.Base.{ℕ, ◌+◌, ◌^◌, ◌≤◌, ◌<◌, ◌≡◌, refl, ap, ◌∙◌, arith, bit_or}
use acre_ledger_app.Base.{
  some, List, [], ◌∷◌, ◌++◌, append_assoc, Bool, true, false, not, leb, ltb, ◌==◌,
}
use acre_ledger_app.Base.Bits.{bit_or-shl, bit_or_comm}
use mathlib.Core.Path.{subst}
use acre_ledger_app.Buffer.{Buffer}
use acre_ledger_app.Buffer.Stream.{advance}
use acre_ledger_app.Policy.Reader.{require}
use acre_ledger_app.Policy.Text.{is_digit, buffer_read_derivation_step, first_hardened_child}
use acre_ledger_app.Policy.Placeholder.{
  KeyPlaceholder, parse_placeholder, read_suffix, read_derivation, read_wildcard,
  read_derivation_pair,
}
use acre_ledger_app.Policy.Stream.{Holds, step-Holds, resume-eq, peek-some, seek_cur-one}
use acre_ledger_app.Policy.Number.{
  number, numeral, IsNumeral, NoDigit, parse_unsigned_decimal-numeral,
}
use acre_ledger_app.Policy.Characters.{
  consume_character-next, consume_character-other, Without, consume_characters-text, advance-Holds,
  read_u8-next,
}

pub require-true : (t : Bool) (b : Buffer) → t ≡ true → require t b ≡ some (some (tt, b))
require-true true b e = refl
require-true false b e = cc

no_digit : (c : ℕ) → c < 48 → is_digit c ≡ false
unfolding is_digit
no_digit c h = ground arith

no_digit_above : (c : ℕ) → 57 < c → is_digit c ≡ false
unfolding is_digit
no_digit_above c h = ground arith

-- A derivation step as text: the number, with an apostrophe if it is hardened
abbrev pub step_text : List ℕ → Bool → List ℕ
step_text ds true = numeral ds ++ (39 ∷ [])
step_text ds false = numeral ds

abbrev pub step_value : List ℕ → Bool → ℕ
step_value ds true = number 0 ds + 2 ^ 31
step_value ds false = number 0 ds

harden : (n : ℕ) → n < 2 ^ 31 → bit_or n first_hardened_child ≡ n + 2 ^ 31
harden n h = bit_or_comm n (2 ^ 31) ∙ bit_or-shl 31 1 n h ∙ omega arith

-- `buffer_read_derivation_step` returns a step below 2^31 from its text, with the highest bit set
-- where an apostrophe follows, and takes the text and nothing else. What follows an unhardened step
-- begins neither with a digit nor with an apostrophe.
pub buffer_read_derivation_step-text :
    (ds : List ℕ) (hardened : Bool) (b : Buffer) (rest : List ℕ)
    → IsNumeral ds
    → number 0 ds < 2 ^ 31
    → (hardened ≡ false → NoDigit rest × Without 39 rest)
    → Holds b (step_text ds hardened ++ rest)
    → (b' : Buffer) × (buffer_read_derivation_step b ≡ some (some (step_value ds hardened, b')))
      × Holds b' rest
unfolding buffer_read_derivation_step
buffer_read_derivation_step-text ds true b rest n small stop h =
    let h' : Holds b (numeral ds ++ (39 ∷ rest)) =
      subst (Holds b) (append_assoc (numeral ds) (39 ∷ []) rest) h in
    let (b1, run, h1) =
      parse_unsigned_decimal-numeral ds b (39 ∷ rest) n h' (no_digit 39 (omega arith)) in
    let ok : ltb (number 0 ds) first_hardened_child ≡ true = ground arith in
    (
      advance b1 1,
      resume-eq _ run (
          resume-eq _ (require-true (ltb (number 0 ds) first_hardened_child) b1 ok) (
            resume-eq _ (consume_character-next b1 39 rest h1)
              (ap (λ (v : ℕ). some (some (v, advance b1 1))) (harden (number 0 ds) small)))),
      step-Holds b1 39 rest h1,
    )
buffer_read_derivation_step-text ds false b rest n small stop h =
    let (unnumbered, no_apostrophe) = stop refl in
    let (b1, run, h1) = parse_unsigned_decimal-numeral ds b rest n h unnumbered in
    let ok : ltb (number 0 ds) first_hardened_child ≡ true = ground arith in
    (
      b1,
      resume-eq _ run (
          resume-eq _ (require-true (ltb (number 0 ds) first_hardened_child) b1 ok)
            (resume-eq _ (consume_character-other b1 39 rest h1 no_apostrophe) refl)),
      h1,
    )

-- What follows the key index: the wildcard, or two different steps
pub data KeyPath : Type 0 where
  wildcard : KeyPath
  pair : List ℕ → List ℕ → KeyPath

abbrev pub path_text : KeyPath → List ℕ → List ℕ
path_text wildcard rest = 47 ∷ 42 ∷ 42 ∷ rest
path_text (pair ms ns) rest = 47 ∷ 60 ∷ (numeral ms ++ (59 ∷ (numeral ns ++ (62 ∷ 47 ∷ 42 ∷ rest))))

abbrev pub placeholder : ℕ → KeyPath → KeyPlaceholder
placeholder k wildcard = record { key_index = k; num_first = 0; num_second = 1 }
placeholder k (pair ms ns) = record {
  key_index = k;
  num_first = number 0 ms;
  num_second = number 0 ns;
}

abbrev pub IsKeyPath : KeyPath → Type 0
IsKeyPath wildcard = Unit
IsKeyPath (pair ms ns) =
    IsNumeral ms
    × IsNumeral ns
    × (number 0 ms ≤ 2 ^ 31)
    × (number 0 ns ≤ 2 ^ 31)
    × ((number 0 ms == number 0 ns) ≡ false)

read_derivation_pair-text :
    (k : ℕ) (ms ns : List ℕ) (b : Buffer) (rest : List ℕ)
    → IsKeyPath (pair ms ns)
    → Holds b (numeral ms ++ (59 ∷ (numeral ns ++ (62 ∷ 47 ∷ 42 ∷ rest))))
    → (b' : Buffer) × (read_derivation_pair k b ≡ some (some (placeholder k (pair ms ns), b')))
      × Holds b' rest
unfolding read_derivation_pair
read_derivation_pair-text k ms ns b rest (m, n, small_m, small_n, differ) h =
    let (b1, run1, h1) =
      parse_unsigned_decimal-numeral ms b _ m h (no_digit_above 59 (omega arith)) in
    let h2 = step-Holds b1 59 _ h1 in
    let (b3, run3, h3) =
      parse_unsigned_decimal-numeral ns (advance b1 1) _ n h2 (no_digit_above 62 (omega arith)) in
    let ok_m : leb (number 0 ms) 0x8000_0000 ≡ true = ground arith in
    let ok_n : leb (number 0 ns) 0x8000_0000 ≡ true = ground arith in
    let ok : not (number 0 ms == number 0 ns) ≡ true = rw differ refl in
    (
      advance b3 3,
      resume-eq _ run1 (
          resume-eq _ (require-true _ b1 ok_m) (
            resume-eq _ (consume_character-next b1 59 _ h1) (
              resume-eq _ run3 (
                resume-eq _ (require-true _ b3 ok_n) (
                  resume-eq _ (require-true _ b3 ok) (
                    resume-eq _ (consume_characters-text (62 ∷ 47 ∷ 42 ∷ []) b3 rest h3) refl)))))),
      advance-Holds b3 (62 ∷ 47 ∷ 42 ∷ []) rest h3,
    )

read_wildcard-text :
    (k : ℕ) (b : Buffer) (rest : List ℕ)
    → Holds b (42 ∷ 42 ∷ rest)
    → read_wildcard k b ≡ some (some (placeholder k wildcard, advance b 2))
unfolding read_wildcard
read_wildcard-text k b rest h = resume-eq _ (consume_characters-text (42 ∷ 42 ∷ []) b rest h) refl

read_suffix-text :
    (k : ℕ) (p : KeyPath) (b : Buffer) (rest : List ℕ)
    → IsKeyPath p
    → Holds b (path_text p rest)
    → (b' : Buffer) × (read_suffix 2 k b ≡ some (some (placeholder k p, b'))) × Holds b' rest
unfolding read_suffix read_derivation
read_suffix-text k wildcard b rest ok h =
    let h1 = step-Holds b 47 _ h in
    (
      advance (advance b 1) 2,
      resume-eq _ (consume_character-next b 47 _ h) (
          resume-eq _ (peek-some (advance b 1) 42 _ h1)
            (read_wildcard-text k (advance b 1) rest h1)),
      advance-Holds (advance b 1) (42 ∷ 42 ∷ []) rest h1,
    )
read_suffix-text k (pair ms ns) b rest ok h =
    let h1 = step-Holds b 47 _ h in
    let h2 = step-Holds (advance b 1) 60 _ h1 in
    let (b', run, h') = read_derivation_pair-text k ms ns (advance (advance b 1) 1) rest ok h2 in
    (
      b',
      resume-eq _ (consume_character-next b 47 _ h) (
          resume-eq _ (peek-some (advance b 1) 60 _ h1)
            (resume-eq (λ _. read_derivation_pair k) (seek_cur-one (advance b 1) 60 _ h1) run)),
      h',
    )

path_text-NoDigit : (p : KeyPath) (rest : List ℕ) → NoDigit (path_text p rest)
path_text-NoDigit wildcard rest = no_digit 47 (omega arith)
path_text-NoDigit (pair ms ns) rest = no_digit 47 (omega arith)

-- In version 2, `parse_placeholder` returns a key placeholder from its text: '@', an index up to
-- 32767, and either "/**", which stands for the numbers 0 and 1, or "/<M;N>/*" with different
-- numbers up to 2^31. It takes the text and nothing else.
pub parse_placeholder-text :
    (ks : List ℕ) (p : KeyPath) (b : Buffer) (rest : List ℕ)
    → IsNumeral ks
    → number 0 ks ≤ 32767
    → IsKeyPath p
    → Holds b (64 ∷ (numeral ks ++ path_text p rest))
    → (b' : Buffer) × (parse_placeholder 2 b ≡ some (some (placeholder (number 0 ks) p, b')))
      × Holds b' rest
unfolding parse_placeholder
parse_placeholder-text ks p b rest k small ok h =
    let h1 = step-Holds b 64 _ h in
    let (b2, run2, h2) =
      parse_unsigned_decimal-numeral ks (advance b 1) (path_text p rest) k h1
        (path_text-NoDigit p rest) in
    let (b3, run3, h3) = read_suffix-text (number 0 ks) p b2 rest ok h2 in
    let fits : leb (number 0 ks) 32767 ≡ true = ground arith in
    (
      b3,
      resume-eq _ (read_u8-next b 64 _ h)
          (resume-eq _ run2 (resume-eq _ (require-true _ b2 fits) run3)),
      h3,
    )
