-- ===== src/Policy/Number.antt =====
-- What the parser of decimal numbers does on a numeral.
use acre_ledger_app.Base.{
  ℕ, zero, suc, ◌+◌, ◌-◌, ◌*◌, ◌%◌, ◌^◌, ◌≤◌, ◌<◌, ◌≡◌, refl, ap, ◌∙◌, arith,
}
use acre_ledger_app.Base.{
  some, List, [], ◌∷◌, ◌++◌, length, All, length-append, true, false, Bool-cases, inl, inr, ltb,
  ◌==◌, ◌&&◌,
}
use acre_ledger_app.Buffer.{Buffer, sub_size}
use acre_ledger_app.Buffer.Stream.{length-remaining, advance}
use acre_ledger_app.Policy.Text.{is_digit, decimal_loop, parse_unsigned_decimal}
use acre_ledger_app.Policy.Stream.{Holds, step-Holds, resume-eq, peek-some, peek-none, seek_cur-one}

-- The number that decimal digits stand for, behind those with the value `acc`
abbrev pub number : ℕ → List ℕ → ℕ
number acc [] = acc
number acc (d ∷ ds) = number (10 * acc + d) ds

-- The characters of decimal digits
abbrev pub numeral : List ℕ → List ℕ
numeral [] = []
numeral (d ∷ ds) = (48 + d) ∷ numeral ds

abbrev pub IsDigit : ℕ → Type 0
IsDigit d = d < 10

abbrev pub NoLeadingZero : List ℕ → Type 0
NoLeadingZero [] = Unit
NoLeadingZero (d ∷ ds) = d ≡ 0 → ds ≡ []

-- Digits that are a number of 32 bits in decimal
pub record IsNumeral (ds : List ℕ) : Type 0 where
  pub some_digit : 0 < length ds
  pub digits : All IsDigit ds
  pub no_leading_zero : NoLeadingZero ds
  pub fits : number 0 ds < 2 ^ 32

-- A text that does not begin with a digit
abbrev pub NoDigit : List ℕ → Type 0
NoDigit [] = Unit
NoDigit (c ∷ text) = is_digit c ≡ false

length-numeral : (ds : List ℕ) → length (numeral ds) ≡ length ds
length-numeral [] = refl
length-numeral (d ∷ ds) = ap suc (length-numeral ds)

number-increases : (ds : List ℕ) (acc : ℕ) → acc ≤ number acc ds
number-increases [] acc = omega arith
number-increases (d ∷ ds) acc = omega (arith, number-increases ds (10 * acc + d))

decimal_loop-end :
    (fuel result k : ℕ) (b : Buffer) (rest : List ℕ)
    → Holds b rest
    → NoDigit rest
    → decimal_loop (suc fuel) result k b ≡ some (some ((result, k), b))
unfolding decimal_loop
decimal_loop-end fuel result k b [] h e = resume-eq _ (peek-none b h) refl
decimal_loop-end fuel result k b (c ∷ rest) h e = resume-eq _ (peek-some b c rest h) (rw e refl)

not_zero :
    (d : ℕ) (ds : List ℕ) (k result : ℕ)
    → (k ≡ 1 → result ≡ 0 → (d ∷ ds) ≡ [])
    → (k + 1 == 2 && result == 0) ≡ false
not_zero d ds k result zeros = elim (Bool-cases (k + 1 == 2)) [
  | inr e ↦ rw e refl
  | inl e ↦ elim (Bool-cases (result == 0)) [
    | inr f ↦ rw (e, f) refl
    | inl f ↦ let no : (d ∷ ds) ≡ [] = zeros (ground (arith, e)) (ground (arith, f)) in absurd (cc)
  ]
]

one_digit :
    (d : ℕ) (ds : List ℕ) (fuel result k : ℕ) (b : Buffer) (rest : List ℕ)
    → Holds b ((48 + d) ∷ rest)
    → d < 10
    → 10 * result + d < 2 ^ 32
    → (k ≡ 1 → result ≡ 0 → (d ∷ ds) ≡ [])
    → decimal_loop (suc fuel) result k b ≡ decimal_loop fuel (10 * result + d) (k + 1) (advance b 1)
unfolding decimal_loop is_digit
one_digit d ds fuel result k b rest h small fits zeros =
    let digit : is_digit (48 + d) ≡ true = ground arith in
    let guard = not_zero d ds k result zeros in
    let next : (10 * result + (48 + d - 48)) % 2 ^ 32 ≡ 10 * result + d = omega arith in
    let no_overflow : ltb (10 * result + d) result ≡ false = ground arith in
    resume-eq _ (peek-some b (48 + d) rest h) (
      rw digit (
        rw (guard, next, no_overflow)
          (resume-eq (λ _. decimal_loop fuel (10 * result + d) (k + 1))
            (seek_cur-one b (48 + d) rest h) refl)))

decimal_loop-numeral :
    (ds : List ℕ) (fuel result k : ℕ) (b : Buffer) (rest : List ℕ)
    → Holds b (numeral ds ++ rest)
    → NoDigit rest
    → All IsDigit ds
    → number result ds < 2 ^ 32
    → length ds < fuel
    → (k ≡ 0 → NoLeadingZero ds)
    → (k ≡ 1 → result ≡ 0 → ds ≡ [])
    → (b' : Buffer) × (decimal_loop fuel result k b
        ≡ some (some ((number result ds, k + length ds), b')))
      × Holds b' rest
decimal_loop-numeral [] zero result k b rest h stop digits fits enough lead zeros =
    absurd (omega arith)
decimal_loop-numeral [] (suc fuel) result k b rest h stop digits fits enough lead zeros = (
  b,
  decimal_loop-end fuel result k b rest h stop
      ∙ ap (λ (n : ℕ). some (some ((result, n), b))) (omega arith),
  h,
)
decimal_loop-numeral (d ∷ ds) zero result k b rest h stop digits fits enough lead zeros =
    absurd (omega arith)
decimal_loop-numeral (d ∷ ds) (suc fuel) result k b rest h stop digits fits enough lead zeros =
    let small : 10 * result + d < 2 ^ 32 =
      omega (arith, fits, number-increases ds (10 * result + d)) in
    let (b', run, h') =
      decimal_loop-numeral ds fuel (10 * result + d) (k + 1) (advance b 1) rest
        (step-Holds b (48 + d) (numeral ds ++ rest) h) stop digits.1 fits (omega arith)
        (λ e. absurd (omega arith)) (λ e z. lead (omega arith) (omega arith)) in
    let count : k + 1 + length ds ≡ k + length (d ∷ ds) = omega arith in
    (
      b',
      one_digit d ds fuel result k b (numeral ds ++ rest) h digits.0 small zeros
          ∙ (run ∙ ap (λ (n : ℕ). some (some ((number result (d ∷ ds), n), b'))) count),
      h',
    )

-- On the decimal digits of a number of 32 bits, without leading zeros and followed by no digit,
-- `parse_unsigned_decimal` returns the number and takes the digits and nothing else.
pub parse_unsigned_decimal-numeral :
    (ds : List ℕ) (b : Buffer) (rest : List ℕ)
    → IsNumeral ds
    → Holds b (numeral ds ++ rest)
    → NoDigit rest
    → (b' : Buffer) × (parse_unsigned_decimal b ≡ some (some (number 0 ds, b'))) × Holds b' rest
unfolding parse_unsigned_decimal
parse_unsigned_decimal-numeral ds b rest n h stop =
    let left : sub_size b.size b.offset ≡ length (numeral ds ++ rest) =
      omega (arith, h.valid, length-remaining h.valid, ap length h.same) in
    let (b', run, h') =
      decimal_loop-numeral ds (suc (sub_size b.size b.offset)) 0 0 b rest h stop n.digits n.fits
        (omega (arith, left, length-append (numeral ds) rest, length-numeral ds))
        (λ e. n.no_leading_zero) (λ e. absurd (omega arith)) in
    let read : (0 + length ds == 0) ≡ false = ground (arith, n.some_digit) in
    (b', resume-eq _ run (rw read refl), h')
