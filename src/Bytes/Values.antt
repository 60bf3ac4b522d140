-- ===== src/Bytes/Values.antt =====
-- The number that a run of bytes stands for, and the bytes of a number: the specification of the
-- reads and writes, at every width.
use acre_ledger_app.Base.{ℕ, zero, suc, ◌+◌, ◌*◌, ◌/◌, ◌%◌, ◌^◌, ◌<◌, ◌≡◌, refl, ap, ◌∙◌, arith}
use acre_ledger_app.Base.{List, [], ◌∷◌, reverse, length, length-append, All, All-append}
use acre_ledger_app.Bytes.{IsByte}
use mathlib.Core.List.{reverse-reverse, reverse-append}
use native.Mathlib.Nat.{pow-suc}

-- The least significant byte comes first.
unfoldable pub le_value : List ℕ → ℕ
le_value [] = 0
le_value (b ∷ bs) = b + 256 * le_value bs

unfoldable pub be_value : List ℕ → ℕ
be_value bs = le_value (reverse bs)

unfoldable pub le_bytes : ℕ → ℕ → List ℕ
le_bytes zero v = []
le_bytes (suc n) v = (v % 256) ∷ le_bytes n (v / 256)

unfoldable pub be_bytes : ℕ → ℕ → List ℕ
be_bytes n v = reverse (le_bytes n v)

pub length-le_bytes : (n v : ℕ) → length (le_bytes n v) ≡ n
unfolding le_bytes
length-le_bytes zero v = refl
length-le_bytes (suc n) v = ap suc (length-le_bytes n (v / 256))

pub length-reverse : (xs : List ℕ) → length (reverse xs) ≡ length xs
length-reverse [] = refl
length-reverse (x ∷ xs) =
    ap length (reverse-append (x ∷ []) xs)
    ∙ length-append (reverse xs) (x ∷ [])
    ∙ omega (arith, length-reverse xs)

pub length-be_bytes : (n v : ℕ) → length (be_bytes n v) ≡ n
unfolding be_bytes
length-be_bytes n v = length-reverse (le_bytes n v) ∙ length-le_bytes n v

pub le_bytes-IsByte : (n v : ℕ) → All IsByte (le_bytes n v)
unfolding le_bytes
le_bytes-IsByte zero v = tt
le_bytes-IsByte (suc n) v = (omega arith, le_bytes-IsByte n (v / 256))

pub reverse-IsByte : (xs : List ℕ) → All IsByte xs → All IsByte (reverse xs)
reverse-IsByte [] h = h
reverse-IsByte (x ∷ xs) h =
    rw (reverse-append (x ∷ []) xs)
      (All-append IsByte (reverse xs) (x ∷ []) (reverse-IsByte xs h.1) (h.0, tt))

pub be_bytes-IsByte : (n v : ℕ) → All IsByte (be_bytes n v)
unfolding be_bytes
be_bytes-IsByte n v = reverse-IsByte _ (le_bytes-IsByte n v)

-- A number that fits `n` bytes is the value of its `n` bytes.
pub le_value-le_bytes : (n v : ℕ) → v < 256 ^ n → le_value (le_bytes n v) ≡ v
unfolding le_value le_bytes
le_value-le_bytes zero v h = omega arith
le_value-le_bytes (suc n) v h =
    let small : v < 256 * 256 ^ n = omega (arith, pow-suc 256 n) in
    omega (arith, le_value-le_bytes n (v / 256) (omega arith))

pub be_value-be_bytes : (n v : ℕ) → v < 256 ^ n → be_value (be_bytes n v) ≡ v
unfolding be_value be_bytes
be_value-be_bytes n v h = rw reverse-reverse (le_value-le_bytes n v h)
