-- ===== src/Base/Bits.antt =====
-- Bitwise operations on words as arithmetic, at every width.
use Prim.Native.Nat.{ℕ, zero, suc, ◌+◌, ◌*◌, ◌/◌, ◌%◌, ◌^◌, ◌≤◌, ◌<◌, min, max}
use Prim.Native.Nat.{bit_and, bit_or, digits, bit_and-bitwise, bit_or-bitwise}
use mathlib.Core.Path.{◌≡◌, refl, ap, sym, ◌∙◌}
use native.Mathlib.Nat.{pow-suc}
use native.Mathlib.Omega.{arith}

-- `x << k` where nothing is shifted out, and `x >> k`
abbrev pub shl : ℕ → ℕ → ℕ
shl x k = x * 2 ^ k

abbrev pub shr : ℕ → ℕ → ℕ
shr x k = x / 2 ^ k

-- A bitwise operation, from that on bits: on halves, and with its arguments swapped
module _ (past : ℕ → ℕ) (op : ℕ → ℕ → ℕ) (bitwise : ℕ → ℕ → ℕ)
    (by_digits : (a b : ℕ) → bitwise a b ≡ digits past op a a b)
    (on_zero : (b : ℕ) → past b ≡ past (b / 2) * 2 + op 0 (b % 2)) where
  digits-zero : (b n : ℕ) → digits past op n 0 b ≡ past b
  digits-zero b zero = refl
  digits-zero b (suc n) = refl

  -- The count of digits does not matter once it is enough.
  digits_enough : (n m a b : ℕ) → a ≤ n → a ≤ m → digits past op n a b ≡ digits past op m a b
  digits_enough n m zero b p q = digits-zero b n ∙ sym (digits-zero b m)
  digits_enough zero m (suc a) b p q = absurd (omega arith)
  digits_enough (suc n) zero (suc a) b p q = absurd (omega arith)
  digits_enough (suc n) (suc m) (suc a) b p q =
      ap (λ (t : ℕ). t * 2 + op (suc a % 2) (b % 2))
        (digits_enough n m (suc a / 2) (b / 2) (omega arith) (omega arith))

  halves : (a b : ℕ) → bitwise a b ≡ bitwise (a / 2) (b / 2) * 2 + op (a % 2) (b % 2)
  halves zero b = rw (by_digits 0 b, by_digits 0 (b / 2)) (on_zero b)
  halves (suc a) b =
      rw (by_digits (suc a) b, by_digits (suc a / 2) (b / 2))
        (ap (λ (t : ℕ). t * 2 + op (suc a % 2) (b % 2))
          (digits_enough a (suc a / 2) (suc a / 2) (b / 2) (omega arith) (omega arith)))

  swapped_below :
      ((x y : ℕ) → op x y ≡ op y x) → (n a b : ℕ) → a ≤ n → b ≤ n → bitwise a b ≡ bitwise b a
  swapped_below comm zero a b p q =
      let (za, zb) : (a ≡ 0) × (b ≡ 0) = (omega arith, omega arith) in rw (za, zb) refl
  swapped_below comm (suc n) a b p q = omega (
    arith,
    halves a b,
    halves b a,
    comm (a % 2) (b % 2),
    swapped_below comm n (a / 2) (b / 2) (omega arith) (omega arith),
  )

bit_or_halves : (a b : ℕ) → bit_or a b ≡ bit_or (a / 2) (b / 2) * 2 + max (a % 2) (b % 2)
bit_or_halves = halves (λ y. y) max bit_or bit_or-bitwise (λ b. omega arith)

bit_and_halves : (a b : ℕ) → bit_and a b ≡ bit_and (a / 2) (b / 2) * 2 + min (a % 2) (b % 2)
bit_and_halves = halves (λ b. zero) min bit_and bit_and-bitwise (λ b. omega arith)

pub bit_or_comm : (a b : ℕ) → bit_or a b ≡ bit_or b a
bit_or_comm a b =
    swapped_below (λ y. y) max bit_or bit_or-bitwise (λ b. omega arith) (λ x y. omega arith) (a + b)
      a b (omega arith) (omega arith)

pub bit_or-zero : (a : ℕ) → bit_or a 0 ≡ a
bit_or-zero a = bit_or_comm a 0 ∙ bit_or-bitwise 0 a

pub bit_and-zero : (a : ℕ) → bit_and a 0 ≡ 0
bit_and-zero a =
    swapped_below (λ b. zero) min bit_and bit_and-bitwise (λ b. omega arith) (λ x y. omega arith) a
      a 0 (omega arith) (omega arith)
    ∙ bit_and-bitwise 0 a

-- `|` of a shifted field and one that fits below it is a sum.
pub bit_or-shl : (k q r : ℕ) → r < 2 ^ k → bit_or (shl q k) r ≡ shl q k + r
bit_or-shl zero q r h = ground (arith, bit_or-zero q)
bit_or-shl (suc k) q r h = ground (
  arith,
  bit_or_halves (shl q (suc k)) r,
  ap (λ (t : ℕ). q * t) (pow-suc 2 k),
  pow-suc 2 k,
  bit_or-shl k q (r / 2),
)

-- A test of bit `k`, on a number that has no higher bit
pub bit_and-pow_low : (k a : ℕ) → a < 2 ^ k → bit_and a (2 ^ k) ≡ 0
bit_and-pow_low zero a h = let e : a ≡ 0 = omega arith in rw e refl
bit_and-pow_low (suc k) a h =
    ground (arith, bit_and_halves a (2 ^ suc k), pow-suc 2 k, bit_and-pow_low k (a / 2))

pub bit_and-pow_high : (k a : ℕ) → 2 ^ k ≤ a → a < 2 ^ suc k → bit_and a (2 ^ k) ≡ 2 ^ k
bit_and-pow_high zero a h g = let e : a ≡ 1 = omega arith in rw e refl
bit_and-pow_high (suc k) a h g = ground (
  arith,
  bit_and_halves a (2 ^ suc k),
  pow-suc 2 k,
  pow-suc 2 (suc k),
  bit_and-pow_high k (a / 2),
)
