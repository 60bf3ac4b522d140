-- ===== src/Miniscript/Maximum.antt =====
-- src/common/wallet.c: `sumcheck`, `maxcheck` and the table of thresh compute maxima.
use acre_ledger_app.Base.{
  ℕ, zero, suc, ◌+◌, ◌≤◌, ◌≡◌, ◌⊎◌, refl, arith, inl, inr, min, none, some, List, [], ◌∷◌, true,
  false, Bool-cases, ltb, if◌then◌else◌,
}
use acre_ledger_app.Miniscript.Amount.{Amount, int16_max, sumcheck, maxcheck, next_tail, next_sats}
use acre_ledger_app.Miniscript.Ways.{Sizes, Never, Exactly, Both, Either, Ways, one_more}

-- No size at all, or the largest, cut off at the largest `int16_t`
abbrev pub Largest : Amount → Sizes → Type 0
Largest none P = (n : ℕ) → P n → ⊥
Largest (some m) P = ((n : ℕ) → P n → min n int16_max ≤ m) × ((n : ℕ) × P n × (min n int16_max ≡ m))

-- The amount is the largest of the sizes, or `int16_max` where a size is larger than that, and -1
-- where there is none.
pub record IsMaximum (a : Amount) (P : Sizes) : Type 0 where
  pub largest : Largest a P

pub IsMaximum-exactly : (c : ℕ) → c ≤ int16_max → IsMaximum (some c) (Exactly c)
IsMaximum-exactly c h = record { largest = (λ n e. omega arith, (c, refl, omega arith)) }

pub IsMaximum-never : IsMaximum none Never
IsMaximum-never = record { largest = λ n h. h }

-- Sizes that are the same
pub IsMaximum-same :
    {P Q : Sizes} (a : Amount)
    → IsMaximum a P
    → ((n : ℕ) → P n → Q n)
    → ((n : ℕ) → Q n → P n)
    → IsMaximum a Q
IsMaximum-same none h to from = record { largest = λ n q. h.largest n (from n q) }
IsMaximum-same (some a) h to from =
    let (n, p, e) = h.largest.1 in
    record { largest = (λ n q. h.largest.0 n (from n q), (n, to n p, e)) }

capped : ℕ → ℕ
capped n = if ltb int16_max n then int16_max else n

capped-min : (n : ℕ) → capped n ≡ min n int16_max
unfolding capped
capped-min n = ground arith

pub IsMaximum-sumcheck :
    {P Q : Sizes} (a b : Amount)
    → IsMaximum a P
    → IsMaximum b Q
    → IsMaximum (sumcheck a b) (Both P Q)
unfolding sumcheck capped
IsMaximum-sumcheck none none h k = record { largest = λ n w. h.largest w.0 w.2 }
IsMaximum-sumcheck none (some b) h k = record { largest = λ n w. h.largest w.0 w.2 }
IsMaximum-sumcheck (some a) none h k = record { largest = λ n w. k.largest w.1 w.3 }
IsMaximum-sumcheck (some a) (some b) h k =
    let (x, p, e) = h.largest.1 in
    let (y, q, f) = k.largest.1 in
    record {
      largest = (
        λ n (x, y, p, q, e). omega (arith, capped-min (a + b), h.largest.0 x p, k.largest.0 y q, e),
        (x + y, (x, y, p, q, refl), omega (arith, capped-min (a + b), e, f)),
      );
    }

either : {P Q R : Type 0} → (P → R) → (Q → R) → P ⊎ Q → R
either f g (inl p) = f p
either f g (inr q) = g q

pub IsMaximum-maxcheck :
    {P Q : Sizes} (a b : Amount)
    → IsMaximum a P
    → IsMaximum b Q
    → IsMaximum (maxcheck a b) (Either P Q)
unfolding maxcheck
IsMaximum-maxcheck none none h k = record { largest = λ n. either (h.largest n) (k.largest n) }
IsMaximum-maxcheck none (some b) h k =
    let (y, q, f) = k.largest.1 in
    record { largest = (λ n. either (λ p. absurd (h.largest n p)) (k.largest.0 n), (y, inr q, f)) }
IsMaximum-maxcheck (some a) none h k =
    let (x, p, e) = h.largest.1 in
    record { largest = (λ n. either (h.largest.0 n) (λ q. absurd (k.largest n q)), (x, inl p, e)) }
IsMaximum-maxcheck (some a) (some b) h k =
    let (x, p, e) = h.largest.1 in
    let (y, q, f) = k.largest.1 in
    elim (Bool-cases (ltb b a)) [
      | inl more ↦ rw more (record {
        largest = (
          λ n. either (h.largest.0 n) (λ q. ground (arith, k.largest.0 n q, more)),
          (x, inl p, e),
        );
      })
      | inr less ↦ rw less (record {
        largest = (
          λ n. either (λ p. ground (arith, h.largest.0 n p, less)) (k.largest.0 n),
          (y, inr q, f),
        );
      })
    ]

-- The table has the largest sizes for each number of satisfied scripts, and there are no sizes for a
-- number beyond the table.
abbrev pub IsTable : List Amount → (ℕ → Sizes) → Type 0
IsTable [] P = (k n : ℕ) → P k n → ⊥
IsTable (c ∷ cs) P = IsMaximum c (P 0) × IsTable cs (λ k. P (suc k))

IsTable-same :
    (cs : List Amount) (P Q : ℕ → Sizes)
    → ((k n : ℕ) → P k n → Q k n)
    → ((k n : ℕ) → Q k n → P k n)
    → IsTable cs P
    → IsTable cs Q
IsTable-same [] P Q to from h = λ k n q. h k n (from k n q)
IsTable-same (c ∷ cs) P Q to from (h, hs) = (
  IsMaximum-same c h (to 0) (from 0),
  IsTable-same cs _ _ (λ k. to (suc k)) (λ k. from (suc k)) hs,
)

-- A script more, where `Q` are the sizes before those of the table
abbrev shifted : Sizes → (ℕ → Sizes) → ℕ → Sizes
shifted Q R zero = Q
shifted Q R (suc k) = R k

abbrev next : Ways → Sizes → (ℕ → Sizes) → ℕ → Sizes
next X Q R k = Either (Both (R k) (X false)) (Both (shifted Q R k) (X true))

module _ (X : Ways) (sat dsat : Amount) (hs : IsMaximum sat (X true))
    (hd : IsMaximum dsat (X false)) where
  unshift :
      (R : ℕ → Sizes) (k n : ℕ)
      → next X (R 0) (λ k. R (suc k)) k n
      → Either (Both (R (suc k)) (X false)) (Both (R k) (X true)) n
  unshift R zero n w = w
  unshift R (suc k) n w = w

  shift :
      (R : ℕ → Sizes) (k n : ℕ)
      → Either (Both (R (suc k)) (X false)) (Both (R k) (X true)) n
      → next X (R 0) (λ k. R (suc k)) k n
  shift R zero n w = w
  shift R (suc k) n w = w

  IsTable-next_tail :
      (Q : Sizes) (R : ℕ → Sizes) (prev : Amount) (sats : List Amount)
      → IsMaximum prev Q
      → IsTable sats R
      → IsTable (next_tail sat dsat prev sats) (next X Q R)
  unfolding next_tail
  IsTable-next_tail Q R prev [] h none_left = (
    IsMaximum-same (sumcheck prev sat) (IsMaximum-sumcheck prev sat h hs) (λ n w. inr w)
        (λ n. either (λ w. absurd (none_left 0 w.0 w.2)) (λ w. w)),
    λ k n. either (λ w. none_left (suc k) w.0 w.2) (λ w. none_left k w.0 w.2),
  )
  IsTable-next_tail Q R prev (c ∷ sats) h (here, rest) = (
    IsMaximum-maxcheck (sumcheck c dsat) (sumcheck prev sat) (IsMaximum-sumcheck c dsat here hd)
        (IsMaximum-sumcheck prev sat h hs),
    IsTable-same (next_tail sat dsat c sats) (next X (R 0) (λ k. R (suc k)))
        (λ k. next X Q R (suc k)) (unshift R) (shift R)
        (IsTable-next_tail (R 0) (λ k. R (suc k)) c sats here rest),
  )

  -- A round of the loop enters a script in the table.
  pub IsTable-next_sats :
      (P : ℕ → Sizes) (c : Amount) (sats : List Amount)
      → IsTable (c ∷ sats) P
      → IsTable (next_sats sat dsat (c ∷ sats)) (one_more X P)
  unfolding next_sats
  IsTable-next_sats P c sats (here, rest) = (
    IsMaximum-sumcheck c dsat here hd,
    IsTable-same (next_tail sat dsat c sats) (next X (P 0) (λ k. P (suc k)))
        (λ k. one_more X P (suc k)) (unshift P) (shift P)
        (IsTable-next_tail (P 0) (λ k. P (suc k)) c sats here rest),
  )
