-- ===== src/Base/Bounded.antt =====
-- What holds of all numbers below a bound because a test says so.
use Prim.Native.Nat.{ℕ, zero, suc, ◌<◌}
use mathlib.Core.Path.{◌≡◌, ap, ◌∙◌}
use mathlib.Core.Logic.{inl, inr}
use mathlib.Core.Bool.{Bool, true, ◌&&◌}
use native.Mathlib.Omega.{arith}
use acre_ledger_app.Base.Tests.{◌==◌, Bool-cases}

-- A test of all numbers below a bound
abbrev pub all_below : ℕ → (ℕ → Bool) → Bool
all_below zero p = true
all_below (suc n) p = p n && all_below n p

pub all_below-at : (n : ℕ) (p : ℕ → Bool) → all_below n p ≡ true → (x : ℕ) → x < n → p x ≡ true
all_below-at zero p e x h = absurd (omega arith)
all_below-at (suc n) p e x h = elim (Bool-cases (p n)) [
  | inr not_now ↦ absurd (ground (arith, e, not_now))
  | inl now ↦ elim (Bool-cases (x == n)) [
    | inl here ↦ let same : x ≡ n = ground (arith, here) in ap p same ∙ now
    | inr other ↦ all_below-at n p (ground (arith, e, now)) x (ground (arith, h, other))
  ]
]
