-- ===== src/Bytes/Check.antt =====
-- A test of whether every element of a list is a byte.
use acre_ledger_app.Base.{
  ℕ, ◌≡◌, arith, List, [], ◌∷◌, All, Bool, true, false, ltb, if◌then◌else◌, Bool-cases, inl, inr,
}
use acre_ledger_app.Bytes.{IsByte}

abbrev pub are_bytes : List ℕ → Bool
are_bytes [] = true
are_bytes (b ∷ bs) = if ltb b 256 then are_bytes bs else false

pub are_bytes-IsByte : (bs : List ℕ) → are_bytes bs ≡ true → All IsByte bs
are_bytes-IsByte [] e = tt
are_bytes-IsByte (b ∷ bs) e = elim (Bool-cases (ltb b 256)) [
  | inl h ↦ (ground (arith, h), are_bytes-IsByte bs (ground (arith, h, e)))
  | inr h ↦ absurd (ground (arith, h, e))
]
