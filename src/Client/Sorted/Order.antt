-- ===== src/Client/Sorted/Order.antt =====
-- `compare_byte_arrays` is the lexicographical order.
use acre_ledger_app.Base.{ℕ, ◌<◌, ◌≡◌, ◌↔◌, refl, ◌∙◌, sym, List, [], ◌∷◌, length, arith}
use acre_ledger_app.Base.{dec_lt}
use mathlib.Core.Path.{subst}
use acre_ledger_app.Client.Sorted.{less, equal, greater, memcmp, compare_byte_arrays}

-- The first array comes before the second: it is a proper prefix, or smaller where they first differ.
pub data Before : List ℕ → List ℕ → Type 0 where
  prefix : {y : ℕ} {ys : List ℕ} → Before [] (y ∷ ys)
  smaller : {x y : ℕ} {xs ys : List ℕ} → x < y → Before (x ∷ xs) (y ∷ ys)
  same : {x : ℕ} {xs ys : List ℕ} → Before xs ys → Before (x ∷ xs) (x ∷ ys)

memcmp-zero : (n : ℕ) (xs ys : List ℕ) → n ≡ 0 → memcmp n xs ys ≡ equal
unfolding memcmp
memcmp-zero n xs ys e = rw (e, memcmp) refl

compare-same :
    (x : ℕ) (xs ys : List ℕ) → compare_byte_arrays (x ∷ xs) (x ∷ ys) ≡ compare_byte_arrays xs ys
unfolding compare_byte_arrays memcmp
compare-same x xs ys = ground (arith, memcmp-zero (length xs) xs ys, memcmp-zero (length ys) xs ys)

compare-smaller : (x y : ℕ) (xs ys : List ℕ) → x < y → compare_byte_arrays (x ∷ xs) (y ∷ ys) ≡ less
unfolding compare_byte_arrays memcmp
compare-smaller x y xs ys h = ground arith

compare-larger :
    (x y : ℕ) (xs ys : List ℕ) → y < x → compare_byte_arrays (x ∷ xs) (y ∷ ys) ≡ greater
unfolding compare_byte_arrays memcmp
compare-larger x y xs ys h = ground arith

same_heads :
    (x y : ℕ) (xs ys : List ℕ)
    → x ≡ y
    → (compare_byte_arrays xs ys ≡ less → Before xs ys)
    → compare_byte_arrays (x ∷ xs) (y ∷ ys) ≡ less
    → Before (x ∷ xs) (y ∷ ys)
same_heads x y xs ys p behind e =
    subst (λ (z : ℕ). Before (x ∷ xs) (z ∷ ys)) p
      (same (
        behind (
          sym (compare-same x xs ys)
          ∙ subst (λ (z : ℕ). compare_byte_arrays (x ∷ xs) (z ∷ ys) ≡ less) (sym p) e)))

less→Before : (xs ys : List ℕ) → compare_byte_arrays xs ys ≡ less → Before xs ys
less→Before [] [] e = unfold compare_byte_arrays in (ground (arith, e))
less→Before [] (y ∷ ys) e = prefix
less→Before (x ∷ xs) [] e = unfold compare_byte_arrays in (ground (arith, e))
less→Before (x ∷ xs) (y ∷ ys) e = elim (dec_lt x y) [
  | yes h ↦ smaller h
  | no h ↦ elim (dec_lt y x) [
    | yes k ↦ absurd (ground (arith, compare-larger x y xs ys k))
    | no k ↦ same_heads x y xs ys (omega arith) (less→Before xs ys) e
  ]
]

Before→less : {xs ys : List ℕ} → Before xs ys → compare_byte_arrays xs ys ≡ less
unfolding compare_byte_arrays
Before→less prefix = ground arith
Before→less (smaller {x} {y} {xs} {ys} h) = compare-smaller x y xs ys h
Before→less (same {x} {xs} {ys} b) = compare-same x xs ys ∙ Before→less b

-- `compare_byte_arrays` is negative exactly when the first array is before the second in the
-- lexicographical order.
pub compare_byte_arrays_iff : (xs ys : List ℕ) → (compare_byte_arrays xs ys ≡ less) ↔ Before xs ys
compare_byte_arrays_iff xs ys = (less→Before xs ys, Before→less)
