-- ===== src/Bitvector/Flags.antt =====
-- src/common/bitvector.h: what is read after a flag is set.
use acre_ledger_app.Base.{ℕ, zero, suc, ◌-◌, ◌/◌, ◌%◌, ◌^◌, ◌<◌, ◌≡◌, refl, ap, ◌∙◌, sym, arith}
use acre_ledger_app.Base.{
  some, [], ◌∷◌, length, All, Memory, load, store, bit_and, bit_or, Bool, true, false, Bool-cases,
  inl, inr, not, ◌==◌, if◌then◌else◌,
}
use mathlib.Core.Path.{subst}
use acre_ledger_app.Base.Blocks.{load-in_bounds}
use acre_ledger_app.Base.Bounded.{all_below, all_below-at}
use acre_ledger_app.Bytes.{IsByte}
use acre_ledger_app.Bitvector.{bitvector_get, bitvector_set}

bit_at : ℕ → ℕ → Bool
bit_at x s = not (bit_and (x / 2 ^ (7 - s)) 1 == 0)

changed : ℕ → ℕ → Bool → ℕ
changed x s value = if value then bit_or x (2 ^ (7 - s)) else bit_and x (255 - 2 ^ (7 - s))

same_flag : Bool → Bool → Bool
same_flag true b = b
same_flag false b = not b

same_flag-eq : (a b : Bool) → same_flag a b ≡ true → a ≡ b
unfolding same_flag
same_flag-eq true b e = sym e
same_flag-eq false true e = cc
same_flag-eq false false e = refl

bits_right : Bool → ℕ → Bool
bits_right value x = all_below 8 (λ s.
    all_below 8
      (λ t. same_flag (bit_at (changed x s value) t) (if s == t then value else bit_at x t)))

every_byte : (value : Bool) → all_below 256 (bits_right value) ≡ true
unfolding bits_right same_flag bit_at changed
every_byte true = refl
every_byte false = refl

some_if : (b x y : Bool) → some (if b then x else y) ≡ (if b then some x else some y)
some_if true x y = refl
some_if false x y = refl

module _ (value : Bool) (x s t : ℕ) (byte : IsByte x) (hs : s < 8) (ht : t < 8) where
  bit_at-changed : bit_at (changed x s value) t ≡ (if s == t then value else bit_at x t)
  unfolding bits_right
  bit_at-changed =
      let flag : ℕ → ℕ → Bool =
        λ s t. same_flag (bit_at (changed x s value) t) (if s == t then value else bit_at x t) in
      let at_byte = all_below-at 256 (bits_right value) (every_byte value) x byte in
      let at_bit = all_below-at 8 (λ s. all_below 8 (flag s)) at_byte s hs in
      same_flag-eq _ _ (all_below-at 8 (flag s) at_bit t ht)

-- `vec'` is `vec` with `v` at index `i`.
HasAt : Memory → ℕ → ℕ → Memory → Type 0
HasAt vec i v vec' = (load vec' i ≡ some v) × ((j : ℕ) → (i ≡ j → ⊥) → load vec' j ≡ load vec j)

load-other_head : (m : Memory) (v x j : ℕ) → (0 ≡ j → ⊥) → load (v ∷ m) j ≡ load (x ∷ m) j
load-other_head m v x zero other = absurd (other refl)
load-other_head m v x (suc j) other = refl

HasAt-cons : (m m' : Memory) (x i v : ℕ) → HasAt m i v m' → HasAt (x ∷ m) (suc i) v (x ∷ m')
unfolding HasAt
HasAt-cons m m' x i v (here, others) = (here, below)
  where
    below : (j : ℕ) → (suc i ≡ j → ⊥) → load (x ∷ m') j ≡ load (x ∷ m) j
    below zero other = refl
    below (suc j) other = others j (λ e. other (ap suc e))

store-HasAt :
    (m : Memory) (i v : ℕ) → i < length m → (m' : Memory) × (store m i v ≡ some m') × HasAt m i v m'
unfolding HasAt
store-HasAt [] i v h = absurd (omega arith)
store-HasAt (x ∷ m) zero v h = (v ∷ m, refl, (refl, load-other_head m v x))
store-HasAt (x ∷ m) (suc i) v h =
    let (m', run, kept) = store-HasAt m i v (omega arith) in
    (x ∷ m', rw run refl, HasAt-cons m m' x i v kept)

IsByte-load : (m : Memory) (i x : ℕ) → All IsByte m → load m i ≡ some x → IsByte x
IsByte-load [] i x a e = cc
IsByte-load (y ∷ m) zero x a e = let same : y ≡ x = cc in subst IsByte same a.0
IsByte-load (y ∷ m) (suc i) x a e = IsByte-load m i x a.1 e

bitvector_get-bit_at :
    (vec : Memory) (j x : ℕ)
    → load vec (j / 8) ≡ some x
    → bitvector_get vec j ≡ some (bit_at x (j % 8))
unfolding bitvector_get bit_at
bitvector_get-bit_at vec j x e = rw e refl

bitvector_get-same_byte :
    (vec vec' : Memory) (j : ℕ)
    → load vec' (j / 8) ≡ load vec (j / 8)
    → bitvector_get vec' j ≡ bitvector_get vec j
unfolding bitvector_get
bitvector_get-same_byte vec vec' j e = rw e refl

-- Inside the vector, `bitvector_set` sets the flag, and every other flag, inside the vector or not,
-- is read as before.
pub bitvector_get-bitvector_set :
    (vec : Memory) (i : ℕ) (value : Bool)
    → All IsByte vec
    → i / 8 < length vec
    → (vec' : Memory) × (bitvector_set vec i value ≡ some vec')
      × ((j : ℕ) → bitvector_get vec' j ≡ (if i == j then some value else bitvector_get vec j))
unfolding bitvector_set changed HasAt
bitvector_get-bitvector_set vec i value a h =
    let (x, byte) = load-in_bounds vec (i / 8) h in
    let new : ℕ = changed x (i % 8) value in
    let (vec', run, (here, others)) = store-HasAt vec (i / 8) new h in
    (
      vec',
      rw byte run,
      λ j. elim (Bool-cases (i / 8 == j / 8)) [
        | inr e ↦
            let differ : (i == j) ≡ false = ground (arith, e) in
            rw differ (
              bitvector_get-same_byte vec vec' j (others (j / 8) (λ same. ground (arith, e, same))))
        | inl e ↦
            let same : i / 8 ≡ j / 8 = ground (arith, e) in
            let which : (i == j) ≡ (i % 8 == j % 8) = ground (arith, same) in
            let before = bitvector_get-bit_at vec j x (ap (load vec) (sym same) ∙ byte) in
            let after = bitvector_get-bit_at vec' j new (ap (load vec') (sym same) ∙ here) in
            let bit =
              bit_at-changed value x (i % 8) (j % 8) (IsByte-load vec (i / 8) x a byte)
                (omega arith) (omega arith) in
            after ∙ (ap some bit ∙ rw (which, before) (some_if (i % 8 == j % 8) value _))
      ],
    )
