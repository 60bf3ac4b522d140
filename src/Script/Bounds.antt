-- ===== src/Script/Bounds.antt =====
-- The description of an OP_RETURN output stays inside its buffer.
use acre_ledger_app.Base.{
  ℕ, zero, suc, ◌+◌, ◌-◌, ◌*◌, ◌/◌, ◌%◌, ◌≤◌, ◌<◌, ◌≡◌, refl, ap, ◌∙◌, sym, arith,
}
use acre_ledger_app.Base.{Option, none, some, [], ◌∷◌, length, All}
use acre_ledger_app.Base.{
  Bool, true, false, leb, Bool-cases, Option-cases, inl, inr, Memory, load, store,
}
use acre_ledger_app.Base.Blocks.{load-in_bounds}
use mathlib.Core.Path.{subst}
use acre_ledger_app.Bytes.{IsByte}
use acre_ledger_app.Script.OpReturn.{
  Attempt, ◌>>=◌, lift, require, Out, put, hex, put_number, put_hex,
}

-- No access outside the memory, and a result with the property if there is one
abbrev pub Safe : {A : Type 0} → (A → Type 0) → Attempt A → Type 0
Safe P none = ⊥
Safe P (some none) = Unit
Safe P (some (some a)) = P a

pub Safe-bind :
    {A B : Type 0} (P : A → Type 0) (Q : B → Type 0) (m : Attempt A) (f : A → Attempt B)
    → Safe P m
    → ((a : A) → P a → Safe Q (f a))
    → Safe Q (m >>= f)
Safe-bind P Q none f h k = h
Safe-bind P Q (some none) f h k = tt
Safe-bind P Q (some (some a)) f h k = k a h

pub Safe-then :
    {B : Type 0} (Q : B → Type 0) (b : Bool) (m : Attempt B)
    → (b ≡ true → Safe Q m)
    → Safe Q (require b >>= λ _. m)
Safe-then Q true m h = h refl
Safe-then Q false m h = tt

pub Safe-require : (b : Bool) → Safe (λ _. b ≡ true) (require b)
Safe-require true = refl
Safe-require false = tt

pub Safe-lift :
    {A : Type 0} (P : A → Type 0) (o : Option A) (a : A) → o ≡ some a → P a → Safe P (lift o)
Safe-lift P o a e p = subst (λ x. Safe P (lift x)) (sym e) p

pub Safe-weaken :
    {A : Type 0} (m : Attempt A) (P Q : A → Type 0) → ((a : A) → P a → Q a) → Safe P m → Safe Q m
Safe-weaken none P Q f h = h
Safe-weaken (some none) P Q f h = tt
Safe-weaken (some (some a)) P Q f h = f a h

byte_at : (m : Memory) (i v : ℕ) → All IsByte m → load m i ≡ some v → IsByte v
byte_at [] i v h e = cc
byte_at (x ∷ m) zero v h e = let same : x ≡ v = cc in rw (sym same) h.0
byte_at (x ∷ m) (suc i) v h e = byte_at m i v h.1 e

pub Safe-load : (m : Memory) (i : ℕ) → All IsByte m → i < length m → Safe IsByte (lift (load m i))
Safe-load m i h inside =
    let (v, e) = load-in_bounds m i inside in Safe-lift IsByte (load m i) v e (byte_at m i v h e)

store-in_bounds :
    (m : Memory) (i v : ℕ)
    → i < length m
    → (m' : Memory) × (store m i v ≡ some m') × (length m' ≡ length m)
store-in_bounds [] i v h = absurd (omega arith)
store-in_bounds (x ∷ m) zero v h = (v ∷ m, refl, refl)
store-in_bounds (x ∷ m) (suc i) v h =
    let (m', e, len) = store-in_bounds m i v (omega arith) in (x ∷ m', rw e refl, ap suc len)

pub Safe-store :
    (m : Memory) (i v : ℕ)
    → i < length m
    → Safe (λ (m' : Memory). length m' ≡ length m) (lift (store m i v))
Safe-store m i v h =
    let (m', e, len) = store-in_bounds m i v h in Safe-lift _ (store m i v) m' e len

-- The buffer of 185 bytes, with a counter up to a bound
pub record Within (n : ℕ) (out : Out) : Type 0 where
  pub size : length out.memory ≡ 185
  pub positive : 10 ≤ out.out_ctr
  pub below : out.out_ctr ≤ n

pub Safe-put : (c n : ℕ) (out : Out) → Within n out → n < 185 → Safe (Within (n + 1)) (put c out)
unfolding put
Safe-put c n out h room =
    Safe-bind (λ (m : Memory). length m ≡ length out.memory) (Within (n + 1)) _ _
      (Safe-store out.memory out.out_ctr c (omega (arith, h.size, h.below)))
      λ m len. record {
        size = len ∙ h.size;
        positive = omega (arith, h.positive);
        below = omega (arith, h.below);
      }

pub weaken : (n k : ℕ) (out : Out) → n ≤ k → Within n out → Within k out
weaken n k out le h = record {
  size = h.size;
  positive = h.positive;
  below = omega (arith, h.below);
}

pub Safe-put_two :
    (c d n : ℕ) (out : Out)
    → Within n out
    → n < 184
    → Safe (Within (n + 2)) (put c out >>= λ out. put d out)
Safe-put_two c d n out h room =
    Safe-bind (Within (n + 1)) (Within (n + 2)) (put c out) (put d)
      (Safe-put c n out h (omega arith))
      λ o within.
        Safe-weaken (put d o) (Within (n + 1 + 1)) (Within (n + 2))
          (λ p. weaken _ _ p (omega arith)) (Safe-put d (n + 1) o within (omega arith))

pub Safe-put_number :
    (num n : ℕ) (out : Out) → Within n out → n < 184 → Safe (Within (n + 2)) (put_number num out)
unfolding put_number
Safe-put_number num n out h room = elim (Bool-cases (leb 10 num)) [
  | inl e ↦ rw e (Safe-put_two 49 (48 + (num - 10)) n out h room)
  | inr e ↦ rw e (
      Safe-weaken (put (48 + num) out) (Within (n + 1)) (Within (n + 2))
        (λ p. weaken _ _ p (omega arith)) (Safe-put (48 + num) n out h (omega arith)))
]

Safe-hex : (i : ℕ) → i < 16 → Safe (λ _. Unit {0}) (lift (load hex i))
Safe-hex i h = let (v, e) = load-in_bounds hex i h in Safe-lift _ (load hex i) v e tt

pub Safe-put_hex :
    (script : Memory) (offset k n : ℕ) (out : Out)
    → All IsByte script
    → offset + k ≤ length script
    → Within n out
    → n + 2 * k < 185
    → Safe (Within (n + 2 * k)) (put_hex script offset k out)
unfolding put_hex
Safe-put_hex script offset zero n out bytes inside h room = weaken n (n + 2 * 0) out (omega arith) h
Safe-put_hex script offset (suc k) n out bytes inside h room =
    Safe-bind IsByte (Within (n + 2 * suc k)) _ _ (Safe-load script offset bytes (omega arith))
      λ b byte.
        Safe-bind (λ _. Unit {0}) (Within (n + 2 * suc k)) _ _ (Safe-hex (b / 16) (omega arith))
          λ high _.
            Safe-bind (Within (n + 1)) (Within (n + 2 * suc k)) _ _
              (Safe-put high n out h (omega arith))
              λ o1 within1.
                Safe-bind (λ _. Unit {0}) (Within (n + 2 * suc k)) _ _
                  (Safe-hex (b % 16) (omega arith))
                  λ low _.
                    Safe-bind (Within (n + 1 + 1)) (Within (n + 2 * suc k)) _ _
                      (Safe-put low (n + 1) o1 within1 (omega arith))
                      λ o2 within2.
                        Safe-weaken (put_hex script (offset + 1) k o2) (Within (n + 1 + 1 + 2 * k))
                          (Within (n + 2 * suc k)) (λ p. weaken _ _ p (omega arith))
                          (Safe-put_hex script (offset + 1) k (n + 1 + 1) o2 bytes (omega arith)
                            within2 (omega arith))

load-store : (m m' : Memory) (i v : ℕ) → store m i v ≡ some m' → load m' i ≡ some v
load-store [] m' i v e = cc
load-store (x ∷ m) m' zero v e = let same : (v ∷ m) ≡ m' = cc in rw (sym same) refl
load-store (x ∷ m) m' (suc i) v e = elim (Option-cases (store m i v)) [
  | inl z ↦ absurd (cc)
  | inr (m1, z) ↦
      let stored : some (x ∷ m1) ≡ some m' = rw z at e in
      let same : (x ∷ m1) ≡ m' = cc in rw (sym same) (load-store m m1 i v z)
]

-- The write of the terminating zero
pub Safe-store_at :
    (m : Memory) (i v : ℕ)
    → i < length m
    → Safe (λ (m' : Memory). (length m' ≡ length m) × (load m' i ≡ some v)) (lift (store m i v))
Safe-store_at m i v h =
    let (m', e, len) = store-in_bounds m i v h in
    Safe-lift _ (store m i v) m' e (len, load-store m m' i v e)
