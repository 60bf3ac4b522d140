-- ===== src/Base/Blocks.antt =====
-- What block reads and writes of C memory do, in terms of `take` and `drop`.
use Prim.Native.Nat.{ℕ, zero, suc, ◌+◌, ◌≤◌, ◌<◌}
use mathlib.Core.Path.{◌≡◌, refl, ap, sym, ◌∙◌}
use mathlib.Core.List.{List, [], ◌∷◌, ◌++◌, append_assoc}
use mathlib.Core.Option
use mathlib.Core.Option.{Option, none, some}
use mathlib.Core.Logic.{inl, inr}
use native.Mathlib.Omega.{arith}
use acre_ledger_app.Base.Tests.{Option-cases}
use acre_ledger_app.Base.Lists.{take-length, All, All-append, All-take, All-drop}
use acre_ledger_app.Base.Lists.{length, take, drop, length-take, length-drop}
use acre_ledger_app.Base.Lists.{length-append, take-append, drop-append, drop-drop}
use acre_ledger_app.Base.Fault.{◌>>=◌, Memory, load, store, load_bytes, store_bytes}

-- The memory `m` with `bs` in place of what stood from index `i` on.
abbrev pub overwrite : Memory → ℕ → List ℕ → Memory
overwrite m i bs = take i m ++ (bs ++ drop (length bs) (drop i m))

pub load-in_bounds : (m : Memory) (i : ℕ) → i < length m → (v : ℕ) × (load m i ≡ some v)
load-in_bounds [] i h = absurd (omega arith)
load-in_bounds (x ∷ m) zero h = (x, refl)
load-in_bounds (x ∷ m) (suc i) h = load-in_bounds m i (omega arith)

pub load-drop : (m : Memory) (i : ℕ) → load m i ≡ load (drop i m) 0
load-drop [] zero = refl
load-drop [] (suc i) = refl
load-drop (x ∷ m) zero = refl
load-drop (x ∷ m) (suc i) = load-drop m i

load_bytes-cons : (n x i : ℕ) (m : Memory) → load_bytes (x ∷ m) (suc i) n ≡ load_bytes m i n
load_bytes-cons zero x i m = refl
load_bytes-cons (suc n) x i m = ground (arith, load_bytes-cons n x (suc i) m)

-- A block read inside the memory returns the block.
pub load_bytes-eq-take :
    (m : Memory) (i n : ℕ) → i + n ≤ length m → load_bytes m i n ≡ some (take n (drop i m))
load_bytes-eq-take m zero zero h = refl
load_bytes-eq-take [] zero (suc n) h = absurd (omega arith)
load_bytes-eq-take (x ∷ m) zero (suc n) h =
    rw (load_bytes-cons n x 0 m, load_bytes-eq-take m 0 n (omega arith))
load_bytes-eq-take [] (suc i) n h = absurd (omega arith)
load_bytes-eq-take (x ∷ m) (suc i) n h =
    load_bytes-cons n x i m ∙ load_bytes-eq-take m i n (omega arith)

-- A block read that reaches past the memory is a fault.
pub load_bytes-fault : (m : Memory) (i n : ℕ) → length m < i + suc n → load_bytes m i (suc n) ≡ none
load_bytes-fault [] i n h = refl
load_bytes-fault (x ∷ m) zero zero h = absurd (omega arith)
load_bytes-fault (x ∷ m) zero (suc n) h =
    rw (load_bytes-cons (suc n) x 0 m, load_bytes-fault m 0 n (omega arith))
load_bytes-fault (x ∷ m) (suc i) n h =
    load_bytes-cons (suc n) x i m ∙ load_bytes-fault m i n (omega arith)

store_bytes-cons :
    (bs : List ℕ) (x i : ℕ) (m : Memory)
    → store_bytes (x ∷ m) (suc i) bs ≡ Option.map (λ r. x ∷ r) (store_bytes m i bs)
store_bytes-cons [] x i m = refl
store_bytes-cons (b ∷ bs) x i m = go (store m i b) (store_bytes-cons bs x (suc i))
  where
    go :
        (o : Option Memory)
        → ((r : Memory)
            → store_bytes (x ∷ r) (suc (suc i)) bs
              ≡ Option.map (λ t. x ∷ t) (store_bytes r (suc i) bs))
        → (Option.map (λ (r : Memory). x ∷ r) o >>= λ (r : Memory). store_bytes r (suc (suc i)) bs)
          ≡ Option.map (λ r. x ∷ r) (o >>= λ (r : Memory). store_bytes r (suc i) bs)
    go none rest = refl
    go (some r) rest = rest r

-- A block write inside the memory replaces the block and nothing else.
pub store_bytes-eq-overwrite :
    (m : Memory) (i : ℕ) (bs : List ℕ)
    → i + length bs ≤ length m
    → store_bytes m i bs ≡ some (overwrite m i bs)
store_bytes-eq-overwrite m zero [] h = refl
store_bytes-eq-overwrite [] zero (b ∷ bs) h = absurd (omega arith)
store_bytes-eq-overwrite (x ∷ m) zero (b ∷ bs) h =
    rw (store_bytes-cons bs b 0 m, store_bytes-eq-overwrite m 0 bs (omega arith))
store_bytes-eq-overwrite [] (suc i) bs h = absurd (omega arith)
store_bytes-eq-overwrite (x ∷ m) (suc i) bs h =
    rw (store_bytes-cons bs x i m, store_bytes-eq-overwrite m i bs (omega arith))

pub length-overwrite :
    (m : Memory) (i : ℕ) (bs : List ℕ)
    → i + length bs ≤ length m
    → length (overwrite m i bs) ≡ length m
length-overwrite m i bs h =
    rw (length-append, length-append)
      (omega (arith, length-take i m, length-drop (length bs) (drop i m), length-drop i m))

-- What was written is what is there.
pub drop-overwrite :
    (m : Memory) (i : ℕ) (bs : List ℕ)
    → i ≤ length m
    → drop i (overwrite m i bs) ≡ bs ++ drop (length bs) (drop i m)
drop-overwrite m zero bs h = refl
drop-overwrite [] (suc i) bs h = absurd (omega arith)
drop-overwrite (x ∷ m) (suc i) bs h = drop-overwrite m i bs (omega arith)

pub overwrite-All {κ} :
    (P : ℕ → Type κ) (m : Memory) (i : ℕ) (bs : List ℕ)
    → All P m
    → All P bs
    → All P (overwrite m i bs)
overwrite-All P m i bs h k =
    All-append P (take i m) _ (All-take P i m h)
      (All-append P bs _ k (All-drop P (length bs) _ (All-drop P i m h)))

pub length-load_bytes :
    (n : ℕ) (m : Memory) (i : ℕ) {bs : List ℕ} → load_bytes m i n ≡ some bs → length bs ≡ n
length-load_bytes zero m i e = ground arith
length-load_bytes (suc n) m i e = elim (Option-cases (load m i)) [
  | inl z ↦ absurd (ground (arith, z))
  | inr (b, z) ↦ elim (Option-cases (load_bytes m (suc i) n)) [
    | inl y ↦ absurd (ground (arith, z, y))
    | inr (bs', y) ↦ ground (arith, z, y, length-load_bytes n m (suc i) y)
  ]
]

pub load_bytes-all : (m : Memory) → load_bytes m 0 (length m) ≡ some m
load_bytes-all m = load_bytes-eq-take m 0 (length m) (omega arith) ∙ ap some (take-length m)

pub take-overwrite :
    (m : Memory) (i : ℕ) (bs : List ℕ)
    → i + length bs ≤ length m
    → take (i + length bs) (overwrite m i bs) ≡ take i m ++ bs
take-overwrite m zero bs h =
    let z : 0 + length bs ≡ length bs = omega arith in rw z (take-append bs _)
take-overwrite [] (suc i) bs h = absurd (omega arith)
take-overwrite (x ∷ m) (suc i) bs h =
    let z : suc i + length bs ≡ suc (i + length bs) = omega arith in
    rw z (ap (λ (r : List ℕ). x ∷ r) (take-overwrite m i bs (omega arith)))

-- A block that is written in two parts
pub overwrite-append :
    (m : Memory) (i : ℕ) (cs bs : List ℕ)
    → i + length cs ≤ length m
    → overwrite (overwrite m i cs) (i + length cs) bs ≡ overwrite m i (cs ++ bs)
overwrite-append m zero cs bs h =
    let z : 0 + length cs ≡ length cs = omega arith in
    let tail : List ℕ = drop (length cs) m in
    let joined : length (cs ++ bs) ≡ length cs + length bs = length-append cs bs in
    rw (z, take-append cs tail, drop-append cs tail, joined)
      (sym (
        append_assoc cs bs (drop (length cs + length bs) m)
        ∙ ap (λ (r : List ℕ). cs ++ (bs ++ r)) (sym (drop-drop (length bs) (length cs) m))))
overwrite-append [] (suc i) cs bs h = absurd (omega arith)
overwrite-append (x ∷ m) (suc i) cs bs h =
    let z : suc i + length cs ≡ suc (i + length cs) = omega arith in
    rw z (ap (λ (r : List ℕ). x ∷ r) (overwrite-append m i cs bs (omega arith)))
