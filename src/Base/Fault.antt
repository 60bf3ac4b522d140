-- ===== src/Base/Fault.antt =====
-- C memory as a list of bytes. An access outside it is undefined behaviour: `none`.
use Prim.Native.Nat.{ℕ, zero, suc}
use mathlib.Core.Path.{◌≡◌, refl}
use mathlib.Core.List.{List, [], ◌∷◌}
use mathlib.Core.Option
use mathlib.Core.Option.{Option, none, some}
use acre_ledger_app.Base.Lists.{get_elem?}

infixl 5 ◌>>=◌ ◌>>◌
abbrev pub ◌>>=◌ {ℓ κ} : {A : Type ℓ} {B : Type κ} → Option A → (A → Option B) → Option B
none >>= f = none
some a >>= f = f a

abbrev pub ◌>>◌ {ℓ} : {B : Type ℓ} → Option (Unit {0}) → Option B → Option B
m >> k = m >>= λ _. k

pub >>=_assoc {ℓ κ μ} :
    {A : Type ℓ} {B : Type κ} {C : Type μ} (m : Option A) (f : A → Option B) (g : B → Option C)
    → ((m >>= f) >>= g) ≡ (m >>= λ a. f a >>= g)
>>=_assoc none f g = refl
>>=_assoc (some a) f g = refl

abbrev pub Memory : Type 0
Memory = List ℕ

-- `m[i]`, as a value
abbrev pub load : Memory → ℕ → Option ℕ
load = get_elem?

-- `m[i] = v`
abbrev pub store : Memory → ℕ → ℕ → Option Memory
store [] i v = none
store (x ∷ m) zero v = some (v ∷ m)
store (x ∷ m) (suc i) v = Option.map (λ r. x ∷ r) (store m i v)

-- The `n` bytes from index `i` on, as `memcpy` reads them.
abbrev pub load_bytes : Memory → ℕ → ℕ → Option (List ℕ)
load_bytes m i zero = some []
load_bytes m i (suc n) = do b ← load m i; bs ← load_bytes m (suc i) n; some (b ∷ bs)

-- The bytes `bs` written from index `i` on, as `memcpy` writes them.
abbrev pub store_bytes : Memory → ℕ → List ℕ → Option Memory
store_bytes m i [] = some m
store_bytes m i (b ∷ bs) = do m' ← store m i b; store_bytes m' (suc i) bs
