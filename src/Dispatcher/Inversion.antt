-- ===== src/Dispatcher/Inversion.antt =====
-- A call that succeeds went through all of its parts.
use acre_ledger_app.Base.{ℕ, ◌≡◌, refl, Bool, true, false, Option, none, some}
use acre_ledger_app.Dispatcher.{
  Ret, ok, fail, Context, M, ◌>>=◌, or_return, require, lift, return, return_error,
}
use mathlib.Core.Path.{subst}
use acre_ledger_app.Base.{if◌then◌else◌, Option-cases, inl, inr, ap, sym, ◌∙◌, length, arith}
use acre_ledger_app.Buffer
use acre_ledger_app.Buffer.Reads.{length-read_bytes}
use acre_ledger_app.Dispatcher.{read_bytes}

pub >>=-eq-ok :
    {A B : Type 0} (m : M A) (f : A → M B) (dc : Context) {b : B} {last : Context}
    → (m >>= f) dc ≡ some (ok b, last)
    → (a : A) × (next : Context) × (m dc ≡ some (ok a, next)) × (f a next ≡ some (ok b, last))
unfolding ◌>>=◌
>>=-eq-ok {A} {B} m f dc {b} {last} = go (m dc)
  where
    go :
        (o : Option (Ret A × Context))
        → ((λ _. o) >>= f) dc ≡ some (ok b, last)
        → (a : A) × (next : Context) × (o ≡ some (ok a, next)) × (f a next ≡ some (ok b, last))
    go none e = cc
    go (some (ok a, dc')) e = (a, dc', refl, e)
    go (some (fail k, dc')) e = cc

pub or_return-eq-ok :
    {A : Type 0} (m : M A) (k : ℕ) (dc : Context) {a : A} {last : Context}
    → or_return m k dc ≡ some (ok a, last)
    → m dc ≡ some (ok a, last)
unfolding or_return
or_return-eq-ok {A} m k dc {a} {last} = go (m dc)
  where
    go :
        (o : Option (Ret A × Context))
        → or_return (λ _. o) k dc ≡ some (ok a, last)
        → o ≡ some (ok a, last)
    go none e = cc
    go (some (ok a, dc')) e = e
    go (some (fail j, dc')) e = cc

pub require-eq-ok :
    (test : Bool) (k : ℕ) (dc : Context) {u : Unit {0}} {last : Context}
    → require test k dc ≡ some (ok u, last)
    → test ≡ true
unfolding require
require-eq-ok true k dc e = refl
require-eq-ok false k dc e = cc

pub lift-eq-ok :
    {A : Type 0} (o : Option A) (dc : Context) {a : A} {last : Context}
    → lift o dc ≡ some (ok a, last)
    → o ≡ some a
unfolding lift
lift-eq-ok none dc e = cc
lift-eq-ok (some b) dc e = cc

-- Two results of calls that are equal have equal values.
pub result-injective :
    {A : Type 0} (a b : A) (dc last : Context)
    → ◌≡◌ {A = Option (Ret A × Context)} (some (ok a, dc)) (some (ok b, last))
    → a ≡ b
result-injective a b dc last e = cc

-- Every success of the call has a value with the property.
unfoldable pub Ensures : {A : Type 0} → M A → (A → Type 0) → Type 0
Ensures {A} m Q = (dc : Context) (a : A) (last : Context) → m dc ≡ some (ok a, last) → Q a

pub ensures_bind :
    {A B : Type 0} (m : M A) (f : A → M B) (P : A → Type 0) (Q : B → Type 0)
    → Ensures m P
    → ((a : A) → P a → Ensures (f a) Q)
    → Ensures (m >>= f) Q
unfolding Ensures
ensures_bind m f P Q before after dc b last e =
    let (a, next, first, rest) = >>=-eq-ok m f dc e in
    after a (before dc a next first) next b last rest

-- A step whose value alone matters to what follows
pub ensures_after :
    {A B : Type 0} (m : M A) (f : A → M B) (Q : B → Type 0)
    → ((a : A) → Ensures (f a) Q)
    → Ensures (m >>= f) Q
unfolding Ensures
ensures_after m f Q after dc b last e =
    let (a, next, first, rest) = >>=-eq-ok m f dc e in after a next b last rest

pub ensures_require : (test : Bool) (k : ℕ) → Ensures (require test k) (λ _. test ≡ true)
unfolding Ensures
ensures_require test k dc u last e = require-eq-ok test k dc e

pub ensures_or_return :
    {A : Type 0} (m : M A) (k : ℕ) (Q : A → Type 0) → Ensures m Q → Ensures (or_return m k) Q
unfolding Ensures
ensures_or_return m k Q h dc a last e = h dc a last (or_return-eq-ok m k dc e)

pub ensures_return : {A : Type 0} (a : A) (Q : A → Type 0) → Q a → Ensures (return a) Q
unfolding Ensures return
ensures_return a Q h dc b last e = subst Q (result-injective a b dc last e) h

pub ensures_lift : {A : Type 0} (o : Option A) → Ensures (lift o) (λ a. o ≡ some a)
unfolding Ensures
ensures_lift o dc a last e = lift-eq-ok o dc e

pub ensures_error : {A : Type 0} (k : ℕ) (Q : A → Type 0) → Ensures (return_error k) Q
unfolding Ensures return_error
ensures_error k Q dc a last e = cc

pub ensures_weaken :
    {A : Type 0} (m : M A) (P Q : A → Type 0) → ((a : A) → P a → Q a) → Ensures m P → Ensures m Q
unfolding Ensures
ensures_weaken m P Q f h dc a last e = f a (h dc a last e)

-- Either branch of a test, with the test's result
pub ensures_if :
    {A : Type 0} (test : Bool) (m n : M A) (Q : A → Type 0)
    → (test ≡ true → Ensures m Q)
    → (test ≡ false → Ensures n Q)
    → Ensures (if test then m else n) Q
ensures_if true m n Q yes_case no_case = yes_case refl
ensures_if false m n Q yes_case no_case = no_case refl

pub ensures_read_bytes : (n : ℕ) → Ensures (read_bytes n) (λ out. length out ≡ n)
unfolding Ensures read_bytes
ensures_read_bytes n dc out last e = elim (Option-cases (Buffer.read_bytes dc.read_buffer n)) [
  | inl z ↦ absurd (ground (arith, z))
  | inr (none, z) ↦ absurd (ground (arith, z))
  | inr (some (bs, b), z) ↦
      let same : bs ≡ out = ground (arith, z) in
      ap length (sym same) ∙ length-read_bytes dc.read_buffer n z
]

-- A call that is chosen by the context it starts in
pub ensures_in_context :
    {A : Type 0} (m : Context → M A) (Q : A → Type 0)
    → ((dc : Context) → Ensures (m dc) Q)
    → Ensures (λ dc. m dc dc) Q
unfolding Ensures
ensures_in_context m Q h dc a last e = h dc dc a last e
