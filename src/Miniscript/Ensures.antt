-- ===== src/Miniscript/Ensures.antt =====
-- src/common/wallet.c: what holds of the value that a parser gives.
use acre_ledger_app.Base.{◌≡◌, refl, Option, none, some, Bool, true, false, if◌then◌else◌}
use mathlib.Core.Path.{subst}
use acre_ledger_app.Buffer.{Buffer}
use acre_ledger_app.Miniscript.Parser.{Parser, resume, ◌>>=◌, return, fail, fault, require, lift}

-- Whenever `m` gives a value, `Q` holds of it.
pub record Ensures {A : Type 0} (m : Parser A) (Q : A → Type 0) : Type 0 where
  pub holds :
      (in_buf out_buf : Buffer) (a : A) (in_buf' out_buf' : Buffer)
      → m in_buf out_buf ≡ some (some (a, in_buf', out_buf'))
      → Q a

module _ {A B : Type 0} {P : A → Type 0} {Q : B → Type 0} where
  -- A value of the first step, and the rest on it
  resume-inverts :
      (o : Option (Option (A × Buffer × Buffer))) (f : A → Parser B)
      → ((a : A) (i u : Buffer) → o ≡ some (some (a, i, u)) → P a)
      → ((a : A) → P a → Ensures (f a) Q)
      → (b : B) (i u : Buffer) → resume o f ≡ some (some (b, i, u))
      → Q b
  resume-inverts none f g h b i u e = cc
  resume-inverts (some none) f g h b i u e = cc
  resume-inverts (some (some (a, i', u'))) f g h b i u e =
      (h a (g a i' u' refl)).holds i' u' b i u e

  pub then_use :
      {m : Parser A} {f : A → Parser B}
      → Ensures m P
      → ((a : A) → P a → Ensures (f a) Q)
      → Ensures (m >>= f) Q
  unfolding ◌>>=◌
  then_use {m} {f} g h = record {
    holds =
        λ i u b i' u' e. resume-inverts (m i u) f (λ a i' u' e. g.holds i u a i' u' e) h b i' u' e;
  }

lift-Ensures : {A : Type 0} (o : Option A) → Ensures (lift o) (λ a. o ≡ some a)
unfolding lift fail return
lift-Ensures none = record { holds = λ i u a i' u' e. cc }
lift-Ensures (some a) = record { holds = λ i u a' i' u' e. cc }

require-Ensures : (b : Bool) → Ensures (require b) (λ a. b ≡ true)
unfolding require fail return
require-Ensures true = record { holds = λ i u a i' u' e. refl }
require-Ensures false = record { holds = λ i u a i' u' e. cc }

module _ {A B : Type 0} {Q : B → Type 0} where
  -- A step whose value does not matter
  pub skip : (m : Parser A) {f : A → Parser B} → ((a : A) → Ensures (f a) Q) → Ensures (m >>= f) Q
  skip m h = then_use {P = λ a. Unit {0}} (record { holds = λ i u a i' u' e. tt }) (λ a p. h a)

  pub lifted :
      {o : Option A} {f : A → Parser B}
      → ((a : A) → o ≡ some a → Ensures (f a) Q)
      → Ensures (lift o >>= f) Q
  lifted {o} h = then_use {P = λ a. o ≡ some a} (lift-Ensures o) h

pub required :
    {B : Type 0} {Q : B → Type 0} (b : Bool) (f : Unit {0} → Parser B)
    → (b ≡ true → Ensures (f tt) Q)
    → Ensures (require b >>= f) Q
required b f h = then_use {P = λ a. b ≡ true} (require-Ensures b) (λ a p. h p)

module _ {A : Type 0} {Q : A → Type 0} where
  pub returned : (a : A) → Q a → Ensures (return a) Q
  unfolding return
  returned a q = record { holds = λ i u a' i' u' e. let same : a ≡ a' = cc in subst Q same q }

  pub failed : Ensures fail Q
  unfolding fail
  failed = record { holds = λ i u a i' u' e. cc }

  pub faulted : Ensures fault Q
  unfolding fault
  faulted = record { holds = λ i u a i' u' e. cc }

  pub either_branch :
      (b : Bool) {m n : Parser A} → Ensures m Q → Ensures n Q → Ensures (if b then m else n) Q
  either_branch true g h = g
  either_branch false g h = h
