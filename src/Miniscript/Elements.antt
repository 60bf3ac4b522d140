-- ===== src/Miniscript/Elements.antt =====
-- src/common/wallet.c: what the flags z and o and the type V of a miniscript say of the stack
-- elements that it takes.
pub mod Script2
pub mod Thresh
pub mod Sound
use acre_ledger_app.Base.{
  ℕ, zero, suc, ◌+◌, ◌≡◌, refl, ap, ◌∙◌, sym, arith, inl, inr, ◌⊎◌, Option, none, some, Bool, true,
  false, not, ◌&&◌, ◌||◌,
}
use mathlib.Core.Path.{subst}
use acre_ledger_app.Miniscript.Node.{
  PolicyNodeType, MiniscriptType, type_b, type_v, type_k, type_w, Modes, token_pk, token_pkh,
  token_multi, token_multi_a, token_0, token_1, token_pk_k, token_pk_h, token_older, token_after,
  token_sha256, token_hash256, token_ripemd160, token_hash160, token_a, token_s, token_c, token_t,
  token_d, token_v, token_j, token_n, token_l, token_u,
}
use acre_ledger_app.Miniscript.Typing.{
  same_type, require, leaf_modes, timelock_modes, multisig_modes, wrapper_modes, script2_modes,
  andor_modes,
}
use acre_ledger_app.Miniscript.Ways.{
  Sizes, Ways, Exactly, Never, Both, Either, leaf_ways, multisig_ways, wrapper_ways, script2_ways,
  andor_ways,
}

abbrev pub AllAre : ℕ → Sizes → Type 0
AllAre c P = (n : ℕ) → P n → n ≡ c

-- It takes `c` elements, to satisfy and to dissatisfy.
abbrev pub Takes : ℕ → Ways → Type 0
Takes c W = AllAre c (W true) × AllAre c (W false)

-- A script with the flag z takes nothing, one with the flag o takes one element, and one of type V
-- cannot be dissatisfied.
pub record Obeys (m : Modes) (W : Ways) : Type 0 where
  pub z : m.miniscript_mod_z ≡ true → Takes 0 W
  pub o : m.miniscript_mod_o ≡ true → Takes 1 W
  pub v : m.miniscript_type ≡ type_v → (n : ℕ) → W false n → ⊥

pub AllAre-both :
    {P Q : Sizes} {a b c : ℕ} → a + b ≡ c → AllAre a P → AllAre b Q → AllAre c (Both P Q)
AllAre-both sum h k n (x, y, p, q, e) = omega (arith, sum, h x p, k y q, e)

pub AllAre-either : {P Q : Sizes} {c : ℕ} → AllAre c P → AllAre c Q → AllAre c (Either P Q)
AllAre-either h k n (inl p) = h n p
AllAre-either h k n (inr q) = k n q

pub exact : {c : ℕ} → AllAre c (Exactly c)
exact n e = e

pub never : {c : ℕ} → AllAre c Never
never n h = absurd h

pub not_true : {A : Type 0} → false ≡ true → A
not_true e = absurd (cc)

pub not_v_b : {A : Type 0} → type_b ≡ type_v → A
not_v_b e = absurd (cc)

not_v_w : {A : Type 0} → type_w ≡ type_v → A
not_v_w e = absurd (cc)

not_v_k : {A : Type 0} → type_k ≡ type_v → A
not_v_k e = absurd (cc)

pub and_both : (a b : Bool) → (a && b) ≡ true → (a ≡ true) × (b ≡ true)
and_both true b e = (refl, e)
and_both false b e = cc

pub or_cases : (a b : Bool) → (a || b) ≡ true → (a ≡ true) ⊎ (b ≡ true)
or_cases true b e = inl refl
or_cases false b e = inr e

pub same_type-eq : (s t : MiniscriptType) → same_type s t ≡ true → s ≡ t
same_type-eq type_b type_b e = refl
same_type-eq type_v type_v e = refl
same_type-eq type_k type_k e = refl
same_type-eq type_w type_w e = refl
same_type-eq _ _ e = cc

-- The flags that a checked node gets
pub checked :
    (b : Bool) (k m : Modes) (W : Ways) → require b k ≡ some m → (b ≡ true → Obeys k W) → Obeys m W
checked true k m W e h = let same : k ≡ m = cc in subst (λ m. Obeys m W) same (h refl)
checked false k m W e h = cc

given : (k m : Modes) (W : Ways) → some k ≡ some m → Obeys k W → Obeys m W
given k m W e h = let same : k ≡ m = cc in subst (λ m. Obeys m W) same h

pub leaf_modes-Obeys :
    (t : PolicyNodeType) (m : Modes) → leaf_modes t ≡ some m → Obeys m (leaf_ways t)
unfolding leaf_modes
leaf_modes-Obeys token_0 m e =
    given _ m _ e (record { z = λ _. (never, exact); o = not_true; v = not_v_b })
leaf_modes-Obeys token_1 m e =
    given _ m _ e (record { z = λ _. (exact, never); o = not_true; v = not_v_b })
leaf_modes-Obeys token_sha256 m e =
    given _ m _ e (record { z = not_true; o = λ _. (exact, never); v = not_v_b })
leaf_modes-Obeys token_hash256 m e =
    given _ m _ e (record { z = not_true; o = λ _. (exact, never); v = not_v_b })
leaf_modes-Obeys token_ripemd160 m e =
    given _ m _ e (record { z = not_true; o = λ _. (exact, never); v = not_v_b })
leaf_modes-Obeys token_hash160 m e =
    given _ m _ e (record { z = not_true; o = λ _. (exact, never); v = not_v_b })
leaf_modes-Obeys token_pk m e =
    given _ m _ e (record { z = not_true; o = λ _. (exact, exact); v = not_v_b })
leaf_modes-Obeys token_pkh m e = given _ m _ e (record { z = not_true; o = not_true; v = not_v_b })
leaf_modes-Obeys token_pk_k m e =
    given _ m _ e (record { z = not_true; o = λ _. (exact, exact); v = not_v_k })
leaf_modes-Obeys token_pk_h m e = given _ m _ e (record { z = not_true; o = not_true; v = not_v_k })
leaf_modes-Obeys _ m e = cc

pub timelock_modes-Obeys :
    (t : PolicyNodeType) (m : Modes) → timelock_modes t ≡ some m → Obeys m (leaf_ways t)
unfolding timelock_modes
timelock_modes-Obeys token_older m e =
    given _ m _ e (record { z = λ _. (exact, never); o = not_true; v = not_v_b })
timelock_modes-Obeys token_after m e =
    given _ m _ e (record { z = λ _. (exact, never); o = not_true; v = not_v_b })
timelock_modes-Obeys _ m e = cc

pub multisig_modes-Obeys :
    (t : PolicyNodeType) (k n : ℕ) (m : Modes)
    → multisig_modes t ≡ some m
    → Obeys m (multisig_ways t k n)
unfolding multisig_modes
multisig_modes-Obeys token_multi k n m e =
    given _ m _ e (record { z = not_true; o = not_true; v = not_v_b })
multisig_modes-Obeys token_multi_a k n m e =
    given _ m _ e (record { z = not_true; o = not_true; v = not_v_b })
multisig_modes-Obeys _ k n m e = cc

pub wrapper_modes-Obeys :
    (within_tr : Bool) (t : PolicyNodeType) (x m : Modes) (X : Ways)
    → Obeys x X
    → wrapper_modes within_tr t x ≡ some m
    → Obeys m (wrapper_ways t X)
unfolding wrapper_modes
wrapper_modes-Obeys within token_a x m X h e =
    checked _ _ m _ e (λ c. record { z = not_true; o = not_true; v = not_v_w })
wrapper_modes-Obeys within token_s x m X h e =
    checked _ _ m _ e (λ c. record { z = not_true; o = not_true; v = not_v_w })
wrapper_modes-Obeys within token_c x m X h e =
    checked _ _ m _ e (λ c. record { z = not_true; o = h.o; v = not_v_b })
wrapper_modes-Obeys within token_t x m X h e =
    checked _ _ m _ e
      (λ c. record { z = λ e. ((h.z e).0, never); o = λ e. ((h.o e).0, never); v = not_v_b })
wrapper_modes-Obeys within token_d x m X h e = checked _ _ m _ e (λ c. record {
  z = not_true;
  o = λ _. (AllAre-both refl exact (h.z (and_both _ _ c).1).0, exact);
  v = not_v_b;
})
wrapper_modes-Obeys within token_v x m X h e =
    checked _ _ m _ e
      (λ c. record { z = λ e. ((h.z e).0, never); o = λ e. ((h.o e).0, never); v = λ e n w. w })
wrapper_modes-Obeys within token_j x m X h e =
    checked _ _ m _ e (λ c. record { z = not_true; o = λ e. ((h.o e).0, exact); v = not_v_b })
wrapper_modes-Obeys within token_n x m X h e =
    checked _ _ m _ e (λ c. record { z = h.z; o = h.o; v = not_v_b })
wrapper_modes-Obeys within token_l x m X h e = checked _ _ m _ e (λ c. record {
  z = not_true;
  o = λ e.
      (AllAre-both refl (h.z e).0 exact, AllAre-either exact (AllAre-both refl (h.z e).1 exact));
  v = not_v_b;
})
wrapper_modes-Obeys within token_u x m X h e = checked _ _ m _ e (λ c. record {
  z = not_true;
  o = λ e.
      (AllAre-both refl (h.z e).0 exact, AllAre-either exact (AllAre-both refl (h.z e).1 exact));
  v = not_v_b;
})
wrapper_modes-Obeys within _ x m X h e = cc
