-- ===== src/Miniscript/Rules/Checks.antt =====
-- src/common/wallet.c: the checks of `parse_script` on the types are the rules of the language.
use acre_ledger_app.Base.{◌≡◌, refl, some, Bool, true, false, not, ◌&&◌}
use acre_ledger_app.Miniscript.Node.{
  PolicyNodeType, MiniscriptType, type_b, type_v, type_k, type_w, Modes, token_pk, token_pkh,
  token_multi, token_multi_a, token_0, token_1, token_pk_k, token_pk_h, token_older, token_after,
  token_sha256, token_hash256, token_ripemd160, token_hash160, token_and_v, token_and_b,
  token_and_n, token_or_b, token_or_c, token_or_d, token_or_i, token_a, token_s, token_c, token_t,
  token_d, token_v, token_j, token_n, token_l, token_u,
}
use acre_ledger_app.Miniscript.Typing.{
  same_type, require, leaf_modes, timelock_modes, multisig_modes, wrapper_modes, script2_modes,
  andor_modes,
}
use acre_ledger_app.Miniscript.Elements.{and_both, same_type-eq}
use acre_ledger_app.Miniscript.Rules.{
  LeafRule, TimelockRule, MultisigRule, WrapperRule, Script2Rule, AndorRule, IsBase,
}

require-true : (b : Bool) (k m : Modes) → require b k ≡ some m → (b ≡ true) × (m ≡ k)
require-true true k m e = (refl, cc)
require-true false k m e = cc

not_w : (t : MiniscriptType) → not (same_type t type_w) ≡ true → IsBase t
not_w type_b e = tt
not_w type_v e = tt
not_w type_k e = tt
not_w type_w e = absurd (cc)

one_check :
    {t u : MiniscriptType} {k m : Modes} → require (same_type t u) k ≡ some m → (t ≡ u) × (m ≡ k)
one_check {t} {u} {k} {m} e = let (h, same) = require-true _ k m e in (same_type-eq t u h, same)

two_checks :
    {t u : MiniscriptType} {b : Bool} {k m : Modes}
    → require (same_type t u && b) k ≡ some m
    → (t ≡ u) × (b ≡ true) × (m ≡ k)
two_checks {t} {u} {b} {k} {m} e =
    let (h, same) = require-true _ k m e in
    let (x, y) = and_both _ b h in (same_type-eq t u x, y, same)

-- X is Bdu, and the other one has the type `u`.
dissatisfiable :
    {t s u : MiniscriptType} {b c : Bool} {k m : Modes}
    → require (same_type t type_b && b && c && same_type s u) k ≡ some m
    → (t ≡ type_b) × (b ≡ true) × (c ≡ true) × (s ≡ u) × (m ≡ k)
dissatisfiable {b} {c} {k} {m} e =
    let (h, same) = require-true _ k m e in
    let (h3, other) = and_both _ _ h in
    let (h2, hc) = and_both _ c h3 in
    let (x, hb) = and_both _ b h2 in (same_type-eq _ _ x, hb, hc, same_type-eq _ _ other, same)

pub leaf_modes-LeafRule : (t : PolicyNodeType) → LeafRule t (leaf_modes t)
unfolding LeafRule leaf_modes
leaf_modes-LeafRule token_0 = refl
leaf_modes-LeafRule token_1 = refl
leaf_modes-LeafRule token_pk_k = refl
leaf_modes-LeafRule token_pk_h = refl
leaf_modes-LeafRule token_pk = refl
leaf_modes-LeafRule token_pkh = refl
leaf_modes-LeafRule token_sha256 = refl
leaf_modes-LeafRule token_hash256 = refl
leaf_modes-LeafRule token_ripemd160 = refl
leaf_modes-LeafRule token_hash160 = refl
leaf_modes-LeafRule _ = refl

pub timelock_modes-TimelockRule : (t : PolicyNodeType) → TimelockRule t (timelock_modes t)
unfolding TimelockRule timelock_modes
timelock_modes-TimelockRule token_older = refl
timelock_modes-TimelockRule token_after = refl
timelock_modes-TimelockRule _ = refl

pub multisig_modes-MultisigRule : (t : PolicyNodeType) → MultisigRule t (multisig_modes t)
unfolding MultisigRule multisig_modes
multisig_modes-MultisigRule token_multi = refl
multisig_modes-MultisigRule token_multi_a = refl
multisig_modes-MultisigRule _ = refl

pub wrapper_modes-WrapperRule :
    (w : Bool) (t : PolicyNodeType) (x m : Modes)
    → wrapper_modes w t x ≡ some m
    → WrapperRule w t x m
unfolding WrapperRule wrapper_modes
wrapper_modes-WrapperRule w token_a x m e = one_check e
wrapper_modes-WrapperRule w token_s x m e = two_checks e
wrapper_modes-WrapperRule w token_c x m e = one_check e
wrapper_modes-WrapperRule w token_t x m e = one_check e
wrapper_modes-WrapperRule w token_d x m e = two_checks e
wrapper_modes-WrapperRule w token_v x m e = one_check e
wrapper_modes-WrapperRule w token_j x m e = two_checks e
wrapper_modes-WrapperRule w token_n x m e = one_check e
wrapper_modes-WrapperRule w token_l x m e = one_check e
wrapper_modes-WrapperRule w token_u x m e = one_check e
wrapper_modes-WrapperRule w _ x m e = cc

pub andor_modes-AndorRule : (x y z m : Modes) → andor_modes x y z ≡ some m → AndorRule x y z m
unfolding AndorRule andor_modes
andor_modes-AndorRule x y z m e =
    let (h, same) = require-true _ _ m e in
    let (h4, base) = and_both _ _ h in
    let (h3, both) = and_both _ _ h4 in
    let (h2, u) = and_both _ _ h3 in
    let (b, d) = and_both _ _ h2 in
    (same_type-eq _ _ b, d, u, same_type-eq _ _ both, not_w _ base, same)

pub script2_modes-Script2Rule :
    (t : PolicyNodeType) (x y m : Modes) → script2_modes t x y ≡ some m → Script2Rule t x y m
unfolding Script2Rule script2_modes
script2_modes-Script2Rule token_and_v x y m e =
    let (v, base, same) = two_checks e in (v, not_w _ base, same)
script2_modes-Script2Rule token_and_b x y m e =
    let (b, w, same) = two_checks e in (b, same_type-eq _ _ w, same)
script2_modes-Script2Rule token_or_b x z m e =
    let (h, same) = require-true _ _ m e in
    let (h3, d2) = and_both _ _ h in
    let (h2, w) = and_both _ _ h3 in
    let (b, d) = and_both _ _ h2 in (same_type-eq _ _ b, d, same_type-eq _ _ w, d2, same)
script2_modes-Script2Rule token_or_i x z m e =
    let (h, same) = require-true _ _ m e in
    let (base, both) = and_both _ _ h in (not_w _ base, same_type-eq _ _ both, same)
script2_modes-Script2Rule token_and_n x y m e = dissatisfiable e
script2_modes-Script2Rule token_or_c x y m e = dissatisfiable e
script2_modes-Script2Rule token_or_d x y m e = dissatisfiable e
script2_modes-Script2Rule _ x y m e = cc
