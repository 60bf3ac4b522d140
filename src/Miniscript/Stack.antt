-- ===== src/Miniscript/Stack.antt =====
-- src/common/wallet.c: the stack sizes that `compute_miniscript_policy_ext_info` returns are the
-- largest that are possible.
pub mod Thresh
pub mod Whole
use acre_ledger_app.Base.{
  ℕ, zero, suc, ◌+◌, ◌≤◌, ◌<◌, ◌≡◌, refl, ap, ◌∙◌, sym, arith, Option, none, some, List, [], ◌∷◌,
  length, map, get_elem?, Bool, true, false, Bool-cases, inl, inr, not, ◌==◌, ltb, leb, bit_and,
  ◌^◌, if◌then◌else◌,
}
use acre_ledger_app.Miniscript.Node.{
  PolicyNodeType, Modes, token_pk, token_pkh, token_multi, token_multi_a, token_0, token_1,
  token_pk_k, token_pk_h, token_older, token_after, token_sha256, token_hash256, token_ripemd160,
  token_hash160, token_and_v, token_and_b, token_and_n, token_or_b, token_or_c, token_or_d,
  token_or_i, token_a, token_s, token_c, token_t, token_d, token_v, token_j, token_n, token_l,
  token_u,
}
use acre_ledger_app.Miniscript.Amount.{
  Amount, sumcheck, maxcheck, next_tail, next_sats, sats_loop, read_sats, max_n_in_thresh,
  int16_max,
}
use acre_ledger_app.Miniscript.Info.{
  ExtInfo, MiniscriptContext, MiniscriptStacksize, leaf_info, multisig_info, timelock_info,
  wrapper_info,
}
use acre_ledger_app.Miniscript.Script2.{script2_info, andor_info}
use acre_ledger_app.Miniscript.Thresh.{
  Outcome, ◌>>=◌, thresh_amounts, compute_thresh_ops, compute_thresh_stacksize, thresh_info,
}
use acre_ledger_app.Miniscript.Analysis.{compute_miniscript_policy_ext_info, compute_children}
use acre_ledger_app.Miniscript.Typing.{
  leaf_modes, timelock_modes, multisig_modes, wrapper_modes, script2_modes,
}
use acre_ledger_app.Miniscript.Typed.{IsTyped, AreTyped}
use acre_ledger_app.Miniscript.Ways.{
  Ways, Exactly, Never, Both, Either, leaf_ways, multisig_ways, wrapper_ways, script2_ways,
  andor_ways, script_ways, list_ways, no_scripts, Sizes,
}
use acre_ledger_app.Miniscript.Maximum.{
  IsMaximum, IsMaximum-exactly, IsMaximum-never, IsMaximum-sumcheck, IsMaximum-maxcheck, IsTable,
  IsTable-next_sats,
}

-- The stack sizes are the largest to satisfy and to dissatisfy.
pub record HasMaxima (ss : MiniscriptStacksize) (W : Ways) : Type 0 where
  pub sat : IsMaximum ss.sat (W true)
  pub dsat : IsMaximum ss.dsat (W false)

-- A result, with the largest stack sizes
abbrev Finds : Option ExtInfo → Ways → Type 0
Finds o W = (out : ExtInfo) × (o ≡ some out) × HasMaxima out.ss W

exactly_0 : IsMaximum (some 0) (Exactly 0)
exactly_0 = IsMaximum-exactly 0 (omega arith)

exactly_1 : IsMaximum (some 1) (Exactly 1)
exactly_1 = IsMaximum-exactly 1 (omega arith)

exactly_2 : IsMaximum (some 2) (Exactly 2)
exactly_2 = IsMaximum-exactly 2 (omega arith)

pub leaf_info-Finds :
    (ctx : MiniscriptContext) (t : PolicyNodeType) (m : Modes)
    → leaf_modes t ≡ some m
    → Finds (leaf_info ctx t) (leaf_ways t)
unfolding leaf_modes leaf_info
leaf_info-Finds ctx token_0 m e = (_, refl, record { sat = IsMaximum-never; dsat = exactly_0 })
leaf_info-Finds ctx token_1 m e = (_, refl, record { sat = exactly_0; dsat = IsMaximum-never })
leaf_info-Finds ctx token_pk m e = (_, refl, record { sat = exactly_1; dsat = exactly_1 })
leaf_info-Finds ctx token_pk_k m e = (_, refl, record { sat = exactly_1; dsat = exactly_1 })
leaf_info-Finds ctx token_pkh m e = (_, refl, record { sat = exactly_2; dsat = exactly_2 })
leaf_info-Finds ctx token_pk_h m e = (_, refl, record { sat = exactly_2; dsat = exactly_2 })
leaf_info-Finds ctx token_sha256 m e = (_, refl, record { sat = exactly_1; dsat = IsMaximum-never })
leaf_info-Finds ctx token_hash256 m e =
    (_, refl, record { sat = exactly_1; dsat = IsMaximum-never })
leaf_info-Finds ctx token_ripemd160 m e =
    (_, refl, record { sat = exactly_1; dsat = IsMaximum-never })
leaf_info-Finds ctx token_hash160 m e =
    (_, refl, record { sat = exactly_1; dsat = IsMaximum-never })
leaf_info-Finds ctx _ m e = cc

pub timelock_info-Finds :
    (t : PolicyNodeType) (n : ℕ) (m : Modes)
    → timelock_modes t ≡ some m
    → Finds (timelock_info t n) (leaf_ways t)
unfolding timelock_modes timelock_info
timelock_info-Finds token_older n m e = elim (Bool-cases (not (bit_and n (2 ^ 22) == 0))) [
  | inl b ↦ rw b (_, refl, record { sat = exactly_0; dsat = IsMaximum-never })
  | inr b ↦ rw b (_, refl, record { sat = exactly_0; dsat = IsMaximum-never })
]
timelock_info-Finds token_after n m e = elim (Bool-cases (leb 500000000 n)) [
  | inl b ↦ rw b (_, refl, record { sat = exactly_0; dsat = IsMaximum-never })
  | inr b ↦ rw b (_, refl, record { sat = exactly_0; dsat = IsMaximum-never })
]
timelock_info-Finds _ n m e = cc

pub multisig_info-Finds :
    (t : PolicyNodeType) (k n : ℕ) (m : Modes)
    → k ≤ n
    → n ≤ 16
    → multisig_modes t ≡ some m
    → Finds (multisig_info t k n) (multisig_ways t k n)
unfolding multisig_modes multisig_info
multisig_info-Finds token_multi k n m h few e =
    let exact = IsMaximum-exactly (k + 1) (omega arith) in
    (_, refl, record { sat = exact; dsat = exact })
multisig_info-Finds token_multi_a k n m h few e =
    let exact = IsMaximum-exactly n (omega arith) in (_, refl, record { sat = exact; dsat = exact })
multisig_info-Finds _ k n m h few e = cc

pub wrapper_info-Finds :
    (within_tr : Bool) (t : PolicyNodeType) (x m : Modes) (out : ExtInfo) (X : Ways)
    → wrapper_modes within_tr t x ≡ some m
    → HasMaxima out.ss X
    → Finds (wrapper_info t out) (wrapper_ways t X)
unfolding wrapper_modes wrapper_info
wrapper_info-Finds within token_a x m out X e h = (_, refl, record { sat = h.sat; dsat = h.dsat })
wrapper_info-Finds within token_s x m out X e h = (_, refl, record { sat = h.sat; dsat = h.dsat })
wrapper_info-Finds within token_c x m out X e h = (_, refl, record { sat = h.sat; dsat = h.dsat })
wrapper_info-Finds within token_n x m out X e h = (_, refl, record { sat = h.sat; dsat = h.dsat })
wrapper_info-Finds within token_d x m out X e h =
    (_, refl, record { sat = IsMaximum-sumcheck _ _ exactly_1 h.sat; dsat = exactly_1 })
wrapper_info-Finds within token_t x m out X e h =
    (_, refl, record { sat = h.sat; dsat = IsMaximum-never })
wrapper_info-Finds within token_v x m out X e h =
    (_, refl, record { sat = h.sat; dsat = IsMaximum-never })
wrapper_info-Finds within token_j x m out X e h =
    (_, refl, record { sat = h.sat; dsat = exactly_1 })
wrapper_info-Finds within token_l x m out X e h = (
  _,
  refl,
  record {
    sat = IsMaximum-sumcheck _ _ h.sat exactly_1;
    dsat = IsMaximum-maxcheck _ _ exactly_1 (IsMaximum-sumcheck _ _ h.dsat exactly_1);
  },
)
wrapper_info-Finds within token_u x m out X e h = (
  _,
  refl,
  record {
    sat = IsMaximum-sumcheck _ _ h.sat exactly_1;
    dsat = IsMaximum-maxcheck _ _ exactly_1 (IsMaximum-sumcheck _ _ h.dsat exactly_1);
  },
)
wrapper_info-Finds within _ x m out X e h = cc

module _ (x z m : Modes) (out1 out2 : ExtInfo) (X Z : Ways) (hx : HasMaxima out1.ss X)
    (hz : HasMaxima out2.ss Z) where
  x_then_z : IsMaximum (sumcheck out1.ss.sat out2.ss.sat) (Both (X true) (Z true))
  x_then_z = IsMaximum-sumcheck _ _ hx.sat hz.sat

  not_x_then_z : IsMaximum (sumcheck out1.ss.dsat out2.ss.sat) (Both (X false) (Z true))
  not_x_then_z = IsMaximum-sumcheck _ _ hx.dsat hz.sat

  neither : IsMaximum (sumcheck out1.ss.dsat out2.ss.dsat) (Both (X false) (Z false))
  neither = IsMaximum-sumcheck _ _ hx.dsat hz.dsat

  pub script2_info-Finds :
      (t : PolicyNodeType)
      → script2_modes t x z ≡ some m
      → Finds (script2_info t out1 out2) (script2_ways t X Z)
  unfolding script2_modes script2_info
  script2_info-Finds token_and_v e = (_, refl, record { sat = x_then_z; dsat = IsMaximum-never })
  script2_info-Finds token_and_b e = (_, refl, record { sat = x_then_z; dsat = neither })
  script2_info-Finds token_and_n e = (_, refl, record { sat = x_then_z; dsat = hx.dsat })
  script2_info-Finds token_or_b e = (
    _,
    refl,
    record {
      sat = IsMaximum-maxcheck _ _ not_x_then_z (IsMaximum-sumcheck _ _ hx.sat hz.dsat);
      dsat = neither;
    },
  )
  script2_info-Finds token_or_c e =
      (_, refl, record { sat = IsMaximum-maxcheck _ _ hx.sat not_x_then_z; dsat = IsMaximum-never })
  script2_info-Finds token_or_d e =
      (_, refl, record { sat = IsMaximum-maxcheck _ _ hx.sat not_x_then_z; dsat = neither })
  script2_info-Finds token_or_i e = (
    _,
    refl,
    record {
      sat =
          IsMaximum-maxcheck _ _ (IsMaximum-sumcheck _ _ hx.sat exactly_1)
            (IsMaximum-sumcheck _ _ hz.sat exactly_1);
      dsat =
          IsMaximum-maxcheck _ _ (IsMaximum-sumcheck _ _ hx.dsat exactly_1)
            (IsMaximum-sumcheck _ _ hz.dsat exactly_1);
    },
  )
  script2_info-Finds _ e = cc

pub andor_info-HasMaxima :
    (out1 out2 out3 : ExtInfo) (X Y Z : Ways)
    → HasMaxima out1.ss X
    → HasMaxima out2.ss Y
    → HasMaxima out3.ss Z
    → HasMaxima (andor_info out1 out2 out3).ss (andor_ways X Y Z)
unfolding andor_info
andor_info-HasMaxima out1 out2 out3 X Y Z hx hy hz = record {
  sat =
      IsMaximum-maxcheck _ _ (IsMaximum-sumcheck _ _ hx.sat hy.sat)
        (IsMaximum-sumcheck _ _ hx.dsat hz.sat);
  dsat = IsMaximum-sumcheck _ _ hx.dsat hz.dsat;
}
