-- ===== src/Miniscript/Typing.antt =====
-- src/common/wallet.c, `parse_script`: the checks on the types of the children of a miniscript node,
-- and the flags that the node gets. `none` is the error "invalid type".
use acre_ledger_app.Base.{ℕ, ◌+◌, Option, none, some, ◌>>=◌, List, [], ◌∷◌, length}
use acre_ledger_app.Base.{Bool, true, false, not, ◌&&◌, ◌||◌, ◌==◌, if◌then◌else◌}
use acre_ledger_app.Miniscript.Node.{
  PolicyNodeType, MiniscriptType, type_b, type_v, type_k, type_w, Modes, token_pk, token_pkh,
  token_multi, token_multi_a, token_0, token_1, token_pk_k, token_pk_h, token_older, token_after,
  token_sha256, token_hash256, token_ripemd160, token_hash160, token_and_v, token_and_b,
  token_and_n, token_or_b, token_or_c, token_or_d, token_or_i, token_a, token_s, token_c, token_t,
  token_d, token_v, token_j, token_n, token_l, token_u,
}

abbrev pub same_type : MiniscriptType → MiniscriptType → Bool
same_type type_b type_b = true
same_type type_v type_v = true
same_type type_k type_k = true
same_type type_w type_w = true
same_type _ _ = false

abbrev pub require : Bool → Modes → Option Modes
require true m = some m
require false m = none

abbrev pub modes : MiniscriptType → (z o n d u : Bool) → Modes
modes t z o n d u = record {
  miniscript_type = t;
  miniscript_mod_z = z;
  miniscript_mod_o = o;
  miniscript_mod_n = n;
  miniscript_mod_d = d;
  miniscript_mod_u = u;
}

abbrev constant_0_modes : Option Modes
constant_0_modes = some (modes type_b true false false true true)

abbrev constant_1_modes : Option Modes
constant_1_modes = some (modes type_b true false false false true)

abbrev sha256_modes : Option Modes
sha256_modes = some (modes type_b false true true true true)

abbrev hash256_modes : Option Modes
hash256_modes = some (modes type_b false true true true true)

abbrev ripemd160_modes : Option Modes
ripemd160_modes = some (modes type_b false true true true true)

abbrev hash160_modes : Option Modes
hash160_modes = some (modes type_b false true true true true)

abbrev pk_modes : Option Modes
pk_modes = some (modes type_b false true true true true)

abbrev pkh_modes : Option Modes
pkh_modes = some (modes type_b false false true true true)

abbrev pk_k_modes : Option Modes
pk_k_modes = some (modes type_k false true true true true)

abbrev pk_h_modes : Option Modes
pk_h_modes = some (modes type_k false false true true true)

-- The tokens without arguments, of keys and of hashes
unfoldable pub leaf_modes : PolicyNodeType → Option Modes
leaf_modes token_0 = constant_0_modes
leaf_modes token_1 = constant_1_modes
leaf_modes token_sha256 = sha256_modes
leaf_modes token_hash256 = hash256_modes
leaf_modes token_ripemd160 = ripemd160_modes
leaf_modes token_hash160 = hash160_modes
leaf_modes token_pk = pk_modes
leaf_modes token_pkh = pkh_modes
leaf_modes token_pk_k = pk_k_modes
leaf_modes token_pk_h = pk_h_modes
leaf_modes _ = none

unfoldable pub timelock_modes : PolicyNodeType → Option Modes
timelock_modes token_older = some (modes type_b true false false false false)
timelock_modes token_after = some (modes type_b true false false false false)
timelock_modes _ = none

-- `none` where `is_miniscript` is 0
unfoldable pub multisig_modes : PolicyNodeType → Option Modes
multisig_modes token_multi = some (modes type_b false false true true true)
multisig_modes token_multi_a = some (modes type_b false false false true true)
multisig_modes _ = none

unfoldable pub andor_modes : Modes → Modes → Modes → Option Modes
andor_modes X Y Z =
    require
      (same_type X.miniscript_type type_b
        && X.miniscript_mod_d
        && X.miniscript_mod_u
        && same_type Y.miniscript_type Z.miniscript_type
        && not (same_type Y.miniscript_type type_w))
      (modes Y.miniscript_type (X.miniscript_mod_z && Y.miniscript_mod_z && Z.miniscript_mod_z)
        ((X.miniscript_mod_z && Y.miniscript_mod_o && Z.miniscript_mod_o)
          || (X.miniscript_mod_o && Y.miniscript_mod_z && Z.miniscript_mod_z))
        false Z.miniscript_mod_d (Y.miniscript_mod_u && Z.miniscript_mod_u))

-- One of the two consumes nothing, and the other one element.
abbrev one_of_two : Modes → Modes → Bool
one_of_two X Y =
    (X.miniscript_mod_z && Y.miniscript_mod_o) || (X.miniscript_mod_o && Y.miniscript_mod_z)

abbrev both_z : Modes → Modes → Bool
both_z X Y = X.miniscript_mod_z && Y.miniscript_mod_z

abbrev and_v_modes : Modes → Modes → Option Modes
and_v_modes X Y =
    require (same_type X.miniscript_type type_v && not (same_type Y.miniscript_type type_w)) (
      modes Y.miniscript_type (both_z X Y) (one_of_two X Y)
        (X.miniscript_mod_n || (X.miniscript_mod_z && Y.miniscript_mod_n)) false Y.miniscript_mod_u)

abbrev and_b_modes : Modes → Modes → Option Modes
and_b_modes X Y =
    require (same_type X.miniscript_type type_b && same_type Y.miniscript_type type_w) (
      modes type_b (both_z X Y) (one_of_two X Y)
        (X.miniscript_mod_n || (X.miniscript_mod_z && Y.miniscript_mod_n))
        (X.miniscript_mod_d && Y.miniscript_mod_d) true)

abbrev and_n_modes : Modes → Modes → Option Modes
and_n_modes X Y =
    require
      (same_type X.miniscript_type type_b
        && X.miniscript_mod_d
        && X.miniscript_mod_u
        && same_type Y.miniscript_type type_b)
      (modes type_b (both_z X Y) (X.miniscript_mod_o && Y.miniscript_mod_z) false true
        Y.miniscript_mod_u)

abbrev or_b_modes : Modes → Modes → Option Modes
or_b_modes X Z =
    require
      (same_type X.miniscript_type type_b
        && X.miniscript_mod_d
        && same_type Z.miniscript_type type_w
        && Z.miniscript_mod_d)
      (modes type_b (both_z X Z) (one_of_two X Z) false true true)

abbrev or_c_modes : Modes → Modes → Option Modes
or_c_modes X Z =
    require
      (same_type X.miniscript_type type_b
        && X.miniscript_mod_d
        && X.miniscript_mod_u
        && same_type Z.miniscript_type type_v)
      (modes type_v (both_z X Z) (X.miniscript_mod_o && Z.miniscript_mod_z) false false false)

abbrev or_d_modes : Modes → Modes → Option Modes
or_d_modes X Z =
    require
      (same_type X.miniscript_type type_b
        && X.miniscript_mod_d
        && X.miniscript_mod_u
        && same_type Z.miniscript_type type_b)
      (modes type_b (both_z X Z) (X.miniscript_mod_o && Z.miniscript_mod_z) false Z.miniscript_mod_d
        Z.miniscript_mod_u)

abbrev or_i_modes : Modes → Modes → Option Modes
or_i_modes X Z =
    require
      (not (same_type X.miniscript_type type_w) && same_type X.miniscript_type Z.miniscript_type)
      (modes X.miniscript_type false (both_z X Z) false (X.miniscript_mod_d || Z.miniscript_mod_d)
        (X.miniscript_mod_u && Z.miniscript_mod_u))

unfoldable pub script2_modes : PolicyNodeType → Modes → Modes → Option Modes
script2_modes token_and_v X Y = and_v_modes X Y
script2_modes token_and_b X Y = and_b_modes X Y
script2_modes token_and_n X Y = and_n_modes X Y
script2_modes token_or_b X Z = or_b_modes X Z
script2_modes token_or_c X Z = or_c_modes X Z
script2_modes token_or_d X Z = or_d_modes X Z
script2_modes token_or_i X Z = or_i_modes X Z
script2_modes _ X Y = none

-- A wrapper on `X`. The first argument is true within tr.
unfoldable pub wrapper_modes : Bool → PolicyNodeType → Modes → Option Modes
wrapper_modes within_tr token_a X =
    require (same_type X.miniscript_type type_b)
      (modes type_w false false false X.miniscript_mod_d X.miniscript_mod_u)
wrapper_modes within_tr token_s X =
    require (same_type X.miniscript_type type_b && X.miniscript_mod_o)
      (modes type_w false false false X.miniscript_mod_d X.miniscript_mod_u)
wrapper_modes within_tr token_c X =
    require (same_type X.miniscript_type type_k)
      (modes type_b false X.miniscript_mod_o X.miniscript_mod_n X.miniscript_mod_d true)
wrapper_modes within_tr token_t X =
    require (same_type X.miniscript_type type_v)
      (modes type_b X.miniscript_mod_z X.miniscript_mod_o X.miniscript_mod_n false true)
wrapper_modes within_tr token_d X =
    require (same_type X.miniscript_type type_v && X.miniscript_mod_z)
      (modes type_b false true true true within_tr)
wrapper_modes within_tr token_v X =
    require (same_type X.miniscript_type type_b)
      (modes type_v X.miniscript_mod_z X.miniscript_mod_o X.miniscript_mod_n false false)
wrapper_modes within_tr token_j X =
    require (same_type X.miniscript_type type_b && X.miniscript_mod_n)
      (modes type_b false X.miniscript_mod_o true true X.miniscript_mod_u)
wrapper_modes within_tr token_n X =
    require (same_type X.miniscript_type type_b) (
      modes type_b X.miniscript_mod_z X.miniscript_mod_o X.miniscript_mod_n X.miniscript_mod_d true)
wrapper_modes within_tr token_l X =
    require (same_type X.miniscript_type type_b)
      (modes type_b false X.miniscript_mod_z false true X.miniscript_mod_u)
wrapper_modes within_tr token_u X =
    require (same_type X.miniscript_type type_b)
      (modes type_b false X.miniscript_mod_z false true X.miniscript_mod_u)
wrapper_modes within_tr _ X = none

abbrev pub count : Bool → ℕ
count b = if b then 1 else 0

-- The checks on a child of thresh: the first is of type B, and the others are of type W.
unfoldable pub check_child : MiniscriptType → Modes → Option (ℕ × ℕ)
check_child wanted X =
    if same_type X.miniscript_type wanted && X.miniscript_mod_d && X.miniscript_mod_u
    then some (count X.miniscript_mod_z, count X.miniscript_mod_o)
    else none

-- `count_z` and `count_o`
unfoldable pub count_children : MiniscriptType → List Modes → Option (ℕ × ℕ)
count_children wanted [] = some (0, 0)
count_children wanted (X ∷ Xs) = do
  r ← check_child wanted X
  rest ← count_children type_w Xs
  some (r.0 + rest.0, r.1 + rest.1)

unfoldable pub thresh_modes : List Modes → Option Modes
thresh_modes Xs = do
  r ← count_children type_b Xs
  some (modes type_b (r.0 == length Xs) ((r.0 + 1 == length Xs) && (r.1 == 1)) false true true)
