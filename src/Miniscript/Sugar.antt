-- ===== src/Miniscript/Sugar.antt =====
-- src/common/wallet.c, `parse_script`: the fragments that stand for others have the types of those.
use acre_ledger_app.Base.{◌≡◌, refl, ◌>>=◌, Bool, true, false, ◌&&◌, ◌||◌}
use acre_ledger_app.Miniscript.Node.{
  MiniscriptType, type_b, type_v, Modes, token_pk, token_pkh, token_0, token_1, token_pk_k,
  token_pk_h, token_and_v, token_and_n, token_or_i, token_c, token_t, token_l, token_u,
}
use acre_ledger_app.Miniscript.Typing.{modes, leaf_modes, wrapper_modes, script2_modes, andor_modes}

-- The flags of 0 and of 1
abbrev pub modes_0 : Modes
modes_0 = record {
  miniscript_type = type_b;
  miniscript_mod_z = true;
  miniscript_mod_o = false;
  miniscript_mod_n = false;
  miniscript_mod_d = true;
  miniscript_mod_u = true;
}

abbrev pub modes_1 : Modes
modes_1 = record modes_0 { miniscript_mod_d = false }

and_true : (a : Bool) → (a && true) ≡ a
and_true true = refl
and_true false = refl

and_false : (a : Bool) → (a && false) ≡ false
and_false true = refl
and_false false = refl

or_false : (a : Bool) → (a || false) ≡ a
or_false true = refl
or_false false = refl

or_true : (a : Bool) → (a || true) ≡ true
or_true true = refl
or_true false = refl

or_i_zero :
    (within_tr : Bool) (t : MiniscriptType) (z o n d u : Bool)
    → wrapper_modes within_tr token_l (modes t z o n d u)
      ≡ script2_modes token_or_i modes_0 (modes t z o n d u)
unfolding wrapper_modes script2_modes
or_i_zero within type_b z o n d u = refl
or_i_zero within _ z o n d u = refl

zero_or_i :
    (within_tr : Bool) (t : MiniscriptType) (z o n d u : Bool)
    → wrapper_modes within_tr token_u (modes t z o n d u)
      ≡ script2_modes token_or_i (modes t z o n d u) modes_0
unfolding wrapper_modes script2_modes
zero_or_i within type_b z o n d u = rw (and_true z, or_true d, and_true u) refl
zero_or_i within _ z o n d u = refl

and_v_one :
    (within_tr : Bool) (t : MiniscriptType) (z o n d u : Bool)
    → wrapper_modes within_tr token_t (modes t z o n d u)
      ≡ script2_modes token_and_v (modes t z o n d u) modes_1
unfolding wrapper_modes script2_modes
and_v_one within type_v z o n d u = rw (and_true z, and_false z, and_true o, or_false n) refl
and_v_one within _ z o n d u = refl

andor_zero :
    (t : MiniscriptType) (z o n d u : Bool) (Y : Modes) (t' : MiniscriptType)
    → script2_modes token_and_n (modes t z o n d u) (record Y { miniscript_type = t' })
      ≡ andor_modes (modes t z o n d u) (record Y { miniscript_type = t' }) modes_0
unfolding script2_modes andor_modes
andor_zero type_b z o n true true Y type_b =
    rw
      (
        and_true (z && Y.miniscript_mod_z),
        and_false (z && Y.miniscript_mod_o),
        and_true (o && Y.miniscript_mod_z),
        and_true Y.miniscript_mod_u,
      )
      refl
andor_zero type_b z o n true true Y _ = refl
andor_zero type_b z o n true false Y t' = refl
andor_zero type_b z o n false u Y t' = refl
andor_zero _ z o n d u Y t' = refl

-- The fragments that the comments explain by others get the types, or the errors, of those, for all
-- arguments: l:X is or_i(0,X), u:X is or_i(X,0), t:X is and_v(X,1), and_n(X,Y) is andor(X,Y,0), pk(key)
-- is c:pk_k(key), and pkh(key) is c:pk_h(key).
pub wrapper_modes-script2_modes :
    (within_tr : Bool) (X Y : Modes)
    → (wrapper_modes within_tr token_l X
        ≡ (leaf_modes token_0 >>= λ zero. script2_modes token_or_i zero X))
      × (wrapper_modes within_tr token_u X
          ≡ (leaf_modes token_0 >>= λ zero. script2_modes token_or_i X zero))
      × (wrapper_modes within_tr token_t X
          ≡ (leaf_modes token_1 >>= λ one. script2_modes token_and_v X one))
      × (script2_modes token_and_n X Y ≡ (leaf_modes token_0 >>= λ zero. andor_modes X Y zero))
      × (leaf_modes token_pk ≡ (leaf_modes token_pk_k >>= wrapper_modes within_tr token_c))
      × (leaf_modes token_pkh ≡ (leaf_modes token_pk_h >>= wrapper_modes within_tr token_c))
unfolding leaf_modes wrapper_modes
wrapper_modes-script2_modes within X Y = (
  or_i_zero within X.miniscript_type X.miniscript_mod_z X.miniscript_mod_o X.miniscript_mod_n
      X.miniscript_mod_d X.miniscript_mod_u,
  zero_or_i within X.miniscript_type X.miniscript_mod_z X.miniscript_mod_o X.miniscript_mod_n
      X.miniscript_mod_d X.miniscript_mod_u,
  and_v_one within X.miniscript_type X.miniscript_mod_z X.miniscript_mod_o X.miniscript_mod_n
      X.miniscript_mod_d X.miniscript_mod_u,
  andor_zero X.miniscript_type X.miniscript_mod_z X.miniscript_mod_o X.miniscript_mod_n
      X.miniscript_mod_d X.miniscript_mod_u Y Y.miniscript_type,
  refl,
  refl,
)
