-- ===== src/Miniscript/Tests.antt =====
-- src/common/wallet.c and src/handler/lib/policy.c: the analysis of small miniscripts.
use acre_ledger_app.Base.{ℕ, ◌≡◌, ◌≤◌, refl, arith, some, [], ◌∷◌, ◌>>=◌, true, false}
use acre_ledger_app.Policy.Placeholder.{KeyPlaceholder}
use acre_ledger_app.Script.{get_push_script_size}
use acre_ledger_app.Miniscript.Node.{
  type_b, type_v, type_w, PolicyNode, with_script, with_script2, with_key, with_uint32, thresh, nil,
  cons, node_flags, token_pk, token_pkh, token_0, token_1, token_pk_k, token_pk_h, token_older,
  token_and_v, token_and_n, token_or_i, token_thresh, token_s, token_c, token_t, token_v, token_l,
  token_u,
}
use acre_ledger_app.Miniscript.Amount.{
  next_tail, next_sats, sats_loop, read_sats, sumcheck, maxcheck,
}
use acre_ledger_app.Miniscript.Info.{ExtInfo, p2wsh, leaf_info, wrapper_info}
use acre_ledger_app.Miniscript.Thresh.{
  thresh_amounts, thresh_count, compute_thresh_ops, compute_thresh_stacksize, children_loop,
  thresh_info,
}
use acre_ledger_app.Miniscript.Analysis.{
  compute_miniscript_policy_ext_info, is_miniscript_sane, check_info, check_sizes, sane_with,
}
use acre_ledger_app.Miniscript.Typing.{
  modes, leaf_modes, wrapper_modes, script2_modes, andor_modes, check_child, count_children,
  thresh_modes,
}
use acre_ledger_app.Miniscript.Typed.{IsTyped, IsBounded}
use acre_ledger_app.Miniscript.Ways.{script_ways}
use acre_ledger_app.Miniscript.Maximum.{IsMaximum}
use acre_ledger_app.Miniscript.Stack.Whole.{
  compute_miniscript_policy_ext_info-ways, is_miniscript_sane-items,
}
use acre_ledger_app.Miniscript.Sugar.{wrapper_modes-script2_modes}

abbrev key : ℕ → KeyPlaceholder
key i = record { key_index = i; num_first = 0; num_second = 1 }

abbrev pk : ℕ → PolicyNode
pk i = with_key token_pk (some (modes type_b false true true true true)) (key i)

abbrev s_pk : ℕ → PolicyNode
s_pk i = with_script token_s (some (modes type_w false false false true true)) (pk i)

-- thresh(2,pk(@0/**),s:pk(@1/**))
abbrev two_keys : PolicyNode
two_keys =
    thresh token_thresh (some (modes type_b false false false true true)) 2
      (cons (pk 0) (cons (s_pk 1) nil))

two_keys-IsTyped : IsTyped false two_keys
unfolding node_flags IsTyped leaf_modes wrapper_modes thresh_modes count_children check_child
two_keys-IsTyped = (
  modes type_b false true true true true ∷ modes type_w false false false true true ∷ [],
  (refl, (_, refl, refl), (refl, (_, refl, (_, refl, refl), (_, refl, refl)), tt)),
  (_, refl, refl),
)

two_keys-IsBounded : IsBounded two_keys
unfolding IsBounded
two_keys-IsBounded = (omega arith, omega arith, (tt, (tt, tt)))

compute_miniscript_policy_ext_info-ways_example :
    (out : ExtInfo) × (compute_miniscript_policy_ext_info p2wsh two_keys ≡ some (some out))
    × IsMaximum out.ss.sat (script_ways two_keys true)
    × IsMaximum out.ss.dsat (script_ways two_keys false)
compute_miniscript_policy_ext_info-ways_example =
    compute_miniscript_policy_ext_info-ways p2wsh false two_keys two_keys-IsTyped two_keys-IsBounded

two_keys_sane : is_miniscript_sane p2wsh two_keys ≡ some (some tt)
unfolding is_miniscript_sane sane_with node_flags compute_miniscript_policy_ext_info leaf_info
    wrapper_info thresh_info compute_thresh_ops thresh_amounts read_sats sats_loop next_sats
    next_tail compute_thresh_stacksize check_info children_loop check_sizes sumcheck maxcheck
    thresh_count get_push_script_size
two_keys_sane = refl

is_miniscript_sane-items_example :
    (items : ℕ) × (items ≤ 100) × IsMaximum (some items) (script_ways two_keys true)
is_miniscript_sane-items_example =
    is_miniscript_sane-items p2wsh false two_keys two_keys-IsTyped two_keys-IsBounded two_keys_sane

-- and_v(v:pk(@0/**),older(12960))
abbrev key_and_delay : PolicyNode
key_and_delay =
    with_script2 token_and_v (some (modes type_b false true true false false))
      (with_script token_v (some (modes type_v false true true false false)) (pk 0))
      (with_uint32 token_older (some (modes type_b true false false false false)) 12960)

-- X is v:pk(@0/**) and Y is pk(@1/**).
wrapper_modes-script2_modes_example :
    (wrapper_modes false token_l (modes type_v false true true false false) ≡ (
      leaf_modes token_0 >>= λ zero.
      script2_modes token_or_i zero (modes type_v false true true false false)))
    × (wrapper_modes false token_u (modes type_v false true true false false) ≡ (
        leaf_modes token_0 >>= λ zero.
        script2_modes token_or_i (modes type_v false true true false false) zero))
    × (wrapper_modes false token_t (modes type_v false true true false false) ≡ (
        leaf_modes token_1 >>= λ one.
        script2_modes token_and_v (modes type_v false true true false false) one))
    × (script2_modes token_and_n
          (modes type_v false true true false false)
          (modes type_b false true true true true)
        ≡ (leaf_modes token_0 >>= λ zero.
            andor_modes
              (modes type_v false true true false false)
              (modes type_b false true true true true)
              zero))
    × (leaf_modes token_pk ≡ (leaf_modes token_pk_k >>= wrapper_modes false token_c))
    × (leaf_modes token_pkh ≡ (leaf_modes token_pk_h >>= wrapper_modes false token_c))
wrapper_modes-script2_modes_example =
    wrapper_modes-script2_modes false (modes type_v false true true false false)
      (modes type_b false true true true true)
