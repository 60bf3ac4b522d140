-- ===== src/Miniscript/Analysis.antt =====
-- src/common/wallet.c, `compute_miniscript_policy_ext_info`, and the sanity checks of
-- src/handler/lib/policy.c.
use acre_ledger_app.Base.{
  ℕ, ◌+◌, Option, none, some, List, [], ◌∷◌, length, not, ltb, if◌then◌else◌,
}
use acre_ledger_app.Miniscript.Node.{
  PolicyNodeType, MiniscriptType, type_b, Flags, PolicyNode, constant, with_script, with_script2,
  with_script3, with_key, with_uint32, multisig, thresh, with_hash_160, with_hash_256, tr_key,
  tr_tree, ScriptList, nil, cons, PolicyTree, leaf, branch, node_flags, token_wsh, token_andor,
}
use acre_ledger_app.Miniscript.Amount.{Amount}
use acre_ledger_app.Miniscript.Info.{
  ExtInfo, MiniscriptContext, p2wsh, tapscript, leaf_info, multisig_info, timelock_info,
  wrapper_info,
}
use acre_ledger_app.Miniscript.Script2.{script2_info, andor_info}
use acre_ledger_app.Miniscript.Thresh.{Outcome, ◌>>=◌, returns, thresh_info}

-- The check of `is_miniscript`
abbrev if_miniscript : Flags → Outcome ExtInfo → Outcome ExtInfo
if_miniscript none out = some none
if_miniscript (some m) out = out

abbrev andor_only : PolicyNodeType → Outcome ExtInfo → Outcome ExtInfo
andor_only token_andor out = out
andor_only _ out = some none

unfoldable mutual
  pub compute_miniscript_policy_ext_info : MiniscriptContext → PolicyNode → Outcome ExtInfo
  compute_miniscript_policy_ext_info ctx (constant t f) = if_miniscript f (some (leaf_info ctx t))
  compute_miniscript_policy_ext_info ctx (with_key t f key) =
      if_miniscript f (some (leaf_info ctx t))
  compute_miniscript_policy_ext_info ctx (with_hash_160 t f h) =
      if_miniscript f (some (leaf_info ctx t))
  compute_miniscript_policy_ext_info ctx (with_hash_256 t f h) =
      if_miniscript f (some (leaf_info ctx t))
  compute_miniscript_policy_ext_info ctx (with_uint32 t f n) =
      if_miniscript f (some (timelock_info t n))
  compute_miniscript_policy_ext_info ctx (multisig t f k keys) =
      if_miniscript f (some (multisig_info t k (length keys)))
  compute_miniscript_policy_ext_info ctx (with_script t f X) =
      let rest = compute_miniscript_policy_ext_info ctx X in
      if_miniscript f (rest >>= λ x. some (wrapper_info t x))
  compute_miniscript_policy_ext_info ctx (with_script2 t f X Y) =
      let first = compute_miniscript_policy_ext_info ctx X in
      let second = compute_miniscript_policy_ext_info ctx Y in
      if_miniscript f (first >>= λ x. second >>= λ y. some (script2_info t x y))
  compute_miniscript_policy_ext_info ctx (with_script3 t f X Y Z) =
      let first = compute_miniscript_policy_ext_info ctx X in
      let second = compute_miniscript_policy_ext_info ctx Y in
      let third = compute_miniscript_policy_ext_info ctx Z in
      if_miniscript f
        (andor_only t (first >>= λ x. second >>= λ y. third >>= λ z. returns (andor_info x y z)))
  compute_miniscript_policy_ext_info ctx (thresh t f k scripts) =
      let children = compute_children ctx scripts in
      if_miniscript f (children >>= λ ts. thresh_info k ts)
  compute_miniscript_policy_ext_info ctx (tr_key t f key) = some none
  compute_miniscript_policy_ext_info ctx (tr_tree t f key tree) = some none

  pub compute_children : MiniscriptContext → ScriptList → Outcome (List ExtInfo)
  compute_children ctx nil = returns []
  compute_children ctx (cons X rest) =
      let first = compute_miniscript_policy_ext_info ctx X in
      let others = compute_children ctx rest in first >>= λ t. others >>= λ ts. returns (t ∷ ts)

abbrev max_standard_p2wsh_stack_items : ℕ
max_standard_p2wsh_stack_items = 100

abbrev max_standard_p2wsh_script_size : ℕ
max_standard_p2wsh_script_size = 3600

abbrev max_ops_per_script : ℕ
max_ops_per_script = 201

-- The checks on the sizes: the stack elements, the opcodes, and the size of the script. `none` is -1.
unfoldable pub check_sizes : Amount → Amount → ℕ → ℕ → Option (Unit {0})
check_sizes none ops_sat count script_size = none
check_sizes (some items) none count script_size = none
check_sizes (some items) (some keys) count script_size =
    if ltb max_standard_p2wsh_stack_items items
    then none
    else if ltb max_ops_per_script (count + keys)
    then none
    else if ltb max_standard_p2wsh_script_size script_size
    then none
    else some tt

-- The checks on the results
unfoldable pub check_info : ExtInfo → Option (Unit {0})
check_info ext_info =
    if not ext_info.m
    then none
    else if not ext_info.s
    then none
    else if not ext_info.k
    then none
    else check_sizes ext_info.ss.sat ext_info.ops.sat ext_info.ops.count ext_info.script_size

abbrev pub if_type_b : MiniscriptType → Outcome (Unit {0}) → Outcome (Unit {0})
if_type_b type_b out = out
if_type_b _ out = some none

-- The checks, with what the analysis of the script returns
unfoldable pub sane_with : Flags → Outcome ExtInfo → Outcome (Unit {0})
sane_with none analysis = some none
sane_with (some flags) analysis =
    if_type_b flags.miniscript_type (analysis >>= λ ext_info. some (check_info ext_info))

unfoldable pub is_miniscript_sane : MiniscriptContext → PolicyNode → Outcome (Unit {0})
is_miniscript_sane context script =
    sane_with (node_flags script) (compute_miniscript_policy_ext_info context script)

unfoldable pub is_taptree_miniscript_sane : PolicyTree → Outcome (Unit {0})
is_taptree_miniscript_sane (leaf script) = elim (node_flags script) [
  | none ↦ returns tt
  | some flags ↦ is_miniscript_sane tapscript script
]
is_taptree_miniscript_sane (branch left_tree right_tree) =
    let left = is_taptree_miniscript_sane left_tree in
    let right = is_taptree_miniscript_sane right_tree in left >>= λ _. right

-- The part of `is_policy_sane` before the keys
unfoldable pub is_policy_miniscript_sane : PolicyNode → Outcome (Unit {0})
is_policy_miniscript_sane (with_script token_wsh f inner) = elim (node_flags inner) [
  | none ↦ returns tt
  | some flags ↦ is_miniscript_sane p2wsh inner
]
is_policy_miniscript_sane (tr_tree t f key taptree) = is_taptree_miniscript_sane taptree
is_policy_miniscript_sane _ = returns tt
