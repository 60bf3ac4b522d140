-- ===== src/Miniscript/Accepted/Whole.antt =====
-- src/common/wallet.c: the templates that `parse_descriptor_template` ensures.
use acre_ledger_app.Base.{
  ℕ, zero, suc, ◌+◌, ◌-◌, ◌^◌, ◌≤◌, ◌<◌, arith, ◌≡◌, refl, Option, none, some, List, [], ◌∷◌, Bool,
  true, false, if◌then◌else◌, Memory,
}
use acre_ledger_app.Buffer
use acre_ledger_app.Buffer.{Buffer}
use acre_ledger_app.Miniscript.Node.{
  PolicyNodeType, PolicyNode, PolicyTree, token_sh, token_wsh, token_pk, token_pkh, token_wpkh,
  token_multi, token_multi_a, token_sortedmulti, token_sortedmulti_a, token_tr, token_0, token_1,
  token_pk_k, token_pk_h, token_older, token_after, token_sha256, token_hash256, token_ripemd160,
  token_hash160, token_andor, token_and_v, token_and_b, token_and_n, token_or_b, token_or_c,
  token_or_d, token_or_i, token_thresh,
}
use acre_ledger_app.Miniscript.Typed.{IsTyped}
use acre_ledger_app.Miniscript.Parser.{Setup, Parser}
use acre_ledger_app.Miniscript.Fragment.{Context, ScriptParser}
use acre_ledger_app.Miniscript.Parse.{
  parse_arguments, apply_wrappers, script_body, tree_body, parse_script, parse_tree, within_tr_only,
  with_size, no_context, parse_descriptor_template,
}
use acre_ledger_app.Miniscript.Ensures.{
  Ensures, then_use, skip, lifted, returned, failed, faulted, either_branch,
}
use acre_ledger_app.Miniscript.Rules.Checks.{wrapper_modes-WrapperRule}
use acre_ledger_app.Miniscript.Accepted.{
  IsAccepted, IsAcceptedTree, IsParsed, IsParsedTree, IsParsed-IsTyped, Good, GoodTree,
}
use acre_ledger_app.Miniscript.Accepted.Fragments.{
  parse_constant-ensures, parse_hash_256-ensures, parse_hash_160-ensures, parse_script2-ensures,
  parse_andor-ensures, parse_key-ensures, parse_timelock-ensures, parse_multisig-ensures,
  parse_wrapped-ensures, parse_tr-ensures,
}
use acre_ledger_app.Miniscript.Accepted.Scripts.{parse_thresh-ensures}

apply_wrappers-ensures :
    (w : Bool) (ts : List PolicyNodeType) (node : PolicyNode)
    → Good w node
    → Ensures (apply_wrappers w ts node) (Good w)
unfolding apply_wrappers IsParsed IsAccepted IsTyped
apply_wrappers-ensures w [] node h = returned _ h
apply_wrappers-ensures w (t ∷ ts) node h = then_use (apply_wrappers-ensures w ts node h) (λ X hX.
    lifted (λ x ex. lifted (λ m em. returned _ (
      (x, ex, IsParsed-IsTyped w X x hX.0 ex, (m, refl, em)),
      (x, ex, hX.1, wrapper_modes-WrapperRule w t x m em),
    ))))

module _ (setup : Setup) (script : ScriptParser) (tree : ℕ → Parser PolicyTree)
    (ensures : (depth : ℕ) (context : Context)
      → Ensures (script depth context) (Good context.within_tr))
    (tree_ensures : (depth : ℕ) → Ensures (tree depth) GoodTree) where
  parse_arguments-ensures :
      (fuel depth : ℕ) (context : Context) (token : PolicyNodeType)
      → fuel < 2 ^ 15
      → Ensures
          (parse_arguments setup script tree fuel depth context token)
          (Good context.within_tr)
  unfolding parse_arguments
  parse_arguments-ensures fuel depth context token_0 small = parse_constant-ensures setup _ token_0
  parse_arguments-ensures fuel depth context token_1 small = parse_constant-ensures setup _ token_1
  parse_arguments-ensures fuel depth context token_sha256 small =
      parse_hash_256-ensures setup _ token_sha256
  parse_arguments-ensures fuel depth context token_hash256 small =
      parse_hash_256-ensures setup _ token_hash256
  parse_arguments-ensures fuel depth context token_ripemd160 small =
      parse_hash_160-ensures setup _ token_ripemd160
  parse_arguments-ensures fuel depth context token_hash160 small =
      parse_hash_160-ensures setup _ token_hash160
  parse_arguments-ensures fuel depth context token_pk small =
      parse_key-ensures setup _ token_pk depth context
  parse_arguments-ensures fuel depth context token_pkh small =
      parse_key-ensures setup _ token_pkh depth context
  parse_arguments-ensures fuel depth context token_pk_k small =
      parse_key-ensures setup _ token_pk_k depth context
  parse_arguments-ensures fuel depth context token_pk_h small =
      parse_key-ensures setup _ token_pk_h depth context
  parse_arguments-ensures fuel depth context token_wpkh small =
      parse_key-ensures setup _ token_wpkh depth context
  parse_arguments-ensures fuel depth context token_older small =
      parse_timelock-ensures setup _ token_older
  parse_arguments-ensures fuel depth context token_after small =
      parse_timelock-ensures setup _ token_after
  parse_arguments-ensures fuel depth context token_multi small =
      parse_multisig-ensures setup fuel depth context _ token_multi (omega arith)
  parse_arguments-ensures fuel depth context token_multi_a small =
      parse_multisig-ensures setup fuel depth context _ token_multi_a (omega arith)
  parse_arguments-ensures fuel depth context token_sortedmulti small =
      parse_multisig-ensures setup fuel depth context _ token_sortedmulti (omega arith)
  parse_arguments-ensures fuel depth context token_sortedmulti_a small =
      parse_multisig-ensures setup fuel depth context _ token_sortedmulti_a (omega arith)
  parse_arguments-ensures fuel depth context token_and_v small =
      parse_script2-ensures setup script ensures depth context token_and_v
  parse_arguments-ensures fuel depth context token_and_b small =
      parse_script2-ensures setup script ensures depth context token_and_b
  parse_arguments-ensures fuel depth context token_and_n small =
      parse_script2-ensures setup script ensures depth context token_and_n
  parse_arguments-ensures fuel depth context token_or_b small =
      parse_script2-ensures setup script ensures depth context token_or_b
  parse_arguments-ensures fuel depth context token_or_c small =
      parse_script2-ensures setup script ensures depth context token_or_c
  parse_arguments-ensures fuel depth context token_or_d small =
      parse_script2-ensures setup script ensures depth context token_or_d
  parse_arguments-ensures fuel depth context token_or_i small =
      parse_script2-ensures setup script ensures depth context token_or_i
  parse_arguments-ensures fuel depth context token_andor small =
      parse_andor-ensures setup script ensures depth context
  parse_arguments-ensures fuel depth context token_thresh small =
      parse_thresh-ensures setup script ensures fuel depth context small
  parse_arguments-ensures fuel depth context token_sh small = skip _ (λ _.
      parse_wrapped-ensures setup script ensures depth (record context { within_sh = true })
        token_sh)
  parse_arguments-ensures fuel depth context token_wsh small = skip _ (λ _.
      parse_wrapped-ensures setup script ensures depth (record context { within_wsh = true })
        token_wsh)
  parse_arguments-ensures fuel depth context token_tr small =
      parse_tr-ensures setup tree tree_ensures depth _
  parse_arguments-ensures fuel depth context _ small = failed

  script_body-ensures :
      (fuel depth : ℕ) (context : Context)
      → fuel < 2 ^ 15
      → Ensures (script_body setup script tree fuel depth context) (Good context.within_tr)
  unfolding script_body
  script_body-ensures fuel depth context small = skip _ (λ wrappers. skip _ (λ token. skip _ (λ _.
      skip _ (λ _. then_use (parse_arguments-ensures fuel depth context token small) (λ node h.
        skip _ (λ _.
          skip _
            (λ more. skip _ (λ _. apply_wrappers-ensures context.within_tr wrappers node h))))))))

  tree_body-ensures : (depth : ℕ) → Ensures (tree_body setup script tree depth) GoodTree
  unfolding tree_body IsParsedTree IsAcceptedTree
  tree_body-ensures depth = skip _ (λ _. skip _ (λ _. skip _ (λ _. skip _ (λ c. skip _ (λ _.
      either_branch _
        (skip _ (λ _. then_use (ensures (depth + 1) within_tr_only) (λ X h. returned _ h)))
        (skip _ (λ _. skip _ (λ _. then_use (tree_ensures (depth + 1)) (λ left hl. skip _ (λ _.
          skip _ (λ _.
            then_use (tree_ensures (depth + 1))
              (λ right hr. skip _ (λ _. returned _ ((hl.0, hr.0), (hl.1, hr.1)))))))))))))))

mutual
  unfolding parse_script parse_tree

  parse_script-ensures :
      (setup : Setup) (fuel depth : ℕ) (context : Context)
      → fuel ≤ 2 ^ 15
      → Ensures (parse_script setup fuel depth context) (Good context.within_tr)
  parse_script-ensures setup zero depth context small = faulted
  parse_script-ensures setup (suc fuel) depth context small =
      script_body-ensures setup _ _
        (λ depth context. parse_script-ensures setup fuel depth context (omega arith))
        (λ depth. parse_tree-ensures setup fuel depth (omega arith)) fuel depth context
        (omega arith)

  parse_tree-ensures :
      (setup : Setup) (fuel depth : ℕ)
      → fuel ≤ 2 ^ 15
      → Ensures (parse_tree setup fuel depth) GoodTree
  parse_tree-ensures setup zero depth small = faulted
  parse_tree-ensures setup (suc fuel) depth small =
      tree_body-ensures setup _ _
        (λ depth context. parse_script-ensures setup fuel depth context (omega arith))
        (λ depth. parse_tree-ensures setup fuel depth (omega arith)) depth

template-inverts :
    (refused : Bool) (o : Option (Option (PolicyNode × Buffer × Buffer))) (node : PolicyNode)
    (n : ℕ)
    → (if refused then some none else with_size o) ≡ some (some (node, n))
    → (in_buf : Buffer) × (out_buf : Buffer) × (o ≡ some (some (node, in_buf, out_buf)))
template-inverts true o node n e = cc
template-inverts false none node n e = cc
template-inverts false (some none) node n e = cc
template-inverts false (some (some (node', in_buf, out_buf))) node n e = (in_buf, out_buf, cc)

parse_descriptor_template-ensures :
    (setup : Setup) (in_buf : Buffer) (out : Memory) (out_len : ℕ) (node : PolicyNode) (n : ℕ)
    → in_buf.size < 2 ^ 15 - 1
    → parse_descriptor_template setup in_buf out out_len ≡ some (some (node, n))
    → Good false node
unfolding parse_descriptor_template
parse_descriptor_template-ensures setup in_buf out out_len node n short e =
    let fuel : ℕ = in_buf.size - in_buf.offset + 1 in
    let r =
      template-inverts _ (parse_script setup fuel 0 no_context in_buf (Buffer.create out out_len))
        node n e in
    (parse_script-ensures setup fuel 0 no_context (omega arith)).holds in_buf _ node r.0 r.1 r.2

-- When `parse_descriptor_template`, on a text of at most 2 ^ 15 - 2 characters, gives a root node,
-- whatever the characters, the version, the address and the size of the output buffer, then every node
-- with flags has those that the type rules of the language give, for its context, from the flags of
-- its children, and the children have what the rules ask for; so it is within sh, wsh and the leaves
-- of tr. Every timelock is from 1 up to 2 ^ 31 - 1, every threshold of a thresh is at least 1, and
-- every threshold of a multi is at least 1 and at most the number of its keys, of which there are at
-- most 16. The rules are those of the tables of miniscript and not the checks of the parser.
pub parse_descriptor_template-IsAccepted :
    (setup : Setup) (in_buf : Buffer) (out : Memory) (out_len : ℕ) (node : PolicyNode) (n : ℕ)
    → in_buf.size < 2 ^ 15 - 1
    → parse_descriptor_template setup in_buf out out_len ≡ some (some (node, n))
    → IsAccepted false node
parse_descriptor_template-IsAccepted setup in_buf out out_len node n short e =
    (parse_descriptor_template-ensures setup in_buf out out_len node n short e).1

pub parse_descriptor_template-IsParsed :
    (setup : Setup) (in_buf : Buffer) (out : Memory) (out_len : ℕ) (node : PolicyNode) (n : ℕ)
    → in_buf.size < 2 ^ 15 - 1
    → parse_descriptor_template setup in_buf out out_len ≡ some (some (node, n))
    → IsParsed false node
parse_descriptor_template-IsParsed setup in_buf out out_len node n short e =
    (parse_descriptor_template-ensures setup in_buf out out_len node n short e).0
