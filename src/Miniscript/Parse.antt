-- ===== src/Miniscript/Parse.antt =====
-- src/common/wallet.c: `parse_script`, `parse_tree` and `parse_descriptor_template`.
use acre_ledger_app.Base.{
  ℕ, zero, suc, ◌+◌, ◌-◌, ◌%◌, Option, none, some, List, [], ◌∷◌, Bool, true, false, not, ◌&&◌,
  ◌||◌, ◌==◌, leb, if◌then◌else◌, Memory,
}
use acre_ledger_app.Buffer
use acre_ledger_app.Buffer.{Buffer}
use acre_ledger_app.Policy.Reader
use acre_ledger_app.Miniscript.Node.{
  PolicyNodeType, PolicyNode, with_script, PolicyTree, leaf, branch, node_flags, token_sh,
  token_wsh, token_pk, token_pkh, token_wpkh, token_multi, token_multi_a, token_sortedmulti,
  token_sortedmulti_a, token_tr, token_0, token_1, token_pk_k, token_pk_h, token_older, token_after,
  token_sha256, token_hash256, token_ripemd160, token_hash160, token_andor, token_and_v,
  token_and_b, token_and_n, token_or_b, token_or_c, token_or_d, token_or_i, token_thresh,
}
use acre_ledger_app.Miniscript.Typing.{wrapper_modes}
use acre_ledger_app.Miniscript.Token.{parse_token, count_wrappers, wrapper_token}
use acre_ledger_app.Miniscript.Parser.{
  Setup, with_script_t, tree_t, Parser, ◌>>=◌, return, fail, fault, require, lift, read, allocate,
  align,
}
use acre_ledger_app.Miniscript.Fragment.{
  Context, ScriptParser, expect, parse_constant, parse_hash_256, parse_hash_160, parse_script2,
  parse_andor, parse_thresh, parse_key, parse_timelock, parse_multisig, parse_wrapped, parse_tr,
}

-- The tokens that are allowed within sh, and directly within sh(wsh())
abbrev allowed_within_sh_wsh : PolicyNodeType → Bool
allowed_within_sh_wsh token_pk = true
allowed_within_sh_wsh token_pkh = true
allowed_within_sh_wsh token_multi = true
allowed_within_sh_wsh token_sortedmulti = true
allowed_within_sh_wsh _ = false

abbrev allowed_within_sh : PolicyNodeType → Bool
allowed_within_sh token_wpkh = true
allowed_within_sh token_wsh = true
allowed_within_sh token = allowed_within_sh_wsh token

abbrev is_allowed : ℕ → Context → PolicyNodeType → Bool
is_allowed depth context token =
    (not context.within_sh || allowed_within_sh token)
    && (not (context.within_sh && context.within_wsh && (depth == 2))
        || allowed_within_sh_wsh token)

-- The `switch` on the token
unfoldable pub parse_arguments :
    Setup
    → ScriptParser
    → (ℕ → Parser PolicyTree)
    → ℕ
    → ℕ
    → Context
    → PolicyNodeType
    → Parser PolicyNode
parse_arguments setup script tree fuel depth context token_0 = parse_constant setup token_0
parse_arguments setup script tree fuel depth context token_1 = parse_constant setup token_1
parse_arguments setup script tree fuel depth context token_sh = do
  _ ← require (depth == 0)
  parse_wrapped setup script depth (record context { within_sh = true }) token_sh
parse_arguments setup script tree fuel depth context token_wsh = do
  _ ← require ((depth == 0) || context.within_sh)
  parse_wrapped setup script depth (record context { within_wsh = true }) token_wsh
parse_arguments setup script tree fuel depth context token_sha256 =
    parse_hash_256 setup token_sha256
parse_arguments setup script tree fuel depth context token_hash256 =
    parse_hash_256 setup token_hash256
parse_arguments setup script tree fuel depth context token_ripemd160 =
    parse_hash_160 setup token_ripemd160
parse_arguments setup script tree fuel depth context token_hash160 =
    parse_hash_160 setup token_hash160
parse_arguments setup script tree fuel depth context token_andor =
    parse_andor setup script depth context
parse_arguments setup script tree fuel depth context token_and_v =
    parse_script2 setup script depth context token_and_v
parse_arguments setup script tree fuel depth context token_and_b =
    parse_script2 setup script depth context token_and_b
parse_arguments setup script tree fuel depth context token_and_n =
    parse_script2 setup script depth context token_and_n
parse_arguments setup script tree fuel depth context token_or_b =
    parse_script2 setup script depth context token_or_b
parse_arguments setup script tree fuel depth context token_or_c =
    parse_script2 setup script depth context token_or_c
parse_arguments setup script tree fuel depth context token_or_d =
    parse_script2 setup script depth context token_or_d
parse_arguments setup script tree fuel depth context token_or_i =
    parse_script2 setup script depth context token_or_i
parse_arguments setup script tree fuel depth context token_thresh =
    parse_thresh setup script fuel depth context
parse_arguments setup script tree fuel depth context token_pk =
    parse_key setup depth context token_pk
parse_arguments setup script tree fuel depth context token_pkh =
    parse_key setup depth context token_pkh
parse_arguments setup script tree fuel depth context token_pk_k =
    parse_key setup depth context token_pk_k
parse_arguments setup script tree fuel depth context token_pk_h =
    parse_key setup depth context token_pk_h
parse_arguments setup script tree fuel depth context token_wpkh =
    parse_key setup depth context token_wpkh
parse_arguments setup script tree fuel depth context token_tr = parse_tr setup tree depth
parse_arguments setup script tree fuel depth context token_older = parse_timelock setup token_older
parse_arguments setup script tree fuel depth context token_after = parse_timelock setup token_after
parse_arguments setup script tree fuel depth context token_multi =
    parse_multisig setup fuel depth context token_multi
parse_arguments setup script tree fuel depth context token_multi_a =
    parse_multisig setup fuel depth context token_multi_a
parse_arguments setup script tree fuel depth context token_sortedmulti =
    parse_multisig setup fuel depth context token_sortedmulti
parse_arguments setup script tree fuel depth context token_sortedmulti_a =
    parse_multisig setup fuel depth context token_sortedmulti_a
parse_arguments setup script tree fuel depth context _ = fail

abbrev has_parentheses : PolicyNodeType → Bool
has_parentheses token_0 = false
has_parentheses token_1 = false
has_parentheses _ = true

abbrev expect_if : Bool → ℕ → Parser (Unit {0})
expect_if true c = expect c
expect_if false c = return tt

-- The loop that reads the wrappers
unfoldable pub parse_wrappers : Setup → ℕ → Parser (List PolicyNodeType)
parse_wrappers setup zero = return []
parse_wrappers setup (suc n) = do
  _ ← allocate setup with_script_t
  c ← read Reader.read_u8
  t ← lift (wrapper_token c)
  ts ← parse_wrappers setup n
  return (t ∷ ts)

abbrev is_colon : Option ℕ → Bool
is_colon none = false
is_colon (some c) = c == 58

unfoldable pub parse_prefix : Setup → ℕ → Context → Parser (List PolicyNodeType)
parse_prefix setup fuel context =
    if (context.within_wsh && not context.within_sh) || context.within_tr
    then (do
      r ← read (count_wrappers fuel 0)
      if is_colon r.1
          then (do ts ← parse_wrappers setup r.0; _ ← read (Reader.seek_cur 1); return ts)
          else return [])
    else return []

-- The wrappers around a node, from the innermost on
unfoldable pub apply_wrappers : Bool → List PolicyNodeType → PolicyNode → Parser PolicyNode
apply_wrappers within_tr [] parsed_node = return parsed_node
apply_wrappers within_tr (t ∷ ts) parsed_node = do
  X ← apply_wrappers within_tr ts parsed_node
  x ← lift (node_flags X)
  m ← lift (wrapper_modes within_tr t x)
  return (with_script t (some m) X)

unfoldable pub script_body :
    Setup → ScriptParser → (ℕ → Parser PolicyTree) → ℕ → ℕ → Context → Parser PolicyNode
script_body setup script tree fuel depth context = do
  wrappers ← parse_prefix setup fuel context
  token ← read parse_token
  _ ← require (is_allowed depth context token)
  _ ← expect_if (has_parentheses token) 40
  parsed_node ← parse_arguments setup script tree fuel depth context token
  _ ← expect_if (has_parentheses token) 41
  more ← read (Reader.can_read 1)
  _ ← require (not ((depth == 0) && more))
  apply_wrappers context.within_tr wrappers parsed_node

abbrev pub within_tr_only : Context
within_tr_only = record { within_sh = false; within_wsh = false; within_tr = true }

abbrev is_open : Option ℕ → Bool
is_open none = false
is_open (some c) = c == 123

abbrev is_aligned : Setup → Parser (Unit {0})
is_aligned setup in_buf out_buf = require ((setup.address + out_buf.offset) % 4 == 0) in_buf out_buf

abbrev is_there : Option ℕ → Bool
is_there none = false
is_there (some c) = true

-- MAX_TAPTREE_POLICY_DEPTH is 9.
unfoldable pub tree_body : Setup → ScriptParser → (ℕ → Parser PolicyTree) → ℕ → Parser PolicyTree
tree_body setup script tree depth = do
  _ ← require (leb depth 9)
  _ ← is_aligned setup
  _ ← allocate setup tree_t
  c ← read Reader.peek
  _ ← require (is_there c)
  if not (is_open c)
      then (do _ ← align setup; X ← script (depth + 1) within_tr_only; return (leaf X))
      else (do
        _ ← read (Reader.seek_cur 1)
        _ ← align setup
        left ← tree (depth + 1)
        _ ← expect 44
        _ ← align setup
        right ← tree (depth + 1)
        _ ← expect 125
        return (branch left right))

-- `fuel` bounds the depth of the recursion and the rounds of the loops.
unfoldable mutual
  pub parse_script : Setup → ℕ → ℕ → Context → Parser PolicyNode
  parse_script setup zero = λ depth context. fault
  parse_script setup (suc fuel) =
      let script : ScriptParser = parse_script setup fuel in
      let tree : ℕ → Parser PolicyTree = parse_tree setup fuel in script_body setup script tree fuel

  pub parse_tree : Setup → ℕ → ℕ → Parser PolicyTree
  parse_tree setup zero = λ depth. fault
  parse_tree setup (suc fuel) =
      let script : ScriptParser = parse_script setup fuel in
      let tree : ℕ → Parser PolicyTree = parse_tree setup fuel in tree_body setup script tree

abbrev pub no_context : Context
no_context = record { within_sh = false; within_wsh = false; within_tr = false }

abbrev pub with_size :
    Option (Option (PolicyNode × Buffer × Buffer)) → Option (Option (PolicyNode × ℕ))
with_size none = none
with_size (some none) = some none
with_size (some (some (node, in_buf, out_buf))) = some (some (node, out_buf.offset))

-- Every token and every child takes a character, so that a round more than there are characters is
-- enough. The result is the root node and the size of the parsed template.
unfoldable pub parse_descriptor_template :
    Setup → Buffer → Memory → ℕ → Option (Option (PolicyNode × ℕ))
parse_descriptor_template setup in_buf out out_len =
    if not (setup.address % 4 == 0) || not ((setup.version == 1) || (setup.version == 2))
    then some none
    else with_size (
        parse_script setup (in_buf.size - in_buf.offset + 1) 0 no_context in_buf
          (Buffer.create out out_len))
