-- ===== src/Miniscript/Fragment.antt =====
-- src/common/wallet.c, `parse_script`: the arguments of each token. A call of `parse_script` is the
-- argument `script`, for a depth and a context.
use acre_ledger_app.Base.{
  ℕ, zero, suc, ◌+◌, ◌^◌, ◌%◌, Option, none, some, List, [], ◌∷◌, length, Bool, true, false, not,
  ◌&&◌, ◌||◌, ◌==◌, ltb, leb, if◌then◌else◌,
}
use acre_ledger_app.Policy.Reader
use acre_ledger_app.Policy.Text.{consume_character, parse_unsigned_decimal, buffer_read_hex_hash}
use acre_ledger_app.Policy.Placeholder.{KeyPlaceholder, parse_placeholder}
use acre_ledger_app.Miniscript.Node.{
  PolicyNodeType, MiniscriptType, type_b, type_w, Modes, PolicyNode, constant, with_script,
  with_script2, with_script3, with_key, with_uint32, multisig, thresh, with_hash_160, with_hash_256,
  tr_key, tr_tree, ScriptList, nil, cons, PolicyTree, node_flags, token_wpkh, token_multi_a,
  token_sortedmulti, token_sortedmulti_a, token_tr, token_andor, token_thresh,
}
use acre_ledger_app.Miniscript.Typing.{
  leaf_modes, timelock_modes, multisig_modes, script2_modes, andor_modes, check_child, count, modes,
}
use acre_ledger_app.Miniscript.Parser.{
  Setup, constant_t, with_script_t, with_script2_t, with_script3_t, with_key_t, with_uint32_t,
  multisig_t, thresh_t, scriptlist_t, hash_160_t, hash_256_t, tr_t, key_placeholder_t, Parser,
  ◌>>=◌, return, fault, require, lift, read, allocate, align,
}

-- `context_flags`
pub record Context : Type 0 where
  pub within_sh : Bool
  pub within_wsh : Bool
  pub within_tr : Bool

abbrev pub ScriptParser : Type 0
ScriptParser = ℕ → Context → Parser PolicyNode

-- One of the `child_scripts`
unfoldable pub parse_child_script : Setup → ScriptParser → ℕ → Context → Parser PolicyNode
parse_child_script setup script depth context = do _ ← align setup; script (depth + 1) context

unfoldable pub expect : ℕ → Parser (Unit {0})
expect c = do found ← read (consume_character c); require found

unfoldable pub parse_constant : Setup → PolicyNodeType → Parser PolicyNode
parse_constant setup token = do
  _ ← allocate setup constant_t
  return (constant token (leaf_modes token))

unfoldable pub parse_hash_256 : Setup → PolicyNodeType → Parser PolicyNode
parse_hash_256 setup token = do
  _ ← allocate setup hash_256_t
  h ← read (buffer_read_hex_hash 32)
  return (with_hash_256 token (leaf_modes token) h)

unfoldable pub parse_hash_160 : Setup → PolicyNodeType → Parser PolicyNode
parse_hash_160 setup token = do
  _ ← allocate setup hash_160_t
  h ← read (buffer_read_hex_hash 20)
  return (with_hash_160 token (leaf_modes token) h)

unfoldable pub parse_script2 :
    Setup → ScriptParser → ℕ → Context → PolicyNodeType → Parser PolicyNode
parse_script2 setup script depth context token = do
  _ ← allocate setup with_script2_t
  X ← parse_child_script setup script depth context
  _ ← expect 44
  Y ← parse_child_script setup script depth context
  x ← lift (node_flags X)
  y ← lift (node_flags Y)
  m ← lift (script2_modes token x y)
  return (with_script2 token (some m) X Y)

unfoldable pub parse_andor : Setup → ScriptParser → ℕ → Context → Parser PolicyNode
parse_andor setup script depth context = do
  _ ← allocate setup with_script3_t
  X ← parse_child_script setup script depth context
  _ ← expect 44
  Y ← parse_child_script setup script depth context
  _ ← expect 44
  Z ← parse_child_script setup script depth context
  x ← lift (node_flags X)
  y ← lift (node_flags Y)
  z ← lift (node_flags Z)
  m ← lift (andor_modes x y z)
  return (with_script3 token_andor (some m) X Y Z)

-- `n` of a thresh or a multi is an int16_t: the bits that it keeps of a count. The comparisons below
-- treat 2 ^ 15 and more as C does the negative numbers.
abbrev pub wrapped : ℕ → ℕ
wrapped n = n % 2 ^ 16

-- For the script after `n` others: the first is where `node->n == 1` after the increment.
abbrev pub first_type : ℕ → MiniscriptType
first_type n = if wrapped (n + 1) == 1 then type_b else type_w

abbrev pub count_z : List Modes → ℕ
count_z [] = 0
count_z (x ∷ xs) = count x.miniscript_mod_z + count_z xs

abbrev pub count_o : List Modes → ℕ
count_o [] = 0
count_o (x ∷ xs) = count x.miniscript_mod_o + count_o xs

-- The flags of thresh from the scripts of the loop; a negative `n` is no count.
abbrev pub thresh_flags : List Modes → Modes
thresh_flags xs =
    let n : ℕ = wrapped (length xs) in
    modes type_b (ltb n (2 ^ 15) && (count_z xs == n))
      (ltb n (2 ^ 15) && (count_z xs + 1 == n) && (count_o xs == 1)) false true true

-- The loop of thresh, with the number of scripts so far: the scripts from there on and their flags. The
-- first argument bounds the rounds.
unfoldable pub thresh_loop :
    Setup → ScriptParser → ℕ → Context → ℕ → ℕ → Parser (ScriptList × List Modes)
thresh_loop setup script depth context zero n = fault
thresh_loop setup script depth context (suc fuel) n = do
  X ← parse_child_script setup script depth context
  x ← lift (node_flags X)
  _ ← lift (check_child (first_type n) x)
  more ← read (consume_character 44)
  if more
      then (do
        _ ← allocate setup scriptlist_t
        r ← thresh_loop setup script depth context fuel (n + 1)
        return (cons X r.0, x ∷ r.1))
      else return (cons X nil, x ∷ [])

-- The flags come from the counts of the loop.
unfoldable pub parse_thresh : Setup → ScriptParser → ℕ → ℕ → Context → Parser PolicyNode
parse_thresh setup script fuel depth context = do
  _ ← allocate setup thresh_t
  k ← read parse_unsigned_decimal
  _ ← require (leb k 32767)
  _ ← expect 44
  _ ← require (leb 1 k)
  _ ← allocate setup scriptlist_t
  r ← thresh_loop setup script depth context fuel 0
  return (thresh token_thresh (some (thresh_flags r.1)) k r.0)

abbrev is_wpkh : PolicyNodeType → Bool
is_wpkh token_wpkh = true
is_wpkh _ = false

unfoldable pub parse_key : Setup → ℕ → Context → PolicyNodeType → Parser PolicyNode
parse_key setup depth context token = do
  _ ← allocate setup with_key_t
  _ ← allocate setup key_placeholder_t
  _ ← require (not (is_wpkh token && ltb 0 depth && not context.within_sh))
  key ← read (parse_placeholder setup.version)
  return (with_key token (leaf_modes token) key)

unfoldable pub parse_timelock : Setup → PolicyNodeType → Parser PolicyNode
parse_timelock setup token = do
  _ ← allocate setup with_uint32_t
  n ← read parse_unsigned_decimal
  _ ← require (leb 1 n && ltb n (2 ^ 31))
  return (with_uint32 token (timelock_modes token) n)

-- Whether the token is for taproot, and whether it is sortedmulti
abbrev is_taproot_multi : PolicyNodeType → Bool
is_taproot_multi token_multi_a = true
is_taproot_multi token_sortedmulti_a = true
is_taproot_multi _ = false

abbrev is_sortedmulti : PolicyNodeType → Bool
is_sortedmulti token_sortedmulti = true
is_sortedmulti _ = false

abbrev same : Bool → Bool → Bool
same true b = b
same false b = not b

abbrev is_close : Option ℕ → Bool
is_close none = false
is_close (some c) = c == 41

-- The loop over the keys. The first argument bounds the rounds.
unfoldable pub keys_loop : Setup → ℕ → Parser (List KeyPlaceholder)
keys_loop setup zero = fault
keys_loop setup (suc fuel) = do
  c ← read Reader.peek
  if is_close c then return [] else (do
    _ ← expect 44
    _ ← allocate setup key_placeholder_t
    key ← read (parse_placeholder setup.version)
    keys ← keys_loop setup fuel
    return (key ∷ keys))

unfoldable pub parse_multisig : Setup → ℕ → ℕ → Context → PolicyNodeType → Parser PolicyNode
parse_multisig setup fuel depth context token = do
  _ ← allocate setup multisig_t
  _ ← require (same context.within_tr (is_taproot_multi token))
  _ ←
      require (
        not (is_sortedmulti token) || (depth == count context.within_sh + count context.within_wsh))
  k ← read parse_unsigned_decimal
  _ ← require (leb k 32767)
  _ ← align setup
  keys ← keys_loop setup fuel
  _ ← require (leb 1 k && leb k (wrapped (length keys)) && leb (wrapped (length keys)) 16)
  return (multisig token (multisig_modes token) k keys)

unfoldable pub parse_wrapped :
    Setup → ScriptParser → ℕ → Context → PolicyNodeType → Parser PolicyNode
parse_wrapped setup script depth context token = do
  _ ← allocate setup with_script_t
  _ ← align setup
  X ← script (depth + 1) context
  return (with_script token none X)

abbrev is_comma : Option ℕ → Bool
is_comma none = false
is_comma (some c) = c == 44

-- `tree` is `parse_tree`, for a depth.
unfoldable pub parse_tr : Setup → (ℕ → Parser PolicyTree) → ℕ → Parser PolicyNode
parse_tr setup tree depth = do
  _ ← require (leb depth 1)
  _ ← allocate setup tr_t
  _ ← allocate setup key_placeholder_t
  key ← read (parse_placeholder setup.version)
  c ← read Reader.peek
  if is_comma c
      then (do
        _ ← read (Reader.seek_cur 1)
        _ ← align setup
        t ← tree (depth + 1)
        return (tr_tree token_tr none key t))
      else (do _ ← require (is_close c); return (tr_key token_tr none key))
