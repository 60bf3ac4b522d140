-- ===== src/Miniscript/Node.antt =====
-- src/common/wallet.h: the nodes of a descriptor template.
use acre_ledger_app.Base.{ℕ, Option, List, Bool}
use acre_ledger_app.Policy.Placeholder.{KeyPlaceholder}

-- `PolicyNodeType`, less TOKEN_INVALID, which no node has
pub data PolicyNodeType : Type 0 where
  token_sh token_wsh token_pk token_pkh token_wpkh : PolicyNodeType
  token_multi token_multi_a token_sortedmulti token_sortedmulti_a token_tr : PolicyNodeType
  token_0 token_1 token_pk_k token_pk_h token_older token_after : PolicyNodeType
  token_sha256 token_hash256 token_ripemd160 token_hash160 : PolicyNodeType
  token_andor token_and_v token_and_b token_and_n : PolicyNodeType
  token_or_b token_or_c token_or_d token_or_i token_thresh : PolicyNodeType
  token_a token_s token_c token_t token_d token_v token_j token_n token_l token_u : PolicyNodeType

pub data MiniscriptType : Type 0 where
  type_b type_v type_k type_w : MiniscriptType

-- The flags of a node that is miniscript
pub record Modes : Type 0 where
  pub miniscript_type : MiniscriptType
  pub miniscript_mod_z : Bool
  pub miniscript_mod_o : Bool
  pub miniscript_mod_n : Bool
  pub miniscript_mod_d : Bool
  pub miniscript_mod_u : Bool

-- `policy_node_s.flags`: `none` where `is_miniscript` is 0, since the other flags mean nothing then
abbrev pub Flags : Type 0
Flags = Option Modes

-- A constructor for each struct; a relative pointer is the node that it points to. `n` of a
-- multisig and of a thresh node is the length of its list; that the parser counts it in an int16_t is
-- in Fragment.
mutual
  pub data PolicyNode : Type 0 where
    constant : PolicyNodeType → Flags → PolicyNode
    with_script : PolicyNodeType → Flags → PolicyNode → PolicyNode
    with_script2 : PolicyNodeType → Flags → PolicyNode → PolicyNode → PolicyNode
    with_script3 : PolicyNodeType → Flags → PolicyNode → PolicyNode → PolicyNode → PolicyNode
    with_key : PolicyNodeType → Flags → KeyPlaceholder → PolicyNode
    with_uint32 : PolicyNodeType → Flags → ℕ → PolicyNode
    multisig : PolicyNodeType → Flags → ℕ → List KeyPlaceholder → PolicyNode
    thresh : PolicyNodeType → Flags → ℕ → ScriptList → PolicyNode
    with_hash_160 : PolicyNodeType → Flags → List ℕ → PolicyNode
    with_hash_256 : PolicyNodeType → Flags → List ℕ → PolicyNode
    tr_key : PolicyNodeType → Flags → KeyPlaceholder → PolicyNode
    tr_tree : PolicyNodeType → Flags → KeyPlaceholder → PolicyTree → PolicyNode

  pub data ScriptList : Type 0 where
    nil : ScriptList
    cons : PolicyNode → ScriptList → ScriptList

  pub data PolicyTree : Type 0 where
    leaf : PolicyNode → PolicyTree
    branch : PolicyTree → PolicyTree → PolicyTree

unfoldable pub node_type : PolicyNode → PolicyNodeType
node_type (constant t f) = t
node_type (with_script t f X) = t
node_type (with_script2 t f X Y) = t
node_type (with_script3 t f X Y Z) = t
node_type (with_key t f key) = t
node_type (with_uint32 t f n) = t
node_type (multisig t f k keys) = t
node_type (thresh t f k scripts) = t
node_type (with_hash_160 t f h) = t
node_type (with_hash_256 t f h) = t
node_type (tr_key t f key) = t
node_type (tr_tree t f key tree) = t

unfoldable pub node_flags : PolicyNode → Flags
node_flags (constant t f) = f
node_flags (with_script t f X) = f
node_flags (with_script2 t f X Y) = f
node_flags (with_script3 t f X Y Z) = f
node_flags (with_key t f key) = f
node_flags (with_uint32 t f n) = f
node_flags (multisig t f k keys) = f
node_flags (thresh t f k scripts) = f
node_flags (with_hash_160 t f h) = f
node_flags (with_hash_256 t f h) = f
node_flags (tr_key t f key) = f
node_flags (tr_tree t f key tree) = f
