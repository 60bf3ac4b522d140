-- ===== src/Miniscript/Typed.antt =====
-- src/common/wallet.c: the miniscript nodes that `parse_script` makes, with the flags that it gives
-- them.
use acre_ledger_app.Base.{ℕ, suc, ◌≤◌, ◌≡◌, some, Option, List, [], ◌∷◌, length, Bool}
use acre_ledger_app.Miniscript.Amount.{max_n_in_thresh}
use acre_ledger_app.Miniscript.Node.{
  Modes, Flags, PolicyNode, constant, with_script, with_script2, with_script3, with_key,
  with_uint32, multisig, thresh, with_hash_160, with_hash_256, tr_key, tr_tree, ScriptList, nil,
  cons, node_flags, token_andor,
}
use acre_ledger_app.Miniscript.Typing.{
  leaf_modes, timelock_modes, multisig_modes, wrapper_modes, script2_modes, andor_modes,
  thresh_modes,
}

-- The flags that a node gets
abbrev pub Gets : Flags → Option Modes → Type 0
Gets f o = (m : Modes) × (f ≡ some m) × (o ≡ some m)

-- MAX_PUBKEYS_PER_MULTISIG
abbrev pub max_pubkeys_per_multisig : ℕ
max_pubkeys_per_multisig = 16

-- `within_tr` is true within tr.
unfoldable mutual
  pub IsTyped : Bool → PolicyNode → Type 0
  IsTyped within_tr (constant t f) = Gets f (leaf_modes t)
  IsTyped within_tr (with_key t f key) = Gets f (leaf_modes t)
  IsTyped within_tr (with_hash_160 t f h) = Gets f (leaf_modes t)
  IsTyped within_tr (with_hash_256 t f h) = Gets f (leaf_modes t)
  IsTyped within_tr (with_uint32 t f n) = Gets f (timelock_modes t)
  IsTyped within_tr (multisig t f k keys) =
      Gets f (multisig_modes t) × (k ≤ length keys) × (length keys ≤ max_pubkeys_per_multisig)
  IsTyped within_tr (with_script t f X) =
      (x : Modes) × (node_flags X ≡ some x)
      × IsTyped within_tr X
      × Gets f (wrapper_modes within_tr t x)
  IsTyped within_tr (with_script2 t f X Y) =
      (x : Modes) × (y : Modes) × (node_flags X ≡ some x)
      × (node_flags Y ≡ some y)
      × IsTyped within_tr X
      × IsTyped within_tr Y
      × Gets f (script2_modes t x y)
  IsTyped within_tr (with_script3 t f X Y Z) =
      (x : Modes) × (y : Modes) × (z : Modes) × (node_flags X ≡ some x)
      × (node_flags Y ≡ some y)
      × (node_flags Z ≡ some z)
      × IsTyped within_tr X
      × IsTyped within_tr Y
      × IsTyped within_tr Z
      × (t ≡ token_andor)
      × Gets f (andor_modes x y z)
  IsTyped within_tr (thresh t f k scripts) =
      (ms : List Modes) × AreTyped within_tr scripts ms × Gets f (thresh_modes ms)
  IsTyped within_tr (tr_key t f key) = ⊥
  IsTyped within_tr (tr_tree t f key tree) = ⊥

  -- The scripts of a list, and their flags
  pub AreTyped : Bool → ScriptList → List Modes → Type 0
  AreTyped within_tr nil [] = Unit
  AreTyped within_tr nil (m ∷ ms) = ⊥
  AreTyped within_tr (cons X rest) [] = ⊥
  AreTyped within_tr (cons X rest) (m ∷ ms) =
      (node_flags X ≡ some m) × IsTyped within_tr X × AreTyped within_tr rest ms

abbrev pub list_length : ScriptList → ℕ
list_length nil = 0
list_length (cons X rest) = suc (list_length rest)

-- Every thresh has at least as many scripts as its threshold, which the parser does not ask for, and
-- at most as many as the analysis supports.
unfoldable mutual
  pub IsBounded : PolicyNode → Type 0
  IsBounded (constant t f) = Unit
  IsBounded (with_key t f key) = Unit
  IsBounded (with_hash_160 t f h) = Unit
  IsBounded (with_hash_256 t f h) = Unit
  IsBounded (with_uint32 t f n) = Unit
  IsBounded (multisig t f k keys) = Unit
  IsBounded (with_script t f X) = IsBounded X
  IsBounded (with_script2 t f X Y) = IsBounded X × IsBounded Y
  IsBounded (with_script3 t f X Y Z) = IsBounded X × IsBounded Y × IsBounded Z
  IsBounded (thresh t f k scripts) =
      (k ≤ list_length scripts) × (list_length scripts ≤ max_n_in_thresh) × AreBounded scripts
  IsBounded (tr_key t f key) = Unit
  IsBounded (tr_tree t f key tree) = Unit

  pub AreBounded : ScriptList → Type 0
  AreBounded nil = Unit
  AreBounded (cons X rest) = IsBounded X × AreBounded rest
