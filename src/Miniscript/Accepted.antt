-- ===== src/Miniscript/Accepted.antt =====
-- src/common/wallet.c, `parse_script` and `parse_tree`: the scripts that they accept.
pub mod Fragments
pub mod Sane
pub mod Scripts
pub mod Tests
pub mod Whole
use acre_ledger_app.Base.{
  ℕ, zero, suc, ◌+◌, ◌≡◌, ◌≤◌, ◌<◌, ◌^◌, refl, arith, Option, none, some, List, [], ◌∷◌, length,
  Bool, true, false, not, ◌&&◌, ◌||◌, ◌==◌, leb, ltb,
}
use acre_ledger_app.Miniscript.Node.{
  Modes, Flags, PolicyNode, constant, with_script, with_script2, with_script3, with_key,
  with_uint32, multisig, thresh, with_hash_160, with_hash_256, tr_key, tr_tree, ScriptList, nil,
  cons, PolicyTree, leaf, branch, node_flags, token_andor,
}
use acre_ledger_app.Miniscript.Typing.{leaf_modes, timelock_modes, multisig_modes}
use acre_ledger_app.Miniscript.Typed.{IsTyped, max_pubkeys_per_multisig}
use acre_ledger_app.Miniscript.Rules.{
  LeafRule, TimelockRule, MultisigRule, WrapperRule, Script2Rule, AndorRule, ThreshRule,
}

-- The flags of a script with flags follow a rule.
abbrev Follows : Flags → (Modes → Type 0) → Type 0
Follows f rule = (m : Modes) × (f ≡ some m) × rule m

-- Every node with flags has those that the rules of the language give for its children, and so do the
-- scripts in sh, wsh and tr, which have none. The numbers are in their ranges.
unfoldable mutual
  pub IsAccepted : Bool → PolicyNode → Type 0
  IsAccepted within_tr (constant t f) = LeafRule t f
  IsAccepted within_tr (with_key t f key) = LeafRule t f
  IsAccepted within_tr (with_hash_160 t f h) = LeafRule t f
  IsAccepted within_tr (with_hash_256 t f h) = LeafRule t f
  IsAccepted within_tr (with_uint32 t f n) = TimelockRule t f × (1 ≤ n) × (n < 2 ^ 31)
  IsAccepted within_tr (multisig t f k keys) =
      MultisigRule t f × (1 ≤ k) × (k ≤ length keys) × (length keys ≤ max_pubkeys_per_multisig)
  IsAccepted within_tr (with_script t none X) = IsAccepted within_tr X
  IsAccepted within_tr (with_script t (some m) X) =
      (x : Modes) × (node_flags X ≡ some x) × IsAccepted within_tr X × WrapperRule within_tr t x m
  IsAccepted within_tr (with_script2 t f X Y) =
      (x : Modes) × (y : Modes) × (node_flags X ≡ some x)
      × (node_flags Y ≡ some y)
      × IsAccepted within_tr X
      × IsAccepted within_tr Y
      × Follows f (Script2Rule t x y)
  IsAccepted within_tr (with_script3 t f X Y Z) =
      (x : Modes) × (y : Modes) × (z : Modes) × (node_flags X ≡ some x)
      × (node_flags Y ≡ some y)
      × (node_flags Z ≡ some z)
      × IsAccepted within_tr X
      × IsAccepted within_tr Y
      × IsAccepted within_tr Z
      × (t ≡ token_andor)
      × Follows f (AndorRule x y z)
  IsAccepted within_tr (thresh t f k scripts) =
      (1 ≤ k) × (ms : List Modes) × AreAccepted within_tr scripts ms × Follows f (ThreshRule ms)
  IsAccepted within_tr (tr_key t f key) = f ≡ none
  IsAccepted within_tr (tr_tree t f key tree) = (f ≡ none) × IsAcceptedTree tree

  pub AreAccepted : Bool → ScriptList → List Modes → Type 0
  AreAccepted within_tr nil [] = Unit
  AreAccepted within_tr nil (m ∷ ms) = ⊥
  AreAccepted within_tr (cons X rest) [] = ⊥
  AreAccepted within_tr (cons X rest) (m ∷ ms) =
      (node_flags X ≡ some m) × IsAccepted within_tr X × AreAccepted within_tr rest ms

  pub IsAcceptedTree : PolicyTree → Type 0
  IsAcceptedTree (leaf X) = IsAccepted true X
  IsAcceptedTree (branch left right) = IsAcceptedTree left × IsAcceptedTree right

-- The same with the checks of the parser in place of the rules, as far as the analysis needs them
unfoldable mutual
  pub IsParsed : Bool → PolicyNode → Type 0
  IsParsed within_tr (constant t f) = f ≡ leaf_modes t
  IsParsed within_tr (with_key t f key) = f ≡ leaf_modes t
  IsParsed within_tr (with_hash_160 t f h) = f ≡ leaf_modes t
  IsParsed within_tr (with_hash_256 t f h) = f ≡ leaf_modes t
  IsParsed within_tr (with_uint32 t f n) = (f ≡ timelock_modes t) × (1 ≤ n) × (n < 2 ^ 31)
  IsParsed within_tr (multisig t f k keys) =
      (f ≡ multisig_modes t)
      × (1 ≤ k)
      × (k ≤ length keys)
      × (length keys ≤ max_pubkeys_per_multisig)
  IsParsed within_tr (with_script t none X) = IsParsed within_tr X
  IsParsed within_tr (with_script t (some m) X) = IsTyped within_tr (with_script t (some m) X)
  IsParsed within_tr (with_script2 t f X Y) = IsTyped within_tr (with_script2 t f X Y)
  IsParsed within_tr (with_script3 t f X Y Z) = IsTyped within_tr (with_script3 t f X Y Z)
  IsParsed within_tr (thresh t f k scripts) = (1 ≤ k) × IsTyped within_tr (thresh t f k scripts)
  IsParsed within_tr (tr_key t f key) = f ≡ none
  IsParsed within_tr (tr_tree t f key tree) = (f ≡ none) × IsParsedTree tree

  pub IsParsedTree : PolicyTree → Type 0
  IsParsedTree (leaf X) = IsParsed true X
  IsParsedTree (branch left right) = IsParsedTree left × IsParsedTree right

pub IsParsed-IsTyped :
    (w : Bool) (node : PolicyNode) (m : Modes)
    → IsParsed w node
    → node_flags node ≡ some m
    → IsTyped w node
unfolding IsParsed IsTyped node_flags
IsParsed-IsTyped w (constant t f) m h e = (m, e, cc)
IsParsed-IsTyped w (with_key t f key) m h e = (m, e, cc)
IsParsed-IsTyped w (with_hash_160 t f _) m h e = (m, e, cc)
IsParsed-IsTyped w (with_hash_256 t f _) m h e = (m, e, cc)
IsParsed-IsTyped w (with_uint32 t f n) m (h, _, _) e = (m, e, cc)
IsParsed-IsTyped w (multisig t f k keys) m (h, _, b, c) e = ((m, e, cc), b, c)
IsParsed-IsTyped w (with_script t none X) m h e = cc
IsParsed-IsTyped w (with_script t (some m') X) m h e = h
IsParsed-IsTyped w (with_script2 t f X Y) m h e = h
IsParsed-IsTyped w (with_script3 t f X Y Z) m h e = h
IsParsed-IsTyped w (thresh t f k scripts) m (_, h) e = h
IsParsed-IsTyped w (tr_key t f key) m h e = cc
IsParsed-IsTyped w (tr_tree t f key tree) m (h, _) e = cc

-- What the parser ensures
abbrev pub Good : Bool → PolicyNode → Type 0
Good within_tr node = IsParsed within_tr node × IsAccepted within_tr node

abbrev pub GoodTree : PolicyTree → Type 0
GoodTree tree = IsParsedTree tree × IsAcceptedTree tree
