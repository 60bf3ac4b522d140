-- ===== src/Miniscript/Elements/Sound.antt =====
-- src/common/wallet.c: the miniscript type system is sound for the stack elements.
use acre_ledger_app.Base.{◌≡◌, List, [], ◌∷◌, length, some, Bool}
use mathlib.Core.Path.{subst}
use acre_ledger_app.Miniscript.Node.{
  Modes, Flags, PolicyNode, constant, with_script, with_script2, with_script3, with_key,
  with_uint32, multisig, thresh, with_hash_160, with_hash_256, tr_key, tr_tree, ScriptList, nil,
  cons, node_flags,
}
use acre_ledger_app.Miniscript.Typed.{IsTyped, AreTyped}
use acre_ledger_app.Miniscript.Ways.{Ways, script_ways}
use acre_ledger_app.Miniscript.Elements.{
  Obeys, leaf_modes-Obeys, timelock_modes-Obeys, multisig_modes-Obeys, wrapper_modes-Obeys,
}
use acre_ledger_app.Miniscript.Elements.Script2.{script2_modes-Obeys, andor_modes-Obeys}
use acre_ledger_app.Miniscript.Elements.Thresh.{AllObey, thresh_modes-Obeys}

same_modes :
    {f : Flags} {m m' : Modes} {W : Ways} → f ≡ some m' → f ≡ some m → Obeys m' W → Obeys m W
same_modes {f} {m} {m'} {W} e e' h = let same : m' ≡ m = cc in subst (λ m. Obeys m W) same h

mutual
  unfolding IsTyped script_ways AllObey node_flags

  sound :
      (within_tr : Bool) (script : PolicyNode) (m : Modes)
      → IsTyped within_tr script
      → node_flags script ≡ some m
      → Obeys m (script_ways script)
  sound within (constant t f) m (m', flags, e) h = same_modes flags h (leaf_modes-Obeys t m' e)
  sound within (with_key t f key) m (m', flags, e) h = same_modes flags h (leaf_modes-Obeys t m' e)
  sound within (with_hash_160 t f _) m (m', flags, e) h =
      same_modes flags h (leaf_modes-Obeys t m' e)
  sound within (with_hash_256 t f _) m (m', flags, e) h =
      same_modes flags h (leaf_modes-Obeys t m' e)
  sound within (with_uint32 t f n) m (m', flags, e) h =
      same_modes flags h (timelock_modes-Obeys t m' e)
  sound within (multisig t f k keys) m ((m', flags, e), _, _) h =
      same_modes flags h (multisig_modes-Obeys t k (length keys) m' e)
  sound within (with_script t f X) m (x, fx, typed, (m', flags, e)) h =
      same_modes flags h
        (wrapper_modes-Obeys within t x m' (script_ways X) (sound within X x typed fx) e)
  sound within (with_script2 t f X Y) m (x, y, fx, fy, typed_x, typed_y, (m', flags, e)) h =
      same_modes flags h (
        script2_modes-Obeys x y (script_ways X) (script_ways Y) (sound within X x typed_x fx)
          (sound within Y y typed_y fy) t m' e)
  sound within (with_script3 t f X Y Z) m
        (x, y, z, fx, fy, fz, typed_x, typed_y, typed_z, _, (m', flags, e)) h =
      same_modes flags h (
        andor_modes-Obeys x y z m' (script_ways X) (script_ways Y) (script_ways Z)
          (sound within X x typed_x fx) (sound within Y y typed_y fy) (sound within Z z typed_z fz)
          e)
  sound within (thresh t f k scripts) m (ms, typed, (m', flags, e)) h =
      same_modes flags h (thresh_modes-Obeys k scripts ms m' (sound_list within scripts ms typed) e)
  sound within (tr_key t f key) m typed h = absurd typed
  sound within (tr_tree t f key tree) m typed h = absurd typed

  sound_list :
      (within_tr : Bool) (scripts : ScriptList) (ms : List Modes)
      → AreTyped within_tr scripts ms
      → AllObey ms scripts
  sound_list within nil [] typed = tt
  sound_list within nil (m ∷ ms) typed = absurd typed
  sound_list within (cons X rest) [] typed = absurd typed
  sound_list within (cons X rest) (m ∷ ms) (fx, typed, others) =
      (sound within X m typed fx, sound_list within rest ms others)
