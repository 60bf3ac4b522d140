-- ===== src/Miniscript/Stack/Whole.antt =====
-- src/common/wallet.c and src/handler/lib/policy.c: the stack sizes of a whole miniscript.
use acre_ledger_app.Base.{
  ℕ, suc, ◌≤◌, ◌≡◌, refl, ap, ◌∙◌, sym, arith, Option, none, some, List, [], ◌∷◌, length, map, Bool,
  true, false, Bool-cases, inl, inr, not, ltb, if◌then◌else◌,
}
use mathlib.Core.Path.{subst}
use acre_ledger_app.Miniscript.Node.{
  MiniscriptType, type_b, Modes, Flags, PolicyNode, constant, with_script, with_script2,
  with_script3, with_key, with_uint32, multisig, thresh, with_hash_160, with_hash_256, tr_key,
  tr_tree, ScriptList, nil, cons, node_flags,
}
use acre_ledger_app.Miniscript.Amount.{Amount, next_sats, sats_loop}
use acre_ledger_app.Miniscript.Info.{ExtInfo, MiniscriptContext}
use acre_ledger_app.Miniscript.Thresh.{Outcome}
use acre_ledger_app.Miniscript.Analysis.{
  compute_miniscript_policy_ext_info, compute_children, check_info, is_miniscript_sane, check_sizes,
  if_type_b, sane_with,
}
use acre_ledger_app.Miniscript.Typed.{AreTyped, IsTyped, IsBounded, AreBounded, list_length}
use acre_ledger_app.Miniscript.Ways.{Ways, Sizes, script_ways, list_ways, no_scripts}
use acre_ledger_app.Miniscript.Maximum.{IsMaximum, IsMaximum-exactly, IsTable, IsTable-next_sats}
use acre_ledger_app.Miniscript.Stack.{
  HasMaxima, leaf_info-Finds, timelock_info-Finds, multisig_info-Finds, wrapper_info-Finds,
  script2_info-Finds, andor_info-HasMaxima,
}
use acre_ledger_app.Miniscript.Stack.Thresh.{stack_sizes, thresh_info-Finds}

-- The analysis returns a result, with the largest stack sizes.
abbrev pub Analyses : Outcome ExtInfo → Ways → Type 0
Analyses o W = (out : ExtInfo) × (o ≡ some (some out)) × HasMaxima out.ss W

-- The results for the scripts of a list
unfoldable AreMaxima : List ExtInfo → ScriptList → Type 0
AreMaxima [] nil = Unit
AreMaxima [] (cons X rest) = ⊥
AreMaxima (t ∷ ts) nil = ⊥
AreMaxima (t ∷ ts) (cons X rest) = HasMaxima t.ss (script_ways X) × AreMaxima ts rest

-- The loop enters the results in the table.
IsTable-sats_loop :
    (ts : List ExtInfo) (scripts : ScriptList) (P : ℕ → Sizes) (c : Amount) (cs : List Amount)
    → AreMaxima ts scripts
    → IsTable (c ∷ cs) P
    → IsTable (sats_loop (map stack_sizes ts) (c ∷ cs)) (list_ways scripts P)
unfolding AreMaxima sats_loop next_sats list_ways
IsTable-sats_loop [] nil P c cs h maxima = maxima
IsTable-sats_loop [] (cons X rest) P c cs h maxima = absurd h
IsTable-sats_loop (t ∷ ts) nil P c cs h maxima = absurd h
IsTable-sats_loop (t ∷ ts) (cons X rest) P c cs (h, hs) maxima =
    IsTable-sats_loop ts rest _ _ _ hs
      (IsTable-next_sats (script_ways X) t.ss.sat t.ss.dsat h.sat h.dsat P c cs maxima)

abbrev AnalysesList : Outcome (List ExtInfo) → ScriptList → ℕ → Type 0
AnalysesList o scripts n =
    (ts : List ExtInfo) × (o ≡ some (some ts)) × (length ts ≡ n) × AreMaxima ts scripts

from_info :
    {o : Option ExtInfo} {W : Ways}
    → ((out : ExtInfo) × (o ≡ some out) × HasMaxima out.ss W)
    → Analyses (some o) W
from_info (out, run, h) = (out, ap some run, h)

no_scripts-IsTable : IsTable (some 0 ∷ []) no_scripts
no_scripts-IsTable = (IsMaximum-exactly 0 (omega arith), λ k n h. h)

mutual
  unfolding IsTyped IsBounded compute_miniscript_policy_ext_info script_ways AreMaxima

  pub analysis :
      (ctx : MiniscriptContext) (within_tr : Bool) (script : PolicyNode)
      → IsTyped within_tr script
      → IsBounded script
      → Analyses (compute_miniscript_policy_ext_info ctx script) (script_ways script)
  analysis ctx within (constant t f) (m, flags, e) _ =
      rw flags (from_info (leaf_info-Finds ctx t m e))
  analysis ctx within (with_key t f key) (m, flags, e) _ =
      rw flags (from_info (leaf_info-Finds ctx t m e))
  analysis ctx within (with_hash_160 t f h) (m, flags, e) _ =
      rw flags (from_info (leaf_info-Finds ctx t m e))
  analysis ctx within (with_hash_256 t f h) (m, flags, e) _ =
      rw flags (from_info (leaf_info-Finds ctx t m e))
  analysis ctx within (with_uint32 t f n) (m, flags, e) _ =
      rw flags (from_info (timelock_info-Finds t n m e))
  analysis ctx within (multisig t f k keys) ((m, flags, e), enough, few) _ =
      rw flags (from_info (multisig_info-Finds t k (length keys) m enough few e))
  analysis ctx within (with_script t f X) (x, _, typed, (m, flags, e)) bounded =
      let (out, run, h) = analysis ctx within X typed bounded in
      rw (flags, run) (from_info (wrapper_info-Finds within t x m out (script_ways X) e h))
  analysis ctx within (with_script2 t f X Y) (x, y, _, _, typed_x, typed_y, (m, flags, e))
        (bx, by) =
      let (out1, run1, h1) = analysis ctx within X typed_x bx in
      let (out2, run2, h2) = analysis ctx within Y typed_y by in
      rw (flags, run1, run2)
        (from_info (script2_info-Finds x y m out1 out2 (script_ways X) (script_ways Y) h1 h2 t e))
  analysis ctx within (with_script3 t f X Y Z)
        (x, y, z, _, _, _, typed_x, typed_y, typed_z, andor, (m, flags, e)) (bx, by, bz) =
      let (out1, run1, h1) = analysis ctx within X typed_x bx in
      let (out2, run2, h2) = analysis ctx within Y typed_y by in
      let (out3, run3, h3) = analysis ctx within Z typed_z bz in
      rw (flags, andor, run1, run2, run3)
        (
          _,
          refl,
          andor_info-HasMaxima out1 out2 out3 (script_ways X) (script_ways Y) (script_ways Z) h1 h2
              h3,
        )
  analysis ctx within (thresh t f k scripts) (ms, typed, (m, flags, e)) (enough, few, bounded) =
      let (ts, run, size, maxima) = analysis_list ctx within scripts ms typed bounded in
      rw (flags, run)
        (thresh_info-Finds k ts (list_ways scripts no_scripts) (omega (arith, size))
          (omega (arith, size))
          (IsTable-sats_loop ts scripts no_scripts (some 0) [] maxima no_scripts-IsTable))
  analysis ctx within (tr_key t f key) typed _ = absurd typed
  analysis ctx within (tr_tree t f key tree) typed _ = absurd typed

  analysis_list :
      (ctx : MiniscriptContext) (within_tr : Bool) (scripts : ScriptList) (ms : List Modes)
      → AreTyped within_tr scripts ms
      → AreBounded scripts
      → AnalysesList (compute_children ctx scripts) scripts (list_length scripts)
  analysis_list ctx within nil [] typed _ = ([], refl, refl, tt)
  analysis_list ctx within nil (m ∷ ms) typed _ = absurd typed
  analysis_list ctx within (cons X rest) [] typed _ = absurd typed
  analysis_list ctx within (cons X rest) (m ∷ ms) (_, typed, others) (b, bs) =
      let (out, run, h) = analysis ctx within X typed b in
      let (ts, run', size, maxima) = analysis_list ctx within rest ms others bs in
      (out ∷ ts, rw (run, run') refl, ap suc size, (h, maxima))

-- For every typed miniscript in which each thresh has at least k scripts and at most 128, the analysis
-- returns a result, and its stack sizes are the largest with which the script can be satisfied and
-- dissatisfied canonically: the largest size where it is less than 2 ^ 15, 2 ^ 15 - 1 where a size is
-- larger, and -1 where there is no canonical way. For a thresh it is the largest over all choices of
-- k scripts that are satisfied while the others are dissatisfied. Not among the ways are the
-- non-canonical entries of the table of the language, such as both sides of or_b satisfied, and the
-- dissatisfaction of a hash with a wrong preimage.
pub compute_miniscript_policy_ext_info-ways :
    (ctx : MiniscriptContext) (within_tr : Bool) (script : PolicyNode)
    → IsTyped within_tr script
    → IsBounded script
    → (out : ExtInfo) × (compute_miniscript_policy_ext_info ctx script ≡ some (some out))
      × IsMaximum out.ss.sat (script_ways script true)
      × IsMaximum out.ss.dsat (script_ways script false)
compute_miniscript_policy_ext_info-ways ctx within script typed bounded =
    let (out, run, h) = analysis ctx within script typed bounded in (out, run, h.sat, h.dsat)

check_sizes-items :
    (sat ops_sat : Amount) (count script_size : ℕ)
    → check_sizes sat ops_sat count script_size ≡ some tt
    → (items : ℕ) × (sat ≡ some items) × (items ≤ 100)
unfolding check_sizes
check_sizes-items none ops_sat count script_size e = cc
check_sizes-items (some items) none count script_size e = cc
check_sizes-items (some items) (some keys) count script_size e = elim (Bool-cases (ltb 100 items)) [
  | inl many ↦ absurd (cc)
  | inr few ↦ (items, refl, ground (arith, few))
]

-- A check that was passed
passes :
    {A : Type 0} (b : Bool) (o : Option A) (a : A) → (if b then none else o) ≡ some a → o ≡ some a
passes true o a e = cc
passes false o a e = e

check_info-items :
    (out : ExtInfo)
    → check_info out ≡ some tt
    → (items : ℕ) × (out.ss.sat ≡ some items) × (items ≤ 100)
unfolding check_info
check_info-items out e =
    check_sizes-items out.ss.sat out.ops.sat out.ops.count out.script_size
      (passes (not out.k) _ tt (passes (not out.s) _ tt (passes (not out.m) _ tt e)))

type_b_passes :
    (t : MiniscriptType) (o : Outcome (Unit {0}))
    → if_type_b t o ≡ some (some tt)
    → o ≡ some (some tt)
type_b_passes type_b o e = e
type_b_passes _ o e = cc

-- What the sanity checks have seen
sane_with-check :
    (flags : Flags) (out : ExtInfo)
    → sane_with flags (some (some out)) ≡ some (some tt)
    → check_info out ≡ some tt
unfolding sane_with
sane_with-check none out e = cc
sane_with-check (some m) out e =
    let checked : some (check_info out) ≡ some (some tt) = type_b_passes m.miniscript_type _ e in cc

-- A typed miniscript, in which each thresh has at least k scripts and at most 128, that
-- `is_miniscript_sane` accepts can be satisfied canonically, and the largest canonical way to satisfy
-- it takes at most 100 stack elements. Nothing is said of the non-canonical ways, such as both sides
-- of or_b satisfied, which may take more.
pub is_miniscript_sane-items :
    (ctx : MiniscriptContext) (within_tr : Bool) (script : PolicyNode)
    → IsTyped within_tr script
    → IsBounded script
    → is_miniscript_sane ctx script ≡ some (some tt)
    → (items : ℕ) × (items ≤ 100) × IsMaximum (some items) (script_ways script true)
unfolding is_miniscript_sane
is_miniscript_sane-items ctx within script typed bounded sane =
    let (out, run, h) = analysis ctx within script typed bounded in
    let accepted = ap (sane_with (node_flags script)) (sym run) ∙ sane in
    let (items, size, few) =
      check_info-items out (sane_with-check (node_flags script) out accepted) in
    (items, few, subst (λ (a : Amount). IsMaximum a (script_ways script true)) size h.sat)
