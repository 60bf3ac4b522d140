-- ===== src/Miniscript/Thresh.antt =====
-- src/common/wallet.c, `compute_miniscript_policy_ext_info`: thresh.
use acre_ledger_app.Base.{
  ℕ, ◌+◌, ◌-◌, ◌%◌, ◌^◌, Option, none, some, List, [], ◌∷◌, map, length, Bool, true, false, not,
  ◌&&◌, ◌||◌, ◌==◌, ltb, leb, if◌then◌else◌,
}
use acre_ledger_app.Script.{get_push_script_size}
use acre_ledger_app.Miniscript.Amount.{Amount, max_n_in_thresh, sats_loop, read_sats}
use acre_ledger_app.Miniscript.Info.{ExtInfo, MiniscriptOps, MiniscriptStacksize, info, new_ss}

-- A call that may fail: the inner `none` is a negative result, and `none` an access outside the
-- memory.
abbrev pub Outcome : Type 0 → Type 0
Outcome A = Option (Option A)

infixl 5 ◌>>=◌
abbrev pub ◌>>=◌ : {A B : Type 0} → Outcome A → (A → Outcome B) → Outcome B
none >>= f = none
some none >>= f = some none
some (some a) >>= f = f a

abbrev pub returns : {A : Type 0} → A → Outcome A
returns a = some (some a)

-- The end of `compute_thresh_ops` and of `compute_thresh_stacksize`: the amounts to satisfy and to
-- dissatisfy, from those of the children
unfoldable pub thresh_amounts : ℕ → List (Amount × Amount) → Outcome (Amount × Amount)
thresh_amounts k children =
    if ltb max_n_in_thresh (length children)
    then some none
    else (let sats : List Amount = sats_loop children (some 0 ∷ []) in
        elim (read_sats sats k) [
          | none ↦ none
          | some sat ↦ elim (read_sats sats 0) [ none ↦ none | some dsat ↦ returns (sat, dsat) ]
        ])

-- `out->count`
unfoldable pub thresh_count : List ExtInfo → ℕ → ℕ
thresh_count [] count = count
thresh_count (t ∷ ts) count = thresh_count ts ((count + (t.ops.count + 1)) % 2 ^ 16)

unfoldable pub compute_thresh_ops : ℕ → List ExtInfo → Outcome MiniscriptOps
compute_thresh_ops k ts =
    thresh_amounts k (map (λ (t : ExtInfo). (t.ops.sat, t.ops.dsat)) ts) >>= λ r.
    returns (record { count = thresh_count ts 0; sat = r.0; dsat = r.1 })

unfoldable pub compute_thresh_stacksize : ℕ → List ExtInfo → Outcome MiniscriptStacksize
compute_thresh_stacksize k ts =
    thresh_amounts k (map (λ (t : ExtInfo). (t.ss.sat, t.ss.dsat)) ts) >>= λ r.
    returns (new_ss r.0 r.1)

-- `count_s`, `count_e` and `children_scriptsize`, and the flags g, h, i, j and k of `out`
pub record Counts : Type 0 where
  pub count_s : ℕ
  pub count_e : ℕ
  pub children_scriptsize : ℕ
  pub g : Bool
  pub h : Bool
  pub i : Bool
  pub j : Bool
  pub k : Bool

abbrev more_if : Bool → ℕ → ℕ
more_if b n = if b then n + 1 else n

-- The loop over the children. `at_least_2` is `node->k >= 2`.
unfoldable pub children_loop : Bool → List ExtInfo → Counts → Counts
children_loop at_least_2 [] out = out
children_loop at_least_2 (t ∷ ts) out =
    let g : Bool = out.g || t.g in
    let h : Bool = out.h || t.h in
    let i : Bool = out.i || t.i in
    let j : Bool = out.j || t.j in
    let clash : Bool = (t.g && h) || (t.h && g) || (t.i && j) || (t.j && i) in
    children_loop at_least_2 ts (record {
      count_s = more_if t.s out.count_s;
      count_e = more_if t.e out.count_e;
      children_scriptsize = out.children_scriptsize + t.script_size;
      g = g;
      h = h;
      i = i;
      j = j;
      k = out.k && t.k && not (at_least_2 && clash);
    })

abbrev no_children : Counts
no_children = record {
  count_s = 0;
  count_e = 0;
  children_scriptsize = 0;
  g = false;
  h = false;
  i = false;
  j = false;
  k = true;
}

-- `out`, from the results for the children and what the two calls return
abbrev pub thresh_out : ℕ → List ExtInfo → MiniscriptOps → MiniscriptStacksize → ExtInfo
thresh_out k ts ops ss =
    let c : Counts = children_loop (leb 2 k) ts no_children in
    let count_not_s : ℕ = length ts - c.count_s in
    record (info (c.children_scriptsize + length ts + get_push_script_size k) ops ss) {
      s = leb (count_not_s + 1) k;
      e = c.count_s == length ts;
      m = (c.count_e == length ts) && leb count_not_s k;
      g = c.g;
      h = c.h;
      i = c.i;
      j = c.j;
      k = c.k;
      x = false;
    }

-- The code computes the results for the children once for each of its three loops; they are the same
-- each time.
unfoldable pub thresh_info : ℕ → List ExtInfo → Outcome ExtInfo
thresh_info k ts = compute_thresh_ops k ts >>= λ ops.
    compute_thresh_stacksize k ts >>= λ ss. returns (thresh_out k ts ops ss)
