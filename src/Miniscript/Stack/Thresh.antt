-- ===== src/Miniscript/Stack/Thresh.antt =====
-- src/common/wallet.c: what `compute_thresh_stacksize` reads in its table.
use acre_ledger_app.Base.{
  ℕ, zero, suc, ◌+◌, ◌≤◌, ◌<◌, ◌≡◌, refl, ap, ◌∙◌, arith, some, List, [], ◌∷◌, length, map,
  get_elem?, false, ltb,
}
use mathlib.Core.Path.{subst}
use acre_ledger_app.Miniscript.Amount.{
  Amount, next_tail, next_sats, sats_loop, read_sats, max_n_in_thresh,
}
use acre_ledger_app.Miniscript.Info.{ExtInfo, new_ss}
use acre_ledger_app.Miniscript.Thresh.{
  thresh_amounts, compute_thresh_ops, compute_thresh_stacksize, thresh_info, thresh_out,
  thresh_count,
}
use acre_ledger_app.Miniscript.Ways.{Sizes, thresh_ways}
use acre_ledger_app.Miniscript.Maximum.{IsMaximum, IsTable}
use acre_ledger_app.Miniscript.Stack.{HasMaxima}

length-next_tail :
    (sat dsat prev : Amount) (cs : List Amount)
    → length (next_tail sat dsat prev cs) ≡ suc (length cs)
unfolding next_tail
length-next_tail sat dsat prev [] = refl
length-next_tail sat dsat prev (c ∷ cs) = ap suc (length-next_tail sat dsat c cs)

length-sats_loop :
    (ts : List (Amount × Amount)) (c : Amount) (cs : List Amount)
    → length (sats_loop ts (c ∷ cs)) ≡ length ts + suc (length cs)
unfolding sats_loop next_sats
length-sats_loop [] c cs = omega arith
length-sats_loop (t ∷ ts) c cs =
    length-sats_loop ts _ (next_tail t.0 t.1 c cs) ∙ omega (arith, length-next_tail t.0 t.1 c cs)

entry : (cs : List Amount) (k : ℕ) → k < length cs → (a : Amount) × (get_elem? cs k ≡ some a)
entry [] k h = absurd (omega arith)
entry (c ∷ cs) zero h = (c, refl)
entry (c ∷ cs) (suc k) h = entry cs k (omega arith)

IsMaximum-entry :
    (cs : List Amount) (P : ℕ → Sizes) (k : ℕ) (a : Amount)
    → IsTable cs P
    → get_elem? cs k ≡ some a
    → IsMaximum a (P k)
IsMaximum-entry [] P k a h e = cc
IsMaximum-entry (c ∷ cs) P zero a h e =
    let same : c ≡ a = cc in subst (λ (a : Amount). IsMaximum a (P 0)) same h.0
IsMaximum-entry (c ∷ cs) P (suc k) a h e = IsMaximum-entry cs (λ k. P (suc k)) k a h.1 e

-- The table of the children at the end of the loop
abbrev pub table : List (Amount × Amount) → List Amount
table ts = sats_loop ts (some 0 ∷ [])

thresh_amounts-reads :
    (k : ℕ) (ts : List (Amount × Amount))
    → k ≤ length ts
    → length ts ≤ max_n_in_thresh
    → (sat : Amount) × (dsat : Amount) × (thresh_amounts k ts ≡ some (some (sat, dsat)))
      × (get_elem? (table ts) k ≡ some sat)
      × (get_elem? (table ts) 0 ≡ some dsat)
unfolding thresh_amounts read_sats
thresh_amounts-reads k ts h few =
    let size = length-sats_loop ts (some 0) [] in
    let (sat, found) = entry (table ts) k (omega (arith, size)) in
    let (dsat, first) = entry (table ts) 0 (omega (arith, size)) in
    let guard : ltb 128 (length ts) ≡ false = ground (arith, few) in
    (sat, dsat, rw (guard, found, first) refl, found, first)

length-map : {A B : Type 0} (f : A → B) (xs : List A) → length (map f xs) ≡ length xs
length-map f [] = refl
length-map f (x ∷ xs) = ap suc (length-map f xs)

abbrev pub stack_sizes : ExtInfo → Amount × Amount
stack_sizes t = (t.ss.sat, t.ss.dsat)

pub thresh_info-Finds :
    (k : ℕ) (ts : List ExtInfo) (P : ℕ → Sizes)
    → k ≤ length ts
    → length ts ≤ max_n_in_thresh
    → IsTable (table (map stack_sizes ts)) P
    → (out : ExtInfo) × (thresh_info k ts ≡ some (some out)) × HasMaxima out.ss (thresh_ways k P)
unfolding thresh_info compute_thresh_ops compute_thresh_stacksize
thresh_info-Finds k ts P h few maxima =
    let ops : List (Amount × Amount) = map (λ (t : ExtInfo). (t.ops.sat, t.ops.dsat)) ts in
    let sizes : List (Amount × Amount) = map stack_sizes ts in
    let ops_len = length-map {B = Amount × Amount} (λ (t : ExtInfo). (t.ops.sat, t.ops.dsat)) ts in
    let sizes_len = length-map stack_sizes ts in
    let (most, least, ops_run, _, _) =
      thresh_amounts-reads k ops (omega (arith, ops_len)) (omega (arith, ops_len)) in
    let (sat, dsat, run, found, first) =
      thresh_amounts-reads k sizes (omega (arith, sizes_len)) (omega (arith, sizes_len)) in
    (
      thresh_out k ts (record { count = thresh_count ts 0; sat = most; dsat = least })
          (new_ss sat dsat),
      rw (ops_run, run) refl,
      record {
        sat = IsMaximum-entry (table sizes) P k sat maxima found;
        dsat = IsMaximum-entry (table sizes) P 0 dsat maxima first;
      },
    )
