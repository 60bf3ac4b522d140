-- ===== src/Miniscript/Accepted/Scripts.antt =====
-- src/common/wallet.c, `parse_script`: what the parser of thresh ensures of the scripts in it.
use acre_ledger_app.Base.{
  ℕ, zero, suc, ◌+◌, ◌≡◌, ◌≤◌, ◌<◌, ◌^◌, refl, arith, ap, none, some, List, [], ◌∷◌, length, Bool,
  true, false, ◌==◌, ltb, if◌then◌else◌,
}
use mathlib.Core.Path.{subst}
use acre_ledger_app.Miniscript.Node.{MiniscriptType, type_b, type_w, Modes, ScriptList}
use acre_ledger_app.Miniscript.Typing.{count, check_child, count_children, thresh_modes}
use acre_ledger_app.Miniscript.Typed.{IsTyped, AreTyped}
use acre_ledger_app.Miniscript.Parser.{Setup}
use acre_ledger_app.Miniscript.Fragment.{
  Context, ScriptParser, wrapped, first_type, count_z, count_o, thresh_flags, thresh_loop,
  parse_thresh,
}
use acre_ledger_app.Miniscript.Ensures.{
  Ensures, then_use, skip, lifted, required, returned, faulted, either_branch,
}
use acre_ledger_app.Miniscript.Elements.{and_both, same_type-eq}
use acre_ledger_app.Miniscript.Rules.{ChildrenRule, ThreshRule, number_of}
use acre_ledger_app.Miniscript.Accepted.{IsAccepted, AreAccepted, IsParsed, IsParsed-IsTyped, Good}
use acre_ledger_app.Miniscript.Accepted.Fragments.{parse_child_script-ensures}

if_some :
    {A : Type 0} (b : Bool) (a c : A)
    → (if b then some a else none) ≡ some c
    → (b ≡ true) × ((if b then some a else none) ≡ some a)
if_some true a c e = (refl, refl)
if_some false a c e = cc

-- A script that passes the check, with what it counts
check_child-passes :
    (t : MiniscriptType) (x : Modes) (c : ℕ × ℕ)
    → check_child t x ≡ some c
    → (x.miniscript_type ≡ t)
      × (x.miniscript_mod_d ≡ true)
      × (x.miniscript_mod_u ≡ true)
      × (check_child t x ≡ some (count x.miniscript_mod_z, count x.miniscript_mod_o))
unfolding check_child
check_child-passes t x c e =
    let (h, counts) = if_some _ _ c e in
    let (h2, u) = and_both _ x.miniscript_mod_u h in
    let (same, d) = and_both _ x.miniscript_mod_d h2 in (same_type-eq _ t same, d, u, counts)

count_children-more :
    (t : MiniscriptType) (x : Modes) (xs : List Modes)
    → check_child t x ≡ some (count x.miniscript_mod_z, count x.miniscript_mod_o)
    → count_children type_w xs ≡ some (count_z xs, count_o xs)
    → count_children t (x ∷ xs) ≡ some (count_z (x ∷ xs), count_o (x ∷ xs))
unfolding count_children
count_children-more t x xs e rest = rw (e, rest) refl

-- Behind the first, as long as there are fewer than 2 ^ 16 - 1, every script is of type W.
first_type-later : (n : ℕ) → n + 2 < 2 ^ 16 → first_type (n + 1) ≡ type_w
first_type-later n h =
    let other : (wrapped (n + 1 + 1) == 1) ≡ false = ground arith in
    ap (λ (b : Bool). if b then type_b else type_w) other

record Children (w : Bool) (t : MiniscriptType) (fuel : ℕ) (scripts : ScriptList) (ms : List Modes)
    : Type 0 where
  typed : AreTyped w scripts ms
  accepted : AreAccepted w scripts ms
  few : length ms ≤ fuel
  counted : count_children t ms ≡ some (count_z ms, count_o ms)
  rule : ChildrenRule t ms

number_of-count_z : (xs : List Modes) → number_of (λ x. x.miniscript_mod_z) xs ≡ count_z xs
number_of-count_z [] = refl
number_of-count_z (x ∷ xs) = ap (λ (n : ℕ). count x.miniscript_mod_z + n) (number_of-count_z xs)

number_of-count_o : (xs : List Modes) → number_of (λ x. x.miniscript_mod_o) xs ≡ count_o xs
number_of-count_o [] = refl
number_of-count_o (x ∷ xs) = ap (λ (n : ℕ). count x.miniscript_mod_o + n) (number_of-count_o xs)

-- With fewer than 2 ^ 15 scripts `n` does not wrap around.
module _ (ms : List Modes) (small : length ms < 2 ^ 15) where
  no_wrap : wrapped (length ms) ≡ length ms
  no_wrap = omega arith

  positive : ltb (length ms) (2 ^ 15) ≡ true
  positive = ground arith

  thresh_modes-flags :
      count_children type_b ms ≡ some (count_z ms, count_o ms)
      → thresh_modes ms ≡ some (thresh_flags ms)
  unfolding thresh_modes
  thresh_modes-flags e = rw (e, no_wrap, positive) refl

  thresh_flags-ThreshRule : ChildrenRule type_b ms → ThreshRule ms (thresh_flags ms)
  unfolding ThreshRule
  thresh_flags-ThreshRule h =
      (h, rw (no_wrap, positive, number_of-count_z ms, number_of-count_o ms) refl)

module _ (setup : Setup) (script : ScriptParser)
    (ensures : (depth : ℕ) (context : Context)
      → Ensures (script depth context) (Good context.within_tr)) where
  thresh_loop-ensures :
      (depth : ℕ) (context : Context) (fuel n : ℕ)
      → n + fuel ≤ 2 ^ 15
      → Ensures
          (thresh_loop setup script depth context fuel n)
          (λ r. Children context.within_tr (first_type n) fuel r.0 r.1)
  unfolding thresh_loop AreTyped AreAccepted ChildrenRule count_children
  thresh_loop-ensures depth context zero n small = faulted
  thresh_loop-ensures depth context (suc fuel) n small =
      then_use (parse_child_script-ensures setup script ensures depth context) (λ X hX.
        lifted (λ x ex. lifted (λ c ec.
          let (t, d, u, counts) = check_child-passes (first_type n) x c ec in
          let typed = IsParsed-IsTyped _ X x hX.0 ex in
          skip _ (λ more.
            either_branch more
              (skip _ (λ _.
                then_use (thresh_loop-ensures depth context fuel (n + 1) (omega arith)) (λ r h.
                  let later : first_type (n + 1) ≡ type_w = first_type-later n (omega arith) in
                  returned _ (record {
                    typed = (ex, typed, h.typed);
                    accepted = (ex, hX.1, h.accepted);
                    few = omega (arith, h.few);
                    counted = count_children-more (first_type n) x r.1 counts (
                        subst (λ t. count_children t r.1 ≡ some (count_z r.1, count_o r.1)) later
                          h.counted);
                    rule = (t, d, u, subst (λ t. ChildrenRule t r.1) later h.rule);
                  }))))
              (returned _ (record {
                typed = (ex, typed, tt);
                accepted = (ex, hX.1, tt);
                few = omega arith;
                counted = count_children-more (first_type n) x [] counts refl;
                rule = (t, d, u, tt);
              }))))))

  pub parse_thresh-ensures :
      (fuel depth : ℕ) (context : Context)
      → fuel < 2 ^ 15
      → Ensures (parse_thresh setup script fuel depth context) (Good context.within_tr)
  unfolding parse_thresh IsTyped IsParsed IsAccepted
  parse_thresh-ensures fuel depth context small = skip _ (λ _. skip _ (λ k. skip _ (λ _.
      skip _ (λ _. required _ _ (λ e. skip _ (λ _.
        then_use (thresh_loop-ensures depth context fuel 0 (omega arith)) (λ r h.
          let short : length r.1 < 2 ^ 15 = omega (arith, h.few) in
          let low : 1 ≤ k = ground arith in
          returned _ (
            (low, (r.1, h.typed, (thresh_flags r.1, refl, thresh_modes-flags r.1 short h.counted))),
            (
              low,
              r.1,
              h.accepted,
              (thresh_flags r.1, refl, thresh_flags-ThreshRule r.1 short h.rule),
            ),
          ))))))))
