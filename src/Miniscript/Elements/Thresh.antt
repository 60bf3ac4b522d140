-- ===== src/Miniscript/Elements/Thresh.antt =====
-- src/common/wallet.c: `count_z` and `count_o` of a thresh.
use acre_ledger_app.Base.{
  ℕ, zero, suc, ◌+◌, ◌≤◌, ◌≡◌, refl, ap, sym, arith, inl, inr, Option, none, some, ◌>>=◌, List, [],
  ◌∷◌, length, Bool, true, false, Bool-cases, ◌==◌, if◌then◌else◌,
}
use mathlib.Core.Path.{subst}
use acre_ledger_app.Miniscript.Node.{MiniscriptType, type_b, type_w, Modes, ScriptList, nil, cons}
use acre_ledger_app.Miniscript.Typing.{count, check_child, count_children, thresh_modes}
use acre_ledger_app.Miniscript.Ways.{
  Sizes, Ways, one_more, no_scripts, list_ways, script_ways, thresh_ways,
}
use acre_ledger_app.Miniscript.Elements.{
  AllAre, Takes, Obeys, AllAre-both, AllAre-either, not_v_b, and_both,
}

-- The flags of the scripts of a list hold.
unfoldable pub AllObey : List Modes → ScriptList → Type 0
AllObey [] nil = Unit
AllObey [] (cons X rest) = ⊥
AllObey (m ∷ ms) nil = ⊥
AllObey (m ∷ ms) (cons X rest) = Obeys m (script_ways X) × AllObey ms rest

-- All sizes are `c`, whatever the number of satisfied scripts.
abbrev AlwaysAre : ℕ → (ℕ → Sizes) → Type 0
AlwaysAre c P = (k : ℕ) → AllAre c (P k)

abbrev HasNone : (ℕ → Sizes) → Type 0
HasNone P = (k n : ℕ) → P k n → ⊥

one_more-AlwaysAre :
    (P : ℕ → Sizes) (c a s : ℕ) (X : Ways)
    → c + a ≡ s
    → AlwaysAre c P
    → Takes a X
    → AlwaysAre s (one_more X P)
one_more-AlwaysAre P c a s X sum h t zero = AllAre-both sum (h zero) t.1
one_more-AlwaysAre P c a s X sum h t (suc k) =
    AllAre-either (AllAre-both sum (h (suc k)) t.1) (AllAre-both sum (h k) t.0)

one_more-none : (P : ℕ → Sizes) (X : Ways) → HasNone P → HasNone (one_more X P)
one_more-none P X h zero n w = h zero w.0 w.2
one_more-none P X h (suc k) n (inl w) = h (suc k) w.0 w.2
one_more-none P X h (suc k) n (inr w) = h k w.0 w.2

-- A script that takes nothing and takes one element does not exist.
one_more-absurd : (P : ℕ → Sizes) (X : Ways) → Takes 0 X → Takes 1 X → HasNone (one_more X P)
one_more-absurd P X h t zero n w = omega (arith, h.1 w.1 w.3, t.1 w.1 w.3)
one_more-absurd P X h t (suc k) n (inl w) = omega (arith, h.1 w.1 w.3, t.1 w.1 w.3)
one_more-absurd P X h t (suc k) n (inr w) = omega (arith, h.0 w.1 w.3, t.0 w.1 w.3)

list_ways-none : (scripts : ScriptList) (P : ℕ → Sizes) → HasNone P → HasNone (list_ways scripts P)
unfolding list_ways
list_ways-none nil P h = h
list_ways-none (cons X rest) P h = list_ways-none rest _ (one_more-none P (script_ways X) h)

-- How many scripts have the flag z, and how many have o
zs : List Modes → ℕ
zs [] = 0
zs (m ∷ ms) = count m.miniscript_mod_z + zs ms

os : List Modes → ℕ
os [] = 0
os (m ∷ ms) = count m.miniscript_mod_o + os ms

zs_bound : (ms : List Modes) → zs ms ≤ length ms
unfolding zs
zs_bound [] = omega arith
zs_bound (m ∷ ms) = ground (arith, zs_bound ms)

all_z_none :
    (ms : List Modes) (scripts : ScriptList) (P : ℕ → Sizes)
    → AllObey ms scripts
    → zs ms ≡ length ms
    → 1 ≤ os ms
    → HasNone (list_ways scripts P)
unfolding AllObey zs os list_ways
all_z_none [] scripts P h z o = absurd (omega arith)
all_z_none (m ∷ ms) nil P h z o = absurd h
all_z_none (m ∷ ms) (cons X rest) P (h, hs) z o = elim (Bool-cases m.miniscript_mod_z) [
  | inr not_z ↦ absurd (omega (arith, zs_bound ms, z, ap count not_z))
  | inl is_z ↦ elim (Bool-cases m.miniscript_mod_o) [
    | inl is_o ↦ list_ways-none rest _ (one_more-absurd P (script_ways X) (h.z is_z) (h.o is_o))
    | inr not_o ↦
        all_z_none ms rest _ hs (omega (arith, z, ap count is_z)) (omega (arith, o, ap count not_o))
  ]
]

all_z :
    (ms : List Modes) (scripts : ScriptList) (P : ℕ → Sizes) (c : ℕ)
    → AllObey ms scripts
    → zs ms ≡ length ms
    → AlwaysAre c P
    → AlwaysAre c (list_ways scripts P)
unfolding AllObey zs list_ways
all_z [] nil P c h z all = all
all_z [] (cons X rest) P c h z all = absurd h
all_z (m ∷ ms) nil P c h z all = absurd h
all_z (m ∷ ms) (cons X rest) P c (h, hs) z all = elim (Bool-cases m.miniscript_mod_z) [
  | inr not_z ↦ absurd (omega (arith, zs_bound ms, z, ap count not_z))
  | inl is_z ↦
      all_z ms rest _ c hs (omega (arith, z, ap count is_z))
        (one_more-AlwaysAre P c 0 c (script_ways X) (omega arith) all (h.z is_z))
]

one_o :
    (ms : List Modes) (scripts : ScriptList) (P : ℕ → Sizes) (c : ℕ)
    → AllObey ms scripts
    → zs ms + 1 ≡ length ms
    → os ms ≡ 1
    → AlwaysAre c P
    → AlwaysAre (suc c) (list_ways scripts P)
unfolding AllObey zs os list_ways
one_o [] scripts P c h z o all = absurd (omega arith)
one_o (m ∷ ms) nil P c h z o all = absurd h
one_o (m ∷ ms) (cons X rest) P c (h, hs) z o all = elim (Bool-cases m.miniscript_mod_z) [
  | inl is_z ↦ elim (Bool-cases m.miniscript_mod_o) [
    | inl is_o ↦ λ k n w.
        absurd
          (list_ways-none rest _ (one_more-absurd P (script_ways X) (h.z is_z) (h.o is_o)) k n w)
    | inr not_o ↦
        one_o ms rest _ c hs (omega (arith, z, ap count is_z)) (omega (arith, o, ap count not_o))
          (one_more-AlwaysAre P c 0 c (script_ways X) (omega arith) all (h.z is_z))
  ]
  | inr not_z ↦ elim (Bool-cases m.miniscript_mod_o) [
    | inl is_o ↦
        all_z ms rest _ (suc c) hs (omega (arith, z, ap count not_z))
          (one_more-AlwaysAre P c 1 (suc c) (script_ways X) (omega arith) all (h.o is_o))
    | inr not_o ↦ λ k n w. absurd (
        all_z_none ms rest _ hs (omega (arith, z, ap count not_z))
          (omega (arith, o, ap count not_o)) k n w)
  ]
]

if_some : {A : Type 0} (b : Bool) (x y : A) → (if b then some x else none) ≡ some y → x ≡ y
if_some true x y e = cc
if_some false x y e = cc

added :
    (o1 o2 : Option (ℕ × ℕ)) (r : ℕ × ℕ)
    → (o1 >>= λ r1. o2 >>= λ r2. some (r1.0 + r2.0, r1.1 + r2.1)) ≡ some r
    → (r1 : ℕ × ℕ) × (r2 : ℕ × ℕ) × (o1 ≡ some r1)
      × (o2 ≡ some r2)
      × (r1.0 + r2.0 ≡ r.0)
      × (r1.1 + r2.1 ≡ r.1)
added none o2 r e = cc
added (some r1) none r e = cc
added (some r1) (some r2) r e =
    let same : (r1.0 + r2.0, r1.1 + r2.1) ≡ r = cc in
    (r1, r2, refl, refl, ap (λ (r : ℕ × ℕ). r.0) same, ap (λ (r : ℕ × ℕ). r.1) same)

count_children-counts :
    (wanted : MiniscriptType) (ms : List Modes) (r : ℕ × ℕ)
    → count_children wanted ms ≡ some r
    → (r.0 ≡ zs ms) × (r.1 ≡ os ms)
unfolding count_children check_child zs os
count_children-counts wanted [] r e =
    let same : (0, 0) ≡ r = cc in
    (ap (λ (r : ℕ × ℕ). r.0) (sym same), ap (λ (r : ℕ × ℕ). r.1) (sym same))
count_children-counts wanted (m ∷ ms) r e =
    let (r1, r2, child, others, z, o) = added _ _ r e in
    let same : (count m.miniscript_mod_z, count m.miniscript_mod_o) ≡ r1 = if_some _ _ r1 child in
    let (rest_z, rest_o) = count_children-counts type_w ms r2 others in
    (
      omega (arith, z, rest_z, ap (λ (r : ℕ × ℕ). r.0) same),
      omega (arith, o, rest_o, ap (λ (r : ℕ × ℕ). r.1) same),
    )

no_scripts-AlwaysAre : AlwaysAre 0 no_scripts
no_scripts-AlwaysAre zero n e = e
no_scripts-AlwaysAre (suc k) n h = absurd h

result :
    {A B : Type 0} (o : Option A) (f : A → B) (b : B)
    → (o >>= λ a. some (f a)) ≡ some b
    → (a : A) × (o ≡ some a) × (f a ≡ b)
result none f b e = cc
result (some a) f b e = (a, refl, cc)

pub thresh_modes-Obeys :
    (k : ℕ) (scripts : ScriptList) (ms : List Modes) (m : Modes)
    → AllObey ms scripts
    → thresh_modes ms ≡ some m
    → Obeys m (thresh_ways k (list_ways scripts no_scripts))
unfolding thresh_modes
thresh_modes-Obeys k scripts ms m h e =
    let (r, run, same) = result (count_children type_b ms) _ m e in
    let (z, o) = count_children-counts type_b ms r run in
    subst (λ m. Obeys m (thresh_ways k (list_ways scripts no_scripts))) same
      (record {
        z = λ all.
            let takes =
              all_z ms scripts no_scripts 0 h (ground (arith, all, z)) no_scripts-AlwaysAre in
            (takes k, takes 0);
        o = λ most.
            let (others, single) = and_both (r.0 + 1 == length ms) (r.1 == 1) most in
            let takes =
              one_o ms scripts no_scripts 0 h (ground (arith, others, z))
                (ground (arith, single, o)) no_scripts-AlwaysAre in
            (takes k, takes 0);
        v = not_v_b;
      })
