-- ===== src/Miniscript/Rules.antt =====
-- The type system of miniscript, from the tables that define the language: for each fragment what it
-- asks of its arguments, and its type and properties. The checks of src/common/wallet.c are compared
-- with it.
pub mod Checks
use acre_ledger_app.Base.{
  ℕ, ◌+◌, ◌^◌, ◌≤◌, ◌<◌, ◌≡◌, none, some, List, [], ◌∷◌, length, Bool, true, false, ◌&&◌, ◌||◌,
  ◌==◌, if◌then◌else◌,
}
use acre_ledger_app.Miniscript.Node.{
  PolicyNodeType, MiniscriptType, type_b, type_v, type_k, type_w, Modes, Flags, thresh, token_pk,
  token_pkh, token_multi, token_multi_a, token_0, token_1, token_pk_k, token_pk_h, token_older,
  token_after, token_sha256, token_hash256, token_ripemd160, token_hash160, token_and_v,
  token_and_b, token_and_n, token_or_b, token_or_c, token_or_d, token_or_i, token_a, token_s,
  token_c, token_t, token_d, token_v, token_j, token_n, token_l, token_u,
}

-- A type with the properties z, o, n, d and u
abbrev pub has : MiniscriptType → (z o n d u : Bool) → Modes
has t z o n d u = record {
  miniscript_type = t;
  miniscript_mod_z = z;
  miniscript_mod_o = o;
  miniscript_mod_n = n;
  miniscript_mod_d = d;
  miniscript_mod_u = u;
}

-- 0, 1, the keys and the hashes: Bzud, Bzu, Kondu for a key, Kndu for a hashed key, Bondu for a hash;
-- pk and pkh are c: of the keys. No other token without scripts is a miniscript.
unfoldable pub LeafRule : PolicyNodeType → Flags → Type 0
LeafRule token_0 f = f ≡ some (has type_b true false false true true)
LeafRule token_1 f = f ≡ some (has type_b true false false false true)
LeafRule token_pk_k f = f ≡ some (has type_k false true true true true)
LeafRule token_pk_h f = f ≡ some (has type_k false false true true true)
LeafRule token_pk f = f ≡ some (has type_b false true true true true)
LeafRule token_pkh f = f ≡ some (has type_b false false true true true)
LeafRule token_sha256 f = f ≡ some (has type_b false true true true true)
LeafRule token_hash256 f = f ≡ some (has type_b false true true true true)
LeafRule token_ripemd160 f = f ≡ some (has type_b false true true true true)
LeafRule token_hash160 f = f ≡ some (has type_b false true true true true)
LeafRule _ f = f ≡ none

-- older and after: Bz
unfoldable pub TimelockRule : PolicyNodeType → Flags → Type 0
TimelockRule token_older f = f ≡ some (has type_b true false false false false)
TimelockRule token_after f = f ≡ some (has type_b true false false false false)
TimelockRule _ f = f ≡ none

-- multi: Bndu; multi_a: Bdu
unfoldable pub MultisigRule : PolicyNodeType → Flags → Type 0
MultisigRule token_multi f = f ≡ some (has type_b false false true true true)
MultisigRule token_multi_a f = f ≡ some (has type_b false false false true true)
MultisigRule _ f = f ≡ none

-- d: has u in tapscript only. t:X is and_v(X,1), and l:X and u:X are or_i with 0.
unfoldable pub WrapperRule : Bool → PolicyNodeType → Modes → Modes → Type 0
WrapperRule within_tr token_a x m =
    (x.miniscript_type ≡ type_b)
    × (m ≡ has type_w false false false x.miniscript_mod_d x.miniscript_mod_u)
WrapperRule within_tr token_s x m =
    (x.miniscript_type ≡ type_b)
    × (x.miniscript_mod_o ≡ true)
    × (m ≡ has type_w false false false x.miniscript_mod_d x.miniscript_mod_u)
WrapperRule within_tr token_c x m =
    (x.miniscript_type ≡ type_k)
    × (m ≡ has type_b false x.miniscript_mod_o x.miniscript_mod_n x.miniscript_mod_d true)
WrapperRule within_tr token_t x m =
    (x.miniscript_type ≡ type_v)
    × (m ≡ has type_b x.miniscript_mod_z x.miniscript_mod_o x.miniscript_mod_n false true)
WrapperRule within_tr token_d x m =
    (x.miniscript_type ≡ type_v)
    × (x.miniscript_mod_z ≡ true)
    × (m ≡ has type_b false true true true within_tr)
WrapperRule within_tr token_v x m =
    (x.miniscript_type ≡ type_b)
    × (m ≡ has type_v x.miniscript_mod_z x.miniscript_mod_o x.miniscript_mod_n false false)
WrapperRule within_tr token_j x m =
    (x.miniscript_type ≡ type_b)
    × (x.miniscript_mod_n ≡ true)
    × (m ≡ has type_b false x.miniscript_mod_o true true x.miniscript_mod_u)
WrapperRule within_tr token_n x m =
    (x.miniscript_type ≡ type_b)
    × (m
        ≡ has type_b x.miniscript_mod_z x.miniscript_mod_o x.miniscript_mod_n x.miniscript_mod_d
            true)
WrapperRule within_tr token_l x m =
    (x.miniscript_type ≡ type_b)
    × (m ≡ has type_b false x.miniscript_mod_z false true x.miniscript_mod_u)
WrapperRule within_tr token_u x m =
    (x.miniscript_type ≡ type_b)
    × (m ≡ has type_b false x.miniscript_mod_z false true x.miniscript_mod_u)
WrapperRule within_tr _ x m = ⊥

-- B, V or K
abbrev pub IsBase : MiniscriptType → Type 0
IsBase type_w = ⊥
IsBase _ = Unit

-- andor(X,Y,Z): X is Bdu; Y and Z are both B, K or V. z = zXzYzZ; o = zXoYoZ or oXzYzZ; u = uYuZ;
-- d = dZ.
unfoldable pub AndorRule : Modes → Modes → Modes → Modes → Type 0
AndorRule x y z m =
    (x.miniscript_type ≡ type_b)
    × (x.miniscript_mod_d ≡ true)
    × (x.miniscript_mod_u ≡ true)
    × (y.miniscript_type ≡ z.miniscript_type)
    × IsBase y.miniscript_type
    × (m
        ≡ has y.miniscript_type (x.miniscript_mod_z && y.miniscript_mod_z && z.miniscript_mod_z)
            ((x.miniscript_mod_z && y.miniscript_mod_o && z.miniscript_mod_o)
              || (x.miniscript_mod_o && y.miniscript_mod_z && z.miniscript_mod_z))
            false z.miniscript_mod_d (y.miniscript_mod_u && z.miniscript_mod_u))

-- zXoY or oXzY
abbrev one_element : Modes → Modes → Bool
one_element x y =
    (x.miniscript_mod_z && y.miniscript_mod_o) || (x.miniscript_mod_o && y.miniscript_mod_z)

-- nX or zXnY
abbrev non_zero : Modes → Modes → Bool
non_zero x y = x.miniscript_mod_n || (x.miniscript_mod_z && y.miniscript_mod_n)

-- and_n(X,Y) is andor(X,Y,0).
unfoldable pub Script2Rule : PolicyNodeType → Modes → Modes → Modes → Type 0
Script2Rule token_and_v x y m =
    (x.miniscript_type ≡ type_v)
    × IsBase y.miniscript_type
    × (m
        ≡ has y.miniscript_type (x.miniscript_mod_z && y.miniscript_mod_z) (one_element x y)
            (non_zero x y) false y.miniscript_mod_u)
Script2Rule token_and_b x y m =
    (x.miniscript_type ≡ type_b)
    × (y.miniscript_type ≡ type_w)
    × (m
        ≡ has type_b (x.miniscript_mod_z && y.miniscript_mod_z) (one_element x y) (non_zero x y)
            (x.miniscript_mod_d && y.miniscript_mod_d) true)
Script2Rule token_and_n x y m =
    (x.miniscript_type ≡ type_b)
    × (x.miniscript_mod_d ≡ true)
    × (x.miniscript_mod_u ≡ true)
    × (y.miniscript_type ≡ type_b)
    × (m
        ≡ has type_b (x.miniscript_mod_z && y.miniscript_mod_z)
            (x.miniscript_mod_o && y.miniscript_mod_z) false true y.miniscript_mod_u)
Script2Rule token_or_b x z m =
    (x.miniscript_type ≡ type_b)
    × (x.miniscript_mod_d ≡ true)
    × (z.miniscript_type ≡ type_w)
    × (z.miniscript_mod_d ≡ true)
    × (m ≡ has type_b (x.miniscript_mod_z && z.miniscript_mod_z) (one_element x z) false true true)
Script2Rule token_or_c x z m =
    (x.miniscript_type ≡ type_b)
    × (x.miniscript_mod_d ≡ true)
    × (x.miniscript_mod_u ≡ true)
    × (z.miniscript_type ≡ type_v)
    × (m
        ≡ has type_v (x.miniscript_mod_z && z.miniscript_mod_z)
            (x.miniscript_mod_o && z.miniscript_mod_z) false false false)
Script2Rule token_or_d x z m =
    (x.miniscript_type ≡ type_b)
    × (x.miniscript_mod_d ≡ true)
    × (x.miniscript_mod_u ≡ true)
    × (z.miniscript_type ≡ type_b)
    × (m
        ≡ has type_b (x.miniscript_mod_z && z.miniscript_mod_z)
            (x.miniscript_mod_o && z.miniscript_mod_z) false z.miniscript_mod_d z.miniscript_mod_u)
Script2Rule token_or_i x z m =
    IsBase x.miniscript_type
    × (x.miniscript_type ≡ z.miniscript_type)
    × (m
        ≡ has x.miniscript_type false (x.miniscript_mod_z && z.miniscript_mod_z) false
            (x.miniscript_mod_d || z.miniscript_mod_d) (x.miniscript_mod_u && z.miniscript_mod_u))
Script2Rule _ x y m = ⊥

-- The scripts of thresh: the first is Bdu, the others Wdu.
unfoldable pub ChildrenRule : MiniscriptType → List Modes → Type 0
ChildrenRule t [] = Unit
ChildrenRule t (x ∷ xs) =
    (x.miniscript_type ≡ t)
    × (x.miniscript_mod_d ≡ true)
    × (x.miniscript_mod_u ≡ true)
    × ChildrenRule type_w xs

abbrev pub number_of : (Modes → Bool) → List Modes → ℕ
number_of p [] = 0
number_of p (x ∷ xs) = (if p x then 1 else 0) + number_of p xs

-- z: all are z. o: all but one are z, and one is o. Always d and u.
unfoldable pub ThreshRule : List Modes → Modes → Type 0
ThreshRule xs m =
    ChildrenRule type_b xs
    × (m
        ≡ has type_b (number_of (λ x. x.miniscript_mod_z) xs == length xs)
            ((number_of (λ x. x.miniscript_mod_z) xs + 1 == length xs)
              && (number_of (λ x. x.miniscript_mod_o) xs == 1))
            false true true)
