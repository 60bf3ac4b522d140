-- ===== src/Miniscript/Ways.antt =====
-- What a miniscript is satisfied and dissatisfied with canonically: the numbers of stack elements,
-- from the table of satisfactions that defines the language, without its non-canonical entries: both
-- sides of or_b are never satisfied together, a dissatisfaction has no satisfied part, and exactly k
-- scripts of a thresh are satisfied or none. Neither is a hash dissatisfied with a wrong preimage,
-- which is malleable.
use acre_ledger_app.Base.{ℕ, zero, suc, ◌+◌, ◌≡◌, ◌⊎◌, length, Bool, true, false}
use acre_ledger_app.Miniscript.Node.{
  PolicyNodeType, PolicyNode, constant, with_script, with_script2, with_script3, with_key,
  with_uint32, multisig, thresh, with_hash_160, with_hash_256, tr_key, tr_tree, ScriptList, nil,
  cons, token_pk, token_pkh, token_multi, token_multi_a, token_0, token_1, token_pk_k, token_pk_h,
  token_older, token_after, token_sha256, token_hash256, token_ripemd160, token_hash160,
  token_and_v, token_and_b, token_and_n, token_or_b, token_or_c, token_or_d, token_or_i, token_a,
  token_s, token_c, token_t, token_d, token_v, token_j, token_n, token_l, token_u,
}

-- The numbers of elements that are possible
abbrev pub Sizes : Type 1
Sizes = ℕ → Type 0

abbrev pub Never : Sizes
Never n = ⊥

abbrev pub Exactly : ℕ → Sizes
Exactly c n = n ≡ c

-- One after the other
abbrev pub Both : Sizes → Sizes → Sizes
Both P Q n = (a : ℕ) × (b : ℕ) × P a × Q b × (n ≡ a + b)

abbrev pub Either : Sizes → Sizes → Sizes
Either P Q n = P n ⊎ Q n

-- To satisfy (true) and to dissatisfy (false), canonically
abbrev pub Ways : Type 1
Ways = Bool → Sizes

abbrev pub ways : Sizes → Sizes → Ways
ways sat dsat true = sat
ways sat dsat false = dsat

-- A signature or a preimage is one element; a key that is hashed is shown with the signature.
abbrev pub leaf_ways : PolicyNodeType → Ways
leaf_ways token_0 = ways Never (Exactly 0)
leaf_ways token_1 = ways (Exactly 0) Never
leaf_ways token_pk = ways (Exactly 1) (Exactly 1)
leaf_ways token_pk_k = ways (Exactly 1) (Exactly 1)
leaf_ways token_pkh = ways (Exactly 2) (Exactly 2)
leaf_ways token_pk_h = ways (Exactly 2) (Exactly 2)
leaf_ways token_older = ways (Exactly 0) Never
leaf_ways token_after = ways (Exactly 0) Never
leaf_ways token_sha256 = ways (Exactly 1) Never
leaf_ways token_hash256 = ways (Exactly 1) Never
leaf_ways token_ripemd160 = ways (Exactly 1) Never
leaf_ways token_hash160 = ways (Exactly 1) Never
leaf_ways _ = ways Never Never

-- CHECKMULTISIG takes the signatures and one element more; CHECKSIGADD takes one element for each key.
abbrev pub multisig_ways : PolicyNodeType → ℕ → ℕ → Ways
multisig_ways token_multi k n = ways (Exactly (k + 1)) (Exactly (k + 1))
multisig_ways token_multi_a k n = ways (Exactly n) (Exactly n)
multisig_ways _ k n = ways Never Never

-- An IF takes one element, and so does its dissatisfaction.
abbrev pub wrapper_ways : PolicyNodeType → Ways → Ways
wrapper_ways token_a X = X
wrapper_ways token_s X = X
wrapper_ways token_c X = X
wrapper_ways token_n X = X
wrapper_ways token_d X = ways (Both (Exactly 1) (X true)) (Exactly 1)
wrapper_ways token_t X = ways (X true) Never
wrapper_ways token_v X = ways (X true) Never
wrapper_ways token_j X = ways (X true) (Exactly 1)
wrapper_ways token_l X =
    ways (Both (X true) (Exactly 1)) (Either (Exactly 1) (Both (X false) (Exactly 1)))
wrapper_ways token_u X =
    ways (Both (X true) (Exactly 1)) (Either (Exactly 1) (Both (X false) (Exactly 1)))
wrapper_ways _ X = ways Never Never

abbrev pub script2_ways : PolicyNodeType → Ways → Ways → Ways
script2_ways token_and_v X Y = ways (Both (X true) (Y true)) Never
script2_ways token_and_b X Y = ways (Both (X true) (Y true)) (Both (X false) (Y false))
script2_ways token_and_n X Y = ways (Both (X true) (Y true)) (X false)
script2_ways token_or_b X Z =
    ways (Either (Both (X false) (Z true)) (Both (X true) (Z false))) (Both (X false) (Z false))
script2_ways token_or_c X Z = ways (Either (X true) (Both (X false) (Z true))) Never
script2_ways token_or_d X Z =
    ways (Either (X true) (Both (X false) (Z true))) (Both (X false) (Z false))
script2_ways token_or_i X Z =
    ways (Either (Both (X true) (Exactly 1)) (Both (Z true) (Exactly 1)))
      (Either (Both (X false) (Exactly 1)) (Both (Z false) (Exactly 1)))
script2_ways _ X Z = ways Never Never

abbrev pub andor_ways : Ways → Ways → Ways → Ways
andor_ways X Y Z =
    ways (Either (Both (X true) (Y true)) (Both (X false) (Z true))) (Both (X false) (Z false))

-- The sizes for `k` of the scripts so far, for each `k`: before the first, nothing
abbrev pub no_scripts : ℕ → Sizes
no_scripts zero = Exactly 0
no_scripts (suc k) = Never

-- One script more, which is satisfied or not
abbrev pub one_more : Ways → (ℕ → Sizes) → ℕ → Sizes
one_more X P zero = Both (P zero) (X false)
one_more X P (suc k) = Either (Both (P (suc k)) (X false)) (Both (P k) (X true))

abbrev pub thresh_ways : ℕ → (ℕ → Sizes) → Ways
thresh_ways k P = ways (P k) (P 0)

unfoldable mutual
  pub script_ways : PolicyNode → Ways
  script_ways (constant t f) = leaf_ways t
  script_ways (with_key t f key) = leaf_ways t
  script_ways (with_uint32 t f n) = leaf_ways t
  script_ways (with_hash_160 t f h) = leaf_ways t
  script_ways (with_hash_256 t f h) = leaf_ways t
  script_ways (multisig t f k keys) = multisig_ways t k (length keys)
  script_ways (with_script t f X) = wrapper_ways t (script_ways X)
  script_ways (with_script2 t f X Y) = script2_ways t (script_ways X) (script_ways Y)
  script_ways (with_script3 t f X Y Z) = andor_ways (script_ways X) (script_ways Y) (script_ways Z)
  script_ways (thresh t f k scripts) = thresh_ways k (list_ways scripts no_scripts)
  script_ways (tr_key t f key) = ways Never Never
  script_ways (tr_tree t f key tree) = ways Never Never

  pub list_ways : ScriptList → (ℕ → Sizes) → ℕ → Sizes
  list_ways nil P = P
  list_ways (cons X rest) P = list_ways rest (one_more (script_ways X) P)
