-- ===== src/Client/Sorted/Increasing.antt =====
-- What a success of `call_check_merkle_tree_sorted_with_callback` proves of the elements.
use acre_ledger_app.Base.{
  ℕ, zero, suc, ◌+◌, ◌<◌, ◌≡◌, refl, ap, sym, ◌∙◌, List, [], ◌∷◌, length, load_bytes, arith,
}
use acre_ledger_app.Base.{Bool, true, some}
use mathlib.Core.Path.{subst}
use mathlib.Core.Option.{some-injective}
use acre_ledger_app.Buffer.{Buffer}
use acre_ledger_app.Merkle.{Hash}
use acre_ledger_app.Dispatcher.{M, Context, ok, return, lift, ◌>>=◌}
use acre_ledger_app.Dispatcher.Inversion.{Ensures, ensures_bind, ensures_after, ensures_require}
use acre_ledger_app.Dispatcher.Inversion.{ensures_return, ensures_lift, ensures_weaken}
use acre_ledger_app.Client.Sorted.{
  Sign, less, equal, greater, compare_byte_arrays, is_less, run_callback, sorted_loop,
}
use acre_ledger_app.Client.Sorted.{call_check_merkle_tree_sorted_with_callback}
use acre_ledger_app.Client.Sorted.Order.{Before, compare_byte_arrays_iff}

-- A callback that notes the elements it is given, the newest first
abbrev pub note : List (List ℕ) → ℕ → Buffer → M (List (List ℕ))
note es i buf = lift (load_bytes buf.ptr 0 buf.size) >>= λ e. return (e ∷ es)

-- From the newest on, each element comes after the one noted before it.
pub data IsSorted : List (List ℕ) → Type 0 where
  none_noted : IsSorted []
  first_noted : {e : List ℕ} → IsSorted (e ∷ [])
  next_noted :
      {e e' : List ℕ} {es : List (List ℕ)}
      → Before e e'
      → IsSorted (e ∷ es)
      → IsSorted (e' ∷ e ∷ es)

is_less→Before : (xs ys : List ℕ) → is_less (compare_byte_arrays xs ys) ≡ true → Before xs ys
unfolding is_less
is_less→Before xs ys e = (compare_byte_arrays_iff xs ys).0 (go (compare_byte_arrays xs ys) e)
  where
    go : (s : Sign) → is_less s ≡ true → s ≡ less
    go less e = refl
    go equal e = cc
    go greater e = cc

module _ (sha256 : List ℕ → Hash) (refuses : List ℕ → List ℕ → Bool) (root : Hash) (size : ℕ) where
  abbrev Grown : ℕ → List (List ℕ) → Type 0
  Grown n es = IsSorted es × (length es ≡ n)

  noted :
      (es : List (List ℕ)) (i : ℕ) (buf : Buffer) (e : List ℕ)
      → load_bytes buf.ptr 0 buf.size ≡ some e
      → Ensures (run_callback sha256 refuses root size (some note) es i buf) (λ r. r ≡ e ∷ es)
  unfolding run_callback
  noted es i buf e h =
      ensures_bind _ _ _ (λ r. r ≡ e ∷ es) (ensures_lift (load_bytes buf.ptr 0 buf.size))
        λ e' h'.
          ensures_return (e' ∷ es) (λ r. r ≡ e ∷ es)
            (ap (λ (x : List ℕ). x ∷ es) (some-injective _ _ (sym h' ∙ h)))

  sorted_loop-Grown :
      (n i : ℕ) (e : List ℕ) (es : List (List ℕ))
      → 0 < i
      → IsSorted (e ∷ es)
      → Ensures
          (sorted_loop sha256 refuses root size (some note) n i e (e ∷ es))
          (Grown (n + length (e ∷ es)))
  unfolding sorted_loop
  sorted_loop-Grown zero i e es pos s = ensures_return (e ∷ es) (Grown _) (s, omega arith)
  sorted_loop-Grown (suc n) i e es pos s =
      let Q = Grown (suc n + length (e ∷ es)) in
      ensures_after _ _ Q λ r. ensures_bind _ _ _ Q (ensures_lift (load_bytes r.0 0 r.1)) λ x at.
        ensures_bind _ _ _ Q (ensures_require _ 1) λ _ test.
          ensures_bind _ _ _ Q (noted (e ∷ es) i _ x at) λ es' same.
            let order : IsSorted (x ∷ e ∷ es) =
              next_noted (is_less→Before e x (ground (arith, test))) s in
            ensures_weaken _ (Grown (n + length (x ∷ e ∷ es))) Q (λ out (u, len). (u, omega arith))
              (subst
                (λ (l : List (List ℕ)).
                  Ensures (sorted_loop sha256 refuses root size (some note) n (i + 1) x l)
                    (Grown (n + length (x ∷ e ∷ es))))
                (sym same) (sorted_loop-Grown n (i + 1) x (e ∷ es) (omega arith) order))

  sorted_loop-first :
      (n : ℕ) → Ensures (sorted_loop sha256 refuses root size (some note) n 0 [] []) (Grown n)
  unfolding sorted_loop
  sorted_loop-first zero = ensures_return [] (Grown 0) (none_noted, refl)
  sorted_loop-first (suc n) =
      let Q = Grown (suc n) in
      ensures_after _ _ Q λ r. ensures_bind _ _ _ Q (ensures_lift (load_bytes r.0 0 r.1)) λ x at.
        ensures_after _ _ Q λ _. ensures_bind _ _ _ Q (noted [] 0 _ x at) λ es' same.
          ensures_weaken _ (Grown (n + 1)) Q (λ out (u, len). (u, omega arith))
            (subst
              (λ (l : List (List ℕ)).
                Ensures (sorted_loop sha256 refuses root size (some note) n 1 x l) (Grown (n + 1)))
              (sym same) (sorted_loop-Grown n 1 x [] (omega arith) first_noted))

-- If `call_check_merkle_tree_sorted_with_callback` succeeds with a callback that notes the elements,
-- then, whatever the host sent, it was given as many elements as the tree has leaves, each after the
-- one before it in the strict lexicographical order.
pub call_check_merkle_tree_sorted_with_callback-IsSorted :
    (sha256 : List ℕ → Hash) (refuses : List ℕ → List ℕ → Bool) (root : Hash) (size : ℕ)
    → (dc : Context) (es : List (List ℕ)) (last : Context)
    → call_check_merkle_tree_sorted_with_callback sha256 refuses root size (some note) [] dc
      ≡ some (ok es, last)
    → IsSorted es × (length es ≡ size)
unfolding Ensures call_check_merkle_tree_sorted_with_callback
call_check_merkle_tree_sorted_with_callback-IsSorted sha256 refuses root size dc es last e =
    sorted_loop-first sha256 refuses root size size dc es last e
