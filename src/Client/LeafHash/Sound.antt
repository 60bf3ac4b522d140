-- ===== src/Client/LeafHash/Sound.antt =====
-- What a success of `call_get_merkle_leaf_hash` proves about the hash that it returns.
use acre_ledger_app.Base.{ℕ, zero, suc, ◌-◌, ◌^◌, ◌≤◌, ◌<◌, ◌≡◌, refl, ap, ◌∙◌, sym, arith}
use mathlib.Core.Path.{subst}
use acre_ledger_app.Base.{
  Option, none, some, List, length, Bool, true, false, ==_iff, take, ◌⊎◌, ◌==◌, load_bytes, [], ◌∷◌,
}
use acre_ledger_app.Merkle.{Hash, get_ith_direction}
use acre_ledger_app.Merkle.Tree.{Tree, size, root, IsMerkle, path, subtree}
use acre_ledger_app.Merkle.Climb.{
  Climb, done, step_left, step_right, IsHashed, SecondPreimage, Climb-IsNodeHash,
}
use acre_ledger_app.Base.Blocks.{length-load_bytes}
use acre_ledger_app.Dispatcher.{Context, M, ok, lift}
use acre_ledger_app.Dispatcher.Inversion.{>>=-eq-ok, lift-eq-ok, result-injective}
use acre_ledger_app.Dispatcher.Inversion.{
  Ensures, ensures_bind, ensures_after, ensures_require, ensures_or_return,
}
use acre_ledger_app.Dispatcher.Inversion.{
  ensures_return, ensures_lift, ensures_error, ensures_weaken, ensures_if, ensures_read_bytes,
  ensures_in_context,
}
use acre_ledger_app.Client.LeafHash.{
  Proof, proof_step, proof_steps, proof_loop, sibling, step_towards,
}
use acre_ledger_app.Client.LeafHash.{continue_proof}
use acre_ledger_app.Client.LeafHash.{call_get_merkle_leaf_hash, same_bytes}

pub same_bytes→eq : (xs ys : List ℕ) → same_bytes xs ys ≡ true → xs ≡ ys
unfolding same_bytes
same_bytes→eq [] [] e = refl
same_bytes→eq [] (y ∷ ys) e = cc
same_bytes→eq (x ∷ xs) [] e = cc
same_bytes→eq (x ∷ xs) (y ∷ ys) e = ground (arith, same_bytes→eq xs ys)

module _ (sha256 : List ℕ → Hash) (tree_size leaf_index proof_size : ℕ) where
  -- From the state `p` the climb goes by the state `p'`.
  abbrev By : Proof → Proof → Type 0
  By p p' =
      (b : ℕ) (h : Hash)
      → Climb sha256 tree_size leaf_index proof_size p'.cur_step p'.cur_hash b h
      → Climb sha256 tree_size leaf_index proof_size p.cur_step p.cur_hash b h

  length-sibling : Ensures (sibling sha256 tree_size leaf_index proof_size) (λ s. length s ≡ 32)
  unfolding sibling Ensures
  length-sibling dc s last e =
      let o = load_bytes dc.read_buffer.ptr dc.read_buffer.offset 32 in
      let (s', next, found, same) = >>=-eq-ok (lift o) _ dc e in
      ap length (sym (result-injective s' s _ last same))
      ∙ length-load_bytes 32 dc.read_buffer.ptr dc.read_buffer.offset (lift-eq-ok o dc found)

  step_towards-By :
      (p : Proof) (direction : Option ℕ)
      → get_ith_direction tree_size leaf_index (proof_size - p.cur_step - 1) ≡ some direction
      → Ensures (step_towards sha256 tree_size leaf_index proof_size p direction) (By p)
  unfolding step_towards
  step_towards-By p none there = ensures_error 1 (By p)
  step_towards-By p (some d) there =
      ensures_if (d == 0) _ _ (By p)
        (λ left.
          let is_left = ap (λ (k : ℕ). some (some k)) ((==_iff d 0).0 left) in
          ensures_bind _ _ (λ s. length s ≡ 32) (By p) length-sibling
            λ s wide. ensures_return _ (By p) λ b h c. step_left s (there ∙ is_left) c)
        λ _.
          ensures_if (d == 1) _ _ (By p)
            (λ right.
              let is_right = ap (λ (k : ℕ). some (some k)) ((==_iff d 1).0 right) in
              ensures_bind _ _ (λ s. length s ≡ 32) (By p) length-sibling
                λ s wide. ensures_return _ (By p) λ b h c. step_right s wide (there ∙ is_right) c)
            λ _. ensures_error 1 (By p)

  proof_step-By : (p : Proof) → Ensures (proof_step sha256 tree_size leaf_index proof_size p) (By p)
  unfolding proof_step
  proof_step-By p = ensures_bind _ _ _ (By p) (ensures_lift _) (step_towards-By p)

  proof_steps-By :
      (n : ℕ) (p : Proof) → Ensures (proof_steps sha256 tree_size leaf_index proof_size n p) (By p)
  unfolding proof_steps
  proof_steps-By zero p = ensures_return p (By p) λ b h c. c
  proof_steps-By (suc n) p = ensures_bind _ _ (By p) (By p) (proof_step-By p) λ q by.
      ensures_weaken _ (By q) (By p) (λ r by' b h c. by b h (by' b h c)) (proof_steps-By n q)

  -- The hash that the loop returns is the end of a climb from `p`.
  abbrev Ends : Proof → Hash → Type 0
  Ends p r = Climb sha256 tree_size leaf_index proof_size p.cur_step p.cur_hash proof_size r

  continue_proof-Ends :
      (test : Bool) (q : Proof) (round : ℕ → M Hash)
      → (q.cur_step == proof_size) ≡ test
      → ((n : ℕ) → Ensures (round n) (Ends q))
      → Ensures (continue_proof sha256 tree_size leaf_index proof_size test q round) (Ends q)
  unfolding continue_proof
  continue_proof-Ends true q round at_end rounds = ensures_return q.cur_hash (Ends q) (
      subst
        (λ (b : ℕ). Climb sha256 tree_size leaf_index proof_size q.cur_step q.cur_hash b q.cur_hash)
        ((==_iff q.cur_step proof_size).0 at_end) done)
  continue_proof-Ends false q round at_end rounds = ensures_after _ round (Ends q) rounds

  -- Whatever the host answers, a verified proof is a climb to the hash that the loop returns.
  proof_loop-Ends :
      (fuel n : ℕ) (p : Proof)
      → Ensures (proof_loop sha256 tree_size leaf_index proof_size fuel n p) (Ends p)
  unfolding proof_loop
  proof_loop-Ends zero n p = unfold Ensures in (λ dc r last e. cc)
  proof_loop-Ends (suc fuel) n p = ensures_bind _ _ (By p) (Ends p) (proof_steps-By n p) λ q by.
      ensures_weaken _ (Ends q) (Ends p) (λ r. by proof_size r)
        (continue_proof-Ends (q.cur_step == proof_size) q _ refl (λ k. proof_loop-Ends fuel k q))

module _ (sha256 : List ℕ → Hash) (merkle_root : Hash) (tree_size leaf_index : ℕ) where
  -- The hash that a success returns, and the climb from it to the root
  abbrev IsProved : Hash → Type 0
  IsProved h = (length h ≡ 32) × ((p : ℕ) × Climb sha256 tree_size leaf_index p 0 h p merkle_root)

  call-IsProved :
      Ensures (call_get_merkle_leaf_hash sha256 merkle_root tree_size leaf_index) IsProved
  unfolding call_get_merkle_leaf_hash
  call-IsProved = ensures_after _ _ IsProved λ _. ensures_after _ _ IsProved λ _.
      ensures_after _ _ IsProved λ _. ensures_after _ _ IsProved λ _.
        ensures_after _ _ IsProved λ _. ensures_after _ _ IsProved λ _.
          ensures_bind _ _ _ IsProved (ensures_or_return _ 1 _ (ensures_read_bytes 32))
            λ cur_hash wide. ensures_after _ _ IsProved λ proof_size.
              ensures_after _ _ IsProved λ n. ensures_after _ _ IsProved λ _.
                ensures_after _ _ IsProved λ _.
                  ensures_bind _ _
                    (λ r. Climb sha256 tree_size leaf_index proof_size 0 cur_hash proof_size r)
                    IsProved
                    (ensures_in_context
                      (λ dc.
                        proof_loop sha256 tree_size leaf_index proof_size (suc (length dc.host)) n
                          (record { cur_step = 0; cur_hash = cur_hash }))
                      _
                      λ dc.
                        proof_loop-Ends sha256 tree_size leaf_index proof_size
                          (suc (length dc.host)) n (record { cur_step = 0; cur_hash = cur_hash }))
                    λ r climb. ensures_bind _ _ _ IsProved (ensures_require _ 1) λ _ same.
                      ensures_return cur_hash IsProved (
                        wide,
                        (
                          proof_size,
                          subst (Climb sha256 tree_size leaf_index proof_size 0 cur_hash proof_size)
                              (sym (same_bytes→eq merkle_root r same)) climb,
                        ),
                      )

-- If `call_get_merkle_leaf_hash` succeeds for the root and the size of a Merkle tree of at most
-- 2 ^ 31 leaves, with hashes of 32 bytes, then, whatever the host sent, the hash that it returns is
-- that of a node on the way from the root to the leaf asked for, or there is a second preimage of
-- what SHA-256 hashes at a node of the tree.
pub call_get_merkle_leaf_hash_sound :
    (sha256 : List ℕ → Hash)
    → ((x : List ℕ) → length (sha256 x) ≡ 32)
    → (t : Tree) → IsMerkle t
    → IsHashed t
    → size t ≤ 2 ^ 31
    → (index : ℕ) → index < size t
    → (dc : Context) (h : Hash) (last : Context)
    → call_get_merkle_leaf_hash sha256 (root sha256 t) (size t) index dc ≡ some (ok h, last)
    → (n : ℕ) × (w : Tree) × (subtree t (take n (path t index)) ≡ some w)
      × ((h ≡ root sha256 w) ⊎ SecondPreimage sha256 t)
unfolding Ensures
call_get_merkle_leaf_hash_sound sha256 wide t m k fits index inside dc h last e =
    let (len, (p, climb)) = call-IsProved sha256 (root sha256 t) (size t) index dc h last e in
    let (w, there, either) =
      Climb-IsNodeHash sha256 wide t m k fits index inside climb refl refl len in
    (p - 0, w, there, either)
