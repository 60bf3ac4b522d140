-- ===== src/Client/Leaf/Sound.antt =====
-- What a success of `call_get_merkle_leaf_index` proves about the leaf hash that it was asked for.
use acre_ledger_app.Base.{ℕ, ◌%◌, ◌^◌, ◌≤◌, ◌<◌, ◌≡◌, sym, List, length, take, ◌⊎◌, some}
use mathlib.Core.Path.{subst}
use acre_ledger_app.Merkle.{Hash}
use acre_ledger_app.Merkle.Tree.{Tree, size, root, IsMerkle, path, subtree}
use acre_ledger_app.Merkle.Climb.{IsHashed, SecondPreimage}
use acre_ledger_app.Dispatcher.{Context, ok}
use acre_ledger_app.Dispatcher.Inversion.{Ensures, ensures_bind, ensures_after, ensures_require}
use acre_ledger_app.Dispatcher.Inversion.{ensures_weaken, ensures_or_return}
use acre_ledger_app.Client.LeafHash.{same_bytes, call_get_merkle_leaf_hash}
use acre_ledger_app.Client.LeafHash.Sound.{same_bytes→eq, call_get_merkle_leaf_hash_sound}
use acre_ledger_app.Client.Preimage.Sound.{return_int-below}
use acre_ledger_app.Client.Leaf.{call_get_merkle_leaf_index}

module _ (sha256 : List ℕ → Hash) (wide : (x : List ℕ) → length (sha256 x) ≡ 32) (t : Tree)
    (m : IsMerkle t) (k : IsHashed t) (fits : size t ≤ 2 ^ 31) where
  -- The hash is that of a node on the way to the leaf with the index, if there is one.
  abbrev OnWay : ℕ → Hash → Type 0
  OnWay index h =
      index < size t
      → (n : ℕ) × (w : Tree) × (subtree t (take n (path t index)) ≡ some w)
        × ((h ≡ root sha256 w) ⊎ SecondPreimage sha256 t)

  leaf_hash-OnWay :
      (index : ℕ)
      → Ensures (call_get_merkle_leaf_hash sha256 (root sha256 t) (size t) index) (OnWay index)
  unfolding Ensures
  leaf_hash-OnWay index dc h last e inside =
      call_get_merkle_leaf_hash_sound sha256 wide t m k fits index inside dc h last e

  leaf_index-OnWay :
      (leaf_hash : Hash)
      → Ensures
          (call_get_merkle_leaf_index sha256 (size t) (root sha256 t) leaf_hash)
          (λ r. OnWay r leaf_hash)
  unfolding call_get_merkle_leaf_index
  leaf_index-OnWay leaf_hash =
      let Q : ℕ → Type 0 = λ r. OnWay r leaf_hash in
      ensures_after _ _ Q λ _. ensures_after _ _ Q λ _. ensures_after _ _ Q λ found.
        ensures_after _ _ Q λ index. ensures_after _ _ Q λ _. ensures_after _ _ Q λ _.
          ensures_bind _ _ (OnWay (index % 2 ^ 32)) Q
            (ensures_or_return _ 4 (OnWay (index % 2 ^ 32)) (leaf_hash-OnWay (index % 2 ^ 32)))
            λ h on_way. ensures_bind _ _ _ Q (ensures_require (same_bytes leaf_hash h) 5) λ _ same.
              ensures_weaken _ (λ r. r ≡ index % 2 ^ 32) Q
                (λ r e.
                  subst (λ (i : ℕ). OnWay i leaf_hash) (sym e)
                    (subst (OnWay (index % 2 ^ 32)) (sym (same_bytes→eq leaf_hash h same)) on_way))
                (return_int-below index)

-- If `call_get_merkle_leaf_index` succeeds for the root and the size of a Merkle tree of at most
-- 2 ^ 31 leaves, with hashes of 32 bytes, and returns the index of a leaf, then, whatever the host
-- sent, the hash that it was asked for is that of a node on the way from the root to that leaf, or
-- there is a second preimage of what SHA-256 hashes at a node of the tree.
pub call_get_merkle_leaf_index_sound :
    (sha256 : List ℕ → Hash)
    → ((x : List ℕ) → length (sha256 x) ≡ 32)
    → (t : Tree) → IsMerkle t
    → IsHashed t
    → size t ≤ 2 ^ 31
    → (leaf_hash : Hash) (dc : Context) (r : ℕ) (last : Context)
    → call_get_merkle_leaf_index sha256 (size t) (root sha256 t) leaf_hash dc ≡ some (ok r, last)
    → r < size t
    → (n : ℕ) × (w : Tree) × (subtree t (take n (path t r)) ≡ some w)
      × ((leaf_hash ≡ root sha256 w) ⊎ SecondPreimage sha256 t)
unfolding Ensures
call_get_merkle_leaf_index_sound sha256 wide t m k fits leaf_hash dc r last e inside =
    leaf_index-OnWay sha256 wide t m k fits leaf_hash dc r last e inside
