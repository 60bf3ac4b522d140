-- ===== src/Merkle/Tree.antt =====
-- The Merkle tree over a list of leaves, as doc/merkle.md defines it, and the nodes on a path.
use acre_ledger_app.Base.{ℕ, zero, suc, ◌+◌, ◌-◌, ◌^◌, ◌≤◌, ◌≡◌, true, false, Option, none, some}
use acre_ledger_app.Base.{List, [], ◌∷◌, ltb, arith, ◌<◌, refl, lt→ltb, le→ltb, dec_lt}
use acre_ledger_app.Merkle.{Hash, combine_hashes}

-- A leaf holds the hash of its element.
pub data Tree : Type 0 where
  leaf : Hash → Tree
  node : Tree → Tree → Tree

-- The number of leaves
unfoldable pub size : Tree → ℕ
size (leaf h) = 1
size (node l r) = size l + size r

unfoldable pub root : (List ℕ → Hash) → Tree → Hash
root sha256 (leaf h) = h
root sha256 (node l r) = combine_hashes sha256 (root sha256 l) (root sha256 r)

-- For n > 1 leaves the left subtree has k of them, the largest power of two below n: that is, a
-- power of two with n at most its double (the right subtree is never empty).
abbrev pub IsMerkle : Tree → Type 0
IsMerkle (leaf h) = Unit {0}
IsMerkle (node l r) = ((k : ℕ) × (size l ≡ 2 ^ k)) × (size r ≤ size l) × IsMerkle l × IsMerkle r

-- The way from the root to the leaf with an index: 0 to the left, 1 to the right.
unfoldable pub path : Tree → ℕ → List ℕ
path (leaf h) index = []
path (node l r) index = elim (ltb index (size l)) [
  | true ↦ 0 ∷ path l index
  | false ↦ 1 ∷ path r (index - size l)
]

-- The node that a way leads to; `none` if it leads out of the tree.
unfoldable pub subtree : Tree → List ℕ → Option Tree
subtree t [] = some t
subtree (leaf h) (d ∷ ds) = none
subtree (node l r) (zero ∷ ds) = subtree l ds
subtree (node l r) (suc d ∷ ds) = subtree r ds

-- The hash of the leaf with an index
unfoldable pub leaf_hash : Tree → ℕ → Hash
leaf_hash (leaf h) index = h
leaf_hash (node l r) index = elim (ltb index (size l)) [
  | true ↦ leaf_hash l index
  | false ↦ leaf_hash r (index - size l)
]

pub one-le-size : (t : Tree) → 1 ≤ size t
unfolding size
one-le-size (leaf h) = omega arith
one-le-size (node l r) = omega (arith, one-le-size l)

pub path-left : (l r : Tree) (index : ℕ) → index < size l → path (node l r) index ≡ 0 ∷ path l index
unfolding path
path-left l r index h = rw (lt→ltb index (size l) h, path)

pub path-right :
    (l r : Tree) (index : ℕ) → size l ≤ index → path (node l r) index ≡ 1 ∷ path r (index - size l)
unfolding path
path-right l r index h = rw (le→ltb index (size l) h, path)

pub leaf_hash-left :
    (l r : Tree) (index : ℕ) → index < size l → leaf_hash (node l r) index ≡ leaf_hash l index
unfolding leaf_hash
leaf_hash-left l r index h = rw (lt→ltb index (size l) h, leaf_hash)

pub leaf_hash-right :
    (l r : Tree) (index : ℕ)
    → size l ≤ index
    → leaf_hash (node l r) index ≡ leaf_hash r (index - size l)
unfolding leaf_hash
leaf_hash-right l r index h = rw (le→ltb index (size l) h, leaf_hash)

-- The way to a leaf leads to that leaf.
pub subtree-path :
    (t : Tree) (index : ℕ)
    → index < size t
    → subtree t (path t index) ≡ some (leaf (leaf_hash t index))
unfolding subtree size
subtree-path (leaf h) index inside = unfold subtree path leaf_hash in refl
subtree-path (node l r) index inside = elim (dec_lt index (size l)) [
  | yes left ↦
      rw (path-left l r index left, leaf_hash-left l r index left, subtree)
        (subtree-path l index left)
  | no right ↦
      rw (path-right l r index (omega arith), leaf_hash-right l r index (omega arith), subtree)
        (subtree-path r (index - size l) (unfold size in (omega arith)))
]
