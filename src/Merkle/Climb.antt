-- ===== src/Merkle/Climb.antt =====
-- Climbing from a node to the root with the siblings on the way: what a hash that arrives at the
-- root must have been, unless it comes from a second preimage.
use acre_ledger_app.Base.{
  ℕ, zero, suc, ◌+◌, ◌-◌, ◌^◌, ◌≤◌, ◌<◌, ◌≡◌, ◌≢◌, ◌⊎◌, inl, inr, refl, ap, ◌∙◌, sym, arith,
}
use acre_ledger_app.Base.{some, List, [], ◌∷◌, ◌++◌, length, take, get_elem?, ℕ_discrete}
use mathlib.Core.Option.{some-injective}
use mathlib.Core.Path.{subst}
use acre_ledger_app.Merkle.{Hash, combine_hashes, get_ith_direction}
use acre_ledger_app.Merkle.Tree.{
  Tree, leaf, node, size, root, IsMerkle, path, subtree, subtree-path,
}
use acre_ledger_app.Merkle.Directions.{get_ith_direction-path}

-- A second preimage at a node of the tree: other hashes of children with the node's hash
abbrev pub SecondPreimage : (List ℕ → Hash) → Tree → Type 0
SecondPreimage sha256 t =
    (ds : List ℕ) × (a : Tree) × (b : Tree) × (subtree t ds ≡ some (node a b))
    × (l : Hash) × (r : Hash) × (l ++ r ≢ root sha256 a ++ root sha256 b)
    × (combine_hashes sha256 l r ≡ root sha256 (node a b))

lists : Discrete (List ℕ)
lists = hlevel ℕ_discrete

append-cancel : (a c b d : List ℕ) → length a ≡ length c → a ++ b ≡ c ++ d → (a ≡ c) × (b ≡ d)
append-cancel [] [] b d len e = (refl, e)
append-cancel [] (y ∷ c) b d len e = absurd (omega arith)
append-cancel (x ∷ a) [] b d len e = absurd (omega arith)
append-cancel (x ∷ a) (y ∷ c) b d len e =
    let (p, q) = append-cancel a c b d (omega arith) (cc) in (cc, q)

-- The leaves hold hashes.
abbrev pub IsHashed : Tree → Type 0
IsHashed (leaf h) = length h ≡ 32
IsHashed (node l r) = IsHashed l × IsHashed r

child : ℕ → Tree → Tree → Tree
child zero l r = l
child (suc d) l r = r

-- A step of a way that leads somewhere goes from a node to one of its children.
way-child :
    (t : Tree) (ds : List ℕ) (k d : ℕ) {w u : Tree}
    → get_elem? ds k ≡ some d
    → subtree t (take k ds) ≡ some w
    → subtree t ds ≡ some u
    → (l : Tree) × (r : Tree) × (w ≡ node l r) × (subtree t (take (suc k) ds) ≡ some (child d l r))
unfolding subtree child
way-child t [] k d e s v = cc
way-child (leaf h) (x ∷ ds) k d e s v = cc
way-child (node l r) (zero ∷ ds) zero d e s v =
    (l, r, sym (some-injective _ _ s), ap (λ n. some (child n l r)) (some-injective _ _ e))
way-child (node l r) (suc x ∷ ds) zero d e s v =
    (l, r, sym (some-injective _ _ s), ap (λ n. some (child n l r)) (some-injective _ _ e))
way-child (node l r) (zero ∷ ds) (suc k) d e s v = way-child l ds k d e s v
way-child (node l r) (suc x ∷ ds) (suc k) d e s v = way-child r ds k d e s v

module _ (sha256 : List ℕ → Hash) (wide : (x : List ℕ) → length (sha256 x) ≡ 32) where
  root-IsHash : (t : Tree) → IsHashed t → length (root sha256 t) ≡ 32
  unfolding root combine_hashes
  root-IsHash (leaf h) k = k
  root-IsHash (node l r) k = wide _

  subtree-IsHashed :
      (t : Tree) (ds : List ℕ) {w : Tree} → IsHashed t → subtree t ds ≡ some w → IsHashed w
  unfolding subtree
  subtree-IsHashed t [] k e = subst IsHashed (some-injective _ _ e) k
  subtree-IsHashed (leaf h) (d ∷ ds) k e = cc
  subtree-IsHashed (node l r) (zero ∷ ds) k e = subtree-IsHashed l ds k.0 e
  subtree-IsHashed (node l r) (suc d ∷ ds) k e = subtree-IsHashed r ds k.1 e

  -- Children whose parent is right are right, or they are a second preimage.
  children-right :
      (t : Tree) (ds : List ℕ) (a b : Tree) (l r : Hash)
      → subtree t ds ≡ some (node a b)
      → length l ≡ length (root sha256 a)
      → combine_hashes sha256 l r ≡ root sha256 (node a b)
      → ((l ≡ root sha256 a) × (r ≡ root sha256 b)) ⊎ SecondPreimage sha256 t
  children-right t ds a b l r at len e = elim (lists (l ++ r) (root sha256 a ++ root sha256 b)) [
    | yes same ↦ inl (append-cancel l (root sha256 a) r (root sha256 b) len same)
    | no differ ↦ inr (ds, a, b, at, l, r, differ, e)
  ]

-- `Climb a h b h'`: from the hash `h` at step `a` to the hash `h'` at step `b`, by the siblings that
-- the host gave. A step hashes with the sibling on the side that the direction says.
pub data Climb (sha256 : List ℕ → Hash) (tree_size leaf_index proof_size : ℕ)
    : ℕ → Hash → ℕ → Hash → Type 0 where
  done : {a : ℕ} {h : Hash} → Climb sha256 tree_size leaf_index proof_size a h a h
  step_left :
      {a b : ℕ} {h h' : Hash} (s : Hash)
      → get_ith_direction tree_size leaf_index (proof_size - a - 1) ≡ some (some 0)
      → Climb sha256 tree_size leaf_index proof_size (a + 1) (combine_hashes sha256 h s) b h'
      → Climb sha256 tree_size leaf_index proof_size a h b h'
  step_right :
      {a b : ℕ} {h h' : Hash} (s : Hash)
      → length s ≡ 32
      → get_ith_direction tree_size leaf_index (proof_size - a - 1) ≡ some (some 1)
      → Climb sha256 tree_size leaf_index proof_size (a + 1) (combine_hashes sha256 s h) b h'
      → Climb sha256 tree_size leaf_index proof_size a h b h'

Climb-le :
    {sha256 : List ℕ → Hash} {n i p : ℕ} {a : ℕ} {h : Hash} {b : ℕ} {h' : Hash}
    → Climb sha256 n i p a h b h'
    → a ≤ b
Climb-le done = omega arith
Climb-le (step_left s d c) = omega (arith, Climb-le c)
Climb-le (step_right s l d c) = omega (arith, Climb-le c)

-- The nodes of one tree, and the hash that a climb along the way to a leaf starts from.
module _ (sha256 : List ℕ → Hash) (wide : (x : List ℕ) → length (sha256 x) ≡ 32) (t : Tree)
    (m : IsMerkle t) (k : IsHashed t) (fits : size t ≤ 2 ^ 31) (index : ℕ)
    (inside : index < size t) where
  -- What a hash is at the node that the first `n` steps of the way lead to.
  abbrev pub IsNodeHash : ℕ → Hash → Type 0
  IsNodeHash n h =
      (w : Tree) × (subtree t (take n (path t index)) ≡ some w)
      × ((h ≡ root sha256 w) ⊎ SecondPreimage sha256 t)

  -- If the parent's hash is right, then so are those of both children, the one on the way included.
  below :
      (n d : ℕ) (l r : Hash)
      → get_ith_direction (size t) index n ≡ some (some d)
      → length l ≡ 32
      → IsNodeHash n (combine_hashes sha256 l r)
      → (a : Tree) × (b : Tree) × (subtree t (take (suc n) (path t index)) ≡ some (child d a b))
        × (((l ≡ root sha256 a) × (r ≡ root sha256 b)) ⊎ SecondPreimage sha256 t)
  below n d l r dir len (w, at, inr c) =
      let e = some-injective _ _ (sym (get_ith_direction-path t index n m fits inside) ∙ dir) in
      let (a, b, q, there) = way-child t (path t index) n d e at (subtree-path t index inside) in
      (a, b, there, inr c)
  below n d l r dir len (w, at, inl p) =
      let e = some-injective _ _ (sym (get_ith_direction-path t index n m fits inside) ∙ dir) in
      let (a, b, q, there) = way-child t (path t index) n d e at (subtree-path t index inside) in
      let hashed : IsHashed (node a b) =
        subst IsHashed q (subtree-IsHashed sha256 wide t (take n (path t index)) k at) in
      (
        a,
        b,
        there,
        children-right sha256 wide t (take n (path t index)) a b l r (at ∙ ap some q)
            (len ∙ sym (root-IsHash sha256 wide a hashed.0)) (p ∙ ap (root sha256) q),
      )

  -- A climb of `p` steps that ends in the root's hash started at a node's hash: that of the node
  -- `p` steps down the way to the leaf.
  pub Climb-IsNodeHash :
      {p a b : ℕ} {h h' : Hash}
      → Climb sha256 (size t) index p a h b h'
      → b ≡ p
      → h' ≡ root sha256 t
      → length h ≡ 32
      → IsNodeHash (p - a) h
  unfolding child
  Climb-IsNodeHash {p} {a} done e r len =
      let z : p - a ≡ 0 = omega arith in (t, rw z (unfold subtree in refl), inl r)
  Climb-IsNodeHash {p} {a} {b} {h} (step_left s dir c) e r len =
      let z : p - a ≡ suc (p - a - 1) = omega (arith, Climb-le c) in
      let up = Climb-IsNodeHash c e r (unfold combine_hashes in (wide _)) in
      let (x, y, there, either) = below (p - a - 1) 0 _ s dir len (
        subst (λ n. IsNodeHash n (combine_hashes sha256 h s)) {x = p - (a + 1)} (omega arith) up) in
      rw z (x, there, left_half either)
    where
      left_half : {P Q C : Type 0} → (P × Q) ⊎ C → P ⊎ C
      left_half (inl q) = inl q.0
      left_half (inr q) = inr q
  Climb-IsNodeHash {p} {a} {b} {h} (step_right s wide_s dir c) e r len =
      let z : p - a ≡ suc (p - a - 1) = omega (arith, Climb-le c) in
      let up = Climb-IsNodeHash c e r (unfold combine_hashes in (wide _)) in
      let (x, y, there, either) = below (p - a - 1) 1 s _ dir wide_s (
        subst (λ n. IsNodeHash n (combine_hashes sha256 s h)) {x = p - (a + 1)} (omega arith) up) in
      rw z (y, there, right_half either)
    where
      right_half : {P Q C : Type 0} → (P × Q) ⊎ C → Q ⊎ C
      right_half (inl q) = inl q.1
      right_half (inr q) = inr q
