-- ===== src/Merkle/Tests.antt =====
-- The theorems on Merkle trees, at a tree of three leaves.
use acre_ledger_app.Base.{◌+◌, ◌^◌, ◌≡◌, refl, none, some, get_elem?, replicate, arith}
use acre_ledger_app.Merkle.{get_ith_direction, ceil_lg, ceil_lg_loop}
use acre_ledger_app.Merkle.CeilLg.{ceil_lg-eq, ceil_lg_loop-never_ends}
use acre_ledger_app.Merkle.Tree.{Tree, leaf, node, size, path}
use acre_ledger_app.Merkle.Directions.{get_ith_direction-path}

abbrev three_leaves : Tree
three_leaves = node (node (leaf (replicate 32 1)) (leaf (replicate 32 2))) (leaf (replicate 32 3))

get_ith_direction-path_example :
    get_ith_direction (size three_leaves) 1 1 ≡ some (get_elem? (path three_leaves 1) 1)
unfolding size
get_ith_direction-path_example =
    get_ith_direction-path three_leaves 1 1
      ((1, refl), omega arith, ((0, refl), omega arith, tt, tt), tt) (omega arith) (omega arith)

ceil_lg-eq_example : ceil_lg 5 ≡ some 3
ceil_lg-eq_example = ceil_lg-eq 3 5 (omega arith) (omega arith) (omega arith) (omega arith)

ceil_lg_loop-never_ends_example : ceil_lg_loop 1000 (2 ^ 31 + 1) 0 1 ≡ none
ceil_lg_loop-never_ends_example = ceil_lg_loop-never_ends 1000 (2 ^ 31 + 1) (omega arith)
