-- ===== src/Tree/Tests.antt =====
-- Runs of the search tree of cpp/src/dual_simplex/mip_node.hpp.
use nvcuopt.Prelude.{
  ℕ, zero, suc, ◌≡◌, refl, subst, List, [], ◌∷◌, foldl, arith, none, some, true, inl, inr,
}
use nvcuopt.Prelude.Num.{nat_num}
use nvcuopt.Sparse.Matrix.{val}
use nvcuopt.Sparse.Convert.Coeffs.{values}
use nvcuopt.Tree.{
  NodeStatus, MipNode, get_variable_bounds, set_status, add_children, child_node, children_inactive,
  inactive_status,
}
use nvcuopt.Tree.Children.{HasChildren, IsBranch, add_children-IsFamily}
use nvcuopt.Tree.Heap.{IsLinked, IsFamily}
use nvcuopt.Tree.Closed.{IsClosed}
use nvcuopt.Tree.Climb.{Propagated}
use nvcuopt.Tree.Status.{set_status-Propagated}
use nvcuopt.Tree.Bounds.{Branch, Ascent, IsTree, lows, highs, get_variable_bounds-val}

abbrev root : MipNode ℕ
root = record {
  status = NodeStatus.active;
  lower_bound = 0;
  depth = 0;
  node_id = 0;
  branch_var = none;
  branch_dir = 0;
  branch_var_lower = 0;
  branch_var_upper = 0;
  fractional_val = 0;
  parent = none;
  down = some 1;
  up = none;
  vstatus = [];
}

-- x0 ≤ 5, out of 0 ≤ x0 ≤ 10.
abbrev below : MipNode ℕ
below = record root {
  depth = 1;
  node_id = 1;
  branch_var = some 0;
  branch_var_lower = 0;
  branch_var_upper = 5;
  parent = some 0;
  down = none;
  up = some 2;
}

-- Under it, 3 ≤ x0.
abbrev above : MipNode ℕ
above = record root {
  depth = 2;
  node_id = 2;
  branch_var = some 0;
  branch_var_lower = 3;
  branch_var_upper = 10;
  parent = some 1;
  down = none;
  up = none;
}

abbrev tree : List (MipNode ℕ)
tree = root ∷ below ∷ above ∷ []

-- The branch 3 ≤ x0 is lost: the bounds are those of the node above.
get_variable_bounds_runs : get_variable_bounds tree 2 (0 ∷ [], 10 ∷ []) ≡ some (0 ∷ [], 5 ∷ [])
unfolding get_variable_bounds
get_variable_bounds_runs = refl

tree-IsTree : IsTree 1 tree
tree-IsTree =
    ((tt, tt), ((omega arith, (root, refl, refl)), ((omega arith, (below, refl, refl)), tt)))

get_variable_bounds_example :
    (bs : List (Branch ℕ)) × (lower upper : List ℕ) × Ascent tree (some 2) bs
    × (get_variable_bounds tree 2 (0 ∷ [], 10 ∷ []) ≡ some (lower, upper))
    × ((v : ℕ)
        → (val lower v ≡ foldl (λ _ w. w) (val (0 ∷ []) v) (values v (lows bs)))
          × (val upper v ≡ foldl (λ _ w. w) (val (10 ∷ []) v) (values v (highs bs))))
get_variable_bounds_example =
    get_variable_bounds-val 1 tree 2 above (0 ∷ []) (10 ∷ []) tree-IsTree refl (omega arith) refl
      refl

-- The last node closes all the others.
set_status_runs :
    set_status tree 2 NodeStatus.infeasible []
    ≡ some (
      record root { status = NodeStatus.fathomed }
          ∷ record below { status = NodeStatus.fathomed }
          ∷ record above { status = NodeStatus.infeasible }
          ∷ [],
      0 ∷ 1 ∷ 2 ∷ [],
    )
unfolding set_status
set_status_runs = refl

tree-IsFamily : IsFamily tree
tree-IsFamily zero n e =
    let same : root ≡ n = cc e in
    subst (IsLinked tree 0) same record { above = tt; left = (below, refl, refl); right = tt }
tree-IsFamily (suc zero) n e =
    let same : below ≡ n = cc e in
    subst (IsLinked tree 1) same
      record { above = (root, refl, refl, inl refl); left = tt; right = (above, refl, refl) }
tree-IsFamily (suc (suc zero)) n e =
    let same : above ≡ n = cc e in
    subst (IsLinked tree 2) same
      record { above = (below, refl, refl, inr refl); left = tt; right = tt }
tree-IsFamily (suc (suc (suc k))) n e = ground arith

tree-IsClosed : IsClosed tree
unfolding children_inactive
tree-IsClosed zero n e all =
    let same : root ≡ n = cc e in let told = rw (← same) at all in ground arith
tree-IsClosed (suc zero) n e all =
    let same : below ≡ n = cc e in let told = rw (← same) at all in ground arith
tree-IsClosed (suc (suc zero)) n e all =
    let same : above ≡ n = cc e in let told = rw (← same) at all in ground arith
tree-IsClosed (suc (suc (suc k))) n e all = ground arith

infeasible_off : inactive_status NodeStatus.infeasible ≡ true
unfolding inactive_status
infeasible_off = refl

set_status_example :
    (h' : List (MipNode ℕ)) × (ys : List ℕ) × (set_status tree 2 NodeStatus.infeasible []
      ≡ some (h', ys))
    × Propagated tree 2 above NodeStatus.infeasible h' ys
set_status_example =
    set_status-Propagated tree 2 above NodeStatus.infeasible tree-IsFamily tree-IsClosed refl
      infeasible_off

add_children_example :
    (h' : List (MipNode ℕ)) × (a b : MipNode ℕ) × (add_children tree 2
        (child_node (λ a. a) (λ a. suc a) (0 ∷ []) (10 ∷ []) 2 above 3 0 0 6 [])
        (child_node (λ a. a) (λ a. suc a) (0 ∷ []) (10 ∷ []) 2 above 4 0 1 6 [])
      ≡ some h')
    × HasChildren tree 2 above a b h'
    × IsBranch 2 above 3 0 0 0 6 6 [] a
    × IsBranch 2 above 4 0 1 7 10 6 [] b
add_children_example =
    add_children-IsFamily (λ a. a) (λ a. suc a) (0 ∷ []) (10 ∷ []) tree 2 above 3 4 0 6 []
      tree-IsFamily tree-IsClosed refl refl refl
