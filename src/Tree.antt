-- ===== src/Tree.antt =====
-- The search tree of branch and bound, cpp/src/dual_simplex/mip_node.hpp and mip_node.cpp. The nodes
-- stand in a heap and name each other by their places in it; no place is a null pointer, and an
-- operation that reads through a null pointer or a place that is not there has no result.
pub mod Bounds
pub mod Heap
pub mod Closed
pub mod Settle
pub mod Climb
pub mod Status
pub mod Grow
pub mod Children
mod Tests
use nvcuopt.Prelude.{
  ℕ, zero, suc, ◌+◌, List, [], ◌∷◌, ◌++◌, Option, none, some, ◌>>=◌, Bool, true, false, ◌==◌, ◌&&◌,
  if◌then◌else◌, set, length, get_or,
}
use nvcuopt.Prelude.Num.{Num}

pub data NodeStatus : Type 0 where
  active : NodeStatus
  in_progress : NodeStatus
  integer_feasible : NodeStatus
  infeasible : NodeStatus
  fathomed : NodeStatus

unfoldable pub inactive_status : NodeStatus → Bool
inactive_status active = false
inactive_status in_progress = false
inactive_status integer_feasible = true
inactive_status infeasible = true
inactive_status fathomed = true

pub data VariableStatus : Type 0 where
  basic : VariableStatus
  nonbasic_lower : VariableStatus
  nonbasic_upper : VariableStatus
  nonbasic_free : VariableStatus
  nonbasic_fixed : VariableStatus
  superbasic : VariableStatus

-- The root has no branch variable, -1 in the code, and its bounds and its fractional value are not
-- set; here they are what the constructor is given.
pub record MipNode (F : Type 0) : Type 0 where
  pub status : NodeStatus
  pub lower_bound : F
  pub depth : ℕ
  pub node_id : ℕ
  pub branch_var : Option ℕ
  pub branch_dir : ℕ
  pub branch_var_lower : F
  pub branch_var_upper : F
  pub fractional_val : F
  pub parent : Option ℕ
  pub down : Option ℕ
  pub up : Option ℕ
  pub vstatus : List VariableStatus

module _ {F : Type 0} where
  -- The node at a place.
  abbrev pub fetch : List (MipNode F) → ℕ → Option (MipNode F)
  fetch [] k = none
  fetch (n ∷ h) zero = some n
  fetch (n ∷ h) (suc k) = fetch h k

  -- The bounds of the branch variable of a node, written into the bounds of all variables.
  unfoldable pub apply_bounds : MipNode F → List F × List F → Option (List F × List F)
  apply_bounds n bounds = do
    v ← n.branch_var
    some (set bounds.0 v n.branch_var_lower, set bounds.1 v n.branch_var_upper)

  -- The loop of `get_variable_bounds` over the ancestors, up to the root.
  unfoldable pub climb :
      List (MipNode F) → ℕ → Option ℕ → List F × List F → Option (List F × List F)
  unfolding apply_bounds
  climb h fuel none bounds = some bounds
  climb h zero (some p) bounds = none
  climb h (suc fuel) (some p) bounds = do
    n ← fetch h p
    let above = apply_bounds n bounds >>= climb h fuel n.parent
    if n.node_id == 0 then some bounds else above

  -- The fuel is the depth of the node, the number of its ancestors.
  unfoldable pub get_variable_bounds :
      List (MipNode F) → ℕ → List F × List F → Option (List F × List F)
  unfolding apply_bounds climb
  get_variable_bounds h k bounds = do
    n ← fetch h k
    bounds' ← apply_bounds n bounds
    climb h n.depth n.parent bounds'

-- The first constructor: a root with a basis.
module _ {F : Type 0} ⦃num : Num F⦄ where
  unfoldable pub root_node : F → List VariableStatus → MipNode F
  root_node root_lower_bound basis = record {
    status = active;
    lower_bound = root_lower_bound;
    depth = 0;
    node_id = 0;
    branch_var = none;
    branch_dir = 0;
    branch_var_lower = num.nought;
    branch_var_upper = num.nought;
    fractional_val = num.nought;
    parent = none;
    down = none;
    up = none;
    vstatus = basis;
  }

  -- The second constructor: a child of the node at a place. The bounds of the problem are lower and
  -- upper; std::floor and std::ceil are parameters.
  unfoldable pub child_node :
      (floor ceil : F → F)
      → List F
      → List F
      → ℕ
      → MipNode F
      → ℕ
      → ℕ
      → ℕ
      → F
      → List VariableStatus
      → MipNode F
  child_node floor ceil lower upper place parent_node node_num branch_variable branch_direction
        branch_var_value basis =
      record {
        status = active;
        lower_bound = parent_node.lower_bound;
        depth = parent_node.depth + 1;
        node_id = node_num;
        branch_var = some branch_variable;
        branch_dir = branch_direction;
        branch_var_lower =
            if branch_direction == 0
            then get_or lower branch_variable num.nought
            else ceil branch_var_value;
        branch_var_upper =
            if branch_direction == 0
            then floor branch_var_value
            else get_or upper branch_variable num.nought;
        fractional_val = branch_var_value;
        parent = some place;
        down = none;
        up = none;
        vstatus = basis;
      }

-- The children come to stand behind the other nodes.
module _ {F : Type 0} where
  unfoldable pub add_children :
      List (MipNode F) → ℕ → MipNode F → MipNode F → Option (List (MipNode F))
  add_children h k down_child up_child = do
    n ← fetch h k
    let m = length h
    let n' : MipNode F = record n { down = some m; up = some (suc m); vstatus = [] }
    some (set h k n' ++ down_child ∷ up_child ∷ [])

module _ {F : Type 0} ⦃num : Num F⦄ where
  -- std::min
  abbrev pub min : F → F → F
  min a b = if num.lt b a then b else a

  abbrev pub is_settled : MipNode F → Bool
  is_settled n = inactive_status n.status

  -- Whether all the children that a node has are inactive; without children the code reads through
  -- a null pointer.
  unfoldable pub children_inactive : List (MipNode F) → Option ℕ → Option ℕ → Option Bool
  unfolding inactive_status
  children_inactive h none none = none
  children_inactive h (some l) none = do a ← fetch h l; some (is_settled a)
  children_inactive h none (some r) = do b ← fetch h r; some (is_settled b)
  children_inactive h (some l) (some r) = do
    a ← fetch h l
    b ← fetch h r
    some (is_settled a && is_settled b)

  unfoldable pub is_inactive : List (MipNode F) → MipNode F → Option Bool
  unfolding inactive_status children_inactive
  is_inactive h n = if is_settled n then some true else children_inactive h n.down n.up

  -- The lower bound that `update_bound` gives a node with the bound `own`.
  unfoldable pub bound_of_children : List (MipNode F) → F → Option ℕ → Option ℕ → Option F
  unfolding inactive_status
  bound_of_children h own none none = some own
  bound_of_children h own (some l) none = do
    a ← fetch h l
    some (if is_settled a then a.lower_bound else own)
  bound_of_children h own none (some r) = do
    b ← fetch h r
    some (if is_settled b then b.lower_bound else own)
  bound_of_children h own (some l) (some r) = do
    a ← fetch h l
    b ← fetch h r
    some (if is_settled a && is_settled b then min a.lower_bound b.lower_bound else own)

  unfoldable pub update_bound : List (MipNode F) → ℕ → Option (List (MipNode F))
  unfolding bound_of_children
  update_bound h k = do
    n ← fetch h k
    bound ← bound_of_children h n.lower_bound n.down n.up
    some (set h k (record n { lower_bound = bound }))

  -- The status of a node and the bound that follows from it.
  unfoldable pub settle : List (MipNode F) → ℕ → MipNode F → NodeStatus → Option (List (MipNode F))
  unfolding update_bound
  settle h k n st = update_bound (set h k (record n { status = st })) k

  -- The loop of `set_status` over the ancestors. The stack has the last node first.
  unfoldable pub fathom_ancestors :
      ℕ → Option ℕ → List (MipNode F) → List ℕ → Option (List (MipNode F) × List ℕ)
  unfolding is_inactive settle
  fathom_ancestors fuel none h stack = some (h, stack)
  fathom_ancestors zero (some p) h stack = none
  fathom_ancestors (suc fuel) (some p) h stack = do
    n ← fetch h p
    inactive ← is_inactive h n
    let above = settle h p n fathomed >>= λ h'. fathom_ancestors fuel n.parent h' (p ∷ stack)
    if inactive then above else some (h, stack)

  -- The fuel is the depth of the node, the number of its ancestors.
  unfoldable pub set_status :
      List (MipNode F) → ℕ → NodeStatus → List ℕ → Option (List (MipNode F) × List ℕ)
  unfolding inactive_status settle fathom_ancestors
  set_status h k st stack = do
    n ← fetch h k
    let above = settle h k n st >>= λ h'. fathom_ancestors n.depth n.parent h' (k ∷ stack)
    if inactive_status st then above else some (set h k (record n { status = st }), stack)
