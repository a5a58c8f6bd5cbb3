-- ===== src/Tree/Children.antt =====
-- `add_children` of cpp/src/dual_simplex/mip_node.hpp, with children from the second constructor of
-- mip_node_t.
use nvcuopt.Prelude.{
  ℕ, suc, ◌≡◌, ◌≢◌, refl, sym, subst, ap, ap₂, ◌∙◌, List, [], Option, none, some, Bool-cases, inl,
  inr, true, false, ◌==◌, ◌&&◌, length, arith,
}
use nvcuopt.Prelude.Num.{Num}
use nvcuopt.Sparse.Matrix.{val}
use nvcuopt.Tree.{
  VariableStatus, MipNode, fetch, is_settled, inactive_status, children_inactive, child_node,
  add_children,
}
use nvcuopt.Tree.Heap.{LinkedDown, IsFamily, same_node}
use nvcuopt.Tree.Closed.{IsClosed}
use nvcuopt.Tree.Grow.{
  IsFresh, grown, grown_here, grown_old, grown_new, grown_read, grown-IsFamily, with_children,
}

module _ {F : Type 0} ⦃num : Num F⦄ where
  module _ (h : List (MipNode F)) (k : ℕ) (n a b : MipNode F) (there : fetch h k ≡ some n)
      (fresh_a : IsFresh k n.depth a) (fresh_b : IsFresh k n.depth b) (no_down : n.down ≡ none)
      (no_up : n.up ≡ none) where
    -- A node that was in the heap has the status that it had.
    grown_status :
        (x : ℕ) (c : MipNode F)
        → fetch h x ≡ some c
        → (m : MipNode F) × (fetch (grown h k n a b) x ≡ some m) × (is_settled m ≡ is_settled c)
    grown_status x c e = elim (Bool-cases (k == x)) [
      | inl hit ↦
          let same : k ≡ x = ground arith in
          let it : n ≡ c = same_node h x n c (rw same at there) e in
          (
            with_children n (length h),
            rw (← same) (grown_here h k n a b there fresh_a fresh_b no_down no_up),
            ap (λ (t : MipNode F). is_settled t) it,
          )
      | inr miss ↦
          (c, grown_old h k n a b there fresh_a fresh_b no_down no_up x c (ground arith) e, refl)
    ]

    grown-children_inactive :
        (x : ℕ) (l r : Option ℕ)
        → LinkedDown h x l
        → LinkedDown h x r
        → children_inactive (grown h k n a b) l r ≡ children_inactive h l r
    unfolding children_inactive
    grown-children_inactive x none none ll lr = refl
    grown-children_inactive x (some l) none ll lr =
        let (m, e, same) = grown_status l ll.0 ll.1 in rw (e, ll.1) (ap some same)
    grown-children_inactive x none (some r) ll lr =
        let (m, e, same) = grown_status r lr.0 lr.1 in rw (e, lr.1) (ap some same)
    grown-children_inactive x (some l) (some r) ll lr =
        let (m, e, same) = grown_status l ll.0 ll.1 in
        let (m', e', same') = grown_status r lr.0 lr.1 in
        rw (e, e', ll.1, lr.1) (ap₂ (λ s t. some (s && t)) same same')

    fresh_open :
        (c : MipNode F) (d : ℕ)
        → IsFresh k d c
        → children_inactive (grown h k n a b) c.down c.up ≢ some true
    unfolding children_inactive
    fresh_open c d f e = let no : none ≡ some true = rw (f.down, f.up) at e in cc no

    parent_open :
        children_inactive (grown h k n a b) (some (length h)) (some (suc (length h))) ≢ some true
    unfolding children_inactive inactive_status
    parent_open e =
        let (left, right) = grown_new h k n a b there fresh_a fresh_b no_down no_up in
        let no : some false ≡ some true = rw (left, right, fresh_a.status) at e in cc no

    grown-IsClosed : IsFamily h → IsClosed h → IsClosed (grown h k n a b)
    grown-IsClosed family closed x m e all =
        elim (grown_read h k n a b there fresh_a fresh_b no_down no_up x m e) [
          | inl (ne, old) ↦
              let linked = family x m old in
              closed x m old
                (sym (grown-children_inactive x m.down m.up linked.left linked.right) ∙ all)
          | inr (inl (here, it)) ↦
              let both =
                subst
                  (λ (t : MipNode F). children_inactive (grown h k n a b) t.down t.up ≡ some true)
                  (sym it) all in
              absurd (parent_open both)
          | inr (inr (inl (here, it))) ↦
              absurd (fresh_open m n.depth (subst (IsFresh k n.depth) it fresh_a) all)
          | inr (inr (inr (here, it))) ↦
              absurd (fresh_open m n.depth (subst (IsFresh k n.depth) it fresh_b) all)
        ]

  child_node-IsFresh :
      (floor ceil : F → F) (lower upper : List F) (k : ℕ) (n : MipNode F) (id v dir : ℕ) (value : F)
      (basis : List VariableStatus)
      → IsFresh k n.depth (child_node floor ceil lower upper k n id v dir value basis)
  unfolding child_node
  child_node-IsFresh floor ceil lower upper k n id v dir value basis = record {
    status = refl;
    depth = omega arith;
    parent = refl;
    down = refl;
    up = refl;
  }

  -- What the heap h is after the node n at k has got the down child a and the up child b: they stand
  -- behind the other nodes, n has them as its children and no basis any more, and the other nodes are
  -- as they were.
  pub record HasChildren (h : List (MipNode F)) (k : ℕ) (n a b : MipNode F) (h' : List (MipNode F))
      : Type 0 where
    pub node :
        fetch h' k
        ≡ some (record n { down = some (length h); up = some (suc (length h)); vstatus = [] })
    pub down_child : fetch h' (length h) ≡ some a
    pub up_child : fetch h' (suc (length h)) ≡ some b
    pub others : (x : ℕ) (m : MipNode F) → k ≢ x → fetch h x ≡ some m → fetch h' x ≡ some m
    pub family : IsFamily h'
    pub closed : IsClosed h'

  -- A child of the node n at k that branches on v: the node is active, one level deeper, with the
  -- bound of n, no children, and the interval [low, high] for v.
  pub record IsBranch (k : ℕ) (n : MipNode F) (id v dir : ℕ) (low high value : F)
      (basis : List VariableStatus) (a : MipNode F) : Type 0 where
    pub fresh : IsFresh k n.depth a
    pub bound : a.lower_bound ≡ n.lower_bound
    pub name : a.node_id ≡ id
    pub variable : a.branch_var ≡ some v
    pub direction : a.branch_dir ≡ dir
    pub lower : a.branch_var_lower ≡ low
    pub upper : a.branch_var_upper ≡ high
    pub fractional : a.fractional_val ≡ value
    pub statuses : a.vstatus ≡ basis

  -- In a heap whose nodes are linked with their parents and children, and where every node is
  -- inactive when all its children are, adding the down and the up child, as the second constructor
  -- makes them, to a node without children has a result. The down child keeps the lower bound of the
  -- variable and has the floor of its value as the upper one, the up child has the ceiling as the
  -- lower bound and keeps the upper one; both are active, one level deeper than the node and without
  -- children. They stand behind the other nodes, the node has them as its children and its basis is
  -- cleared, the other nodes are as they were, and the heap stays linked, with every node inactive
  -- when all its children are.
  pub add_children-IsFamily :
      (floor ceil : F → F) (lower upper : List F) (h : List (MipNode F)) (k : ℕ) (n : MipNode F)
      (id id' v : ℕ) (value : F) (basis : List VariableStatus)
      → IsFamily h
      → IsClosed h
      → fetch h k ≡ some n
      → n.down ≡ none
      → n.up ≡ none
      → (h' : List (MipNode F)) × (a b : MipNode F) × (add_children h k
            (child_node floor ceil lower upper k n id v 0 value basis)
            (child_node floor ceil lower upper k n id' v 1 value basis)
          ≡ some h')
        × HasChildren h k n a b h'
        × IsBranch k n id v 0 (val lower v) (floor value) value basis a
        × IsBranch k n id' v 1 (ceil value) (val upper v) value basis b
  unfolding add_children child_node
  add_children-IsFamily floor ceil lower upper h k n id id' v value basis family closed there
        no_down no_up =
      let a = child_node floor ceil lower upper k n id v 0 value basis in
      let b = child_node floor ceil lower upper k n id' v 1 value basis in
      let fa = child_node-IsFresh floor ceil lower upper k n id v 0 value basis in
      let fb = child_node-IsFresh floor ceil lower upper k n id' v 1 value basis in
      (
        grown h k n a b,
        a,
        b,
        rw there refl,
        record {
          node = grown_here h k n a b there fa fb no_down no_up;
          down_child = (grown_new h k n a b there fa fb no_down no_up).0;
          up_child = (grown_new h k n a b there fa fb no_down no_up).1;
          others = grown_old h k n a b there fa fb no_down no_up;
          family = grown-IsFamily h k n a b there fa fb no_down no_up family;
          closed = grown-IsClosed h k n a b there fa fb no_down no_up family closed;
        },
        record {
          fresh = fa;
          bound = refl;
          name = refl;
          variable = refl;
          direction = refl;
          lower = refl;
          upper = refl;
          fractional = refl;
          statuses = refl;
        },
        record {
          fresh = fb;
          bound = refl;
          name = refl;
          variable = refl;
          direction = refl;
          lower = refl;
          upper = refl;
          fractional = refl;
          statuses = refl;
        },
      )
