-- ===== src/Tree/Climb.antt =====
-- The way of `set_status` (cpp/src/dual_simplex/mip_node.hpp) from a node up to the first ancestor that
-- stays active, described by the heaps before and after it.
use nvcuopt.Prelude.{
  ℕ, suc, ◌≤◌, ◌≡◌, ◌≢◌, ◌⊎◌, refl, sym, subst, ap, ◌∙◌, List, [], ◌∷◌, Option, none, some,
  Bool-cases, inl, inr, true, false, All, arith,
}
use nvcuopt.Prelude.Num.{Num}
use nvcuopt.Tree.{
  NodeStatus, MipNode, fetch, is_settled, children_inactive, bound_of_children, is_inactive,
}
use nvcuopt.Tree.Heap.{IsFamily, Settled, same_node, child_depth}
use nvcuopt.Tree.Closed.{IsClosed}
use nvcuopt.Tree.Settle.{
  AllInactive, children_inactive-AllInactive, AllInactive-children_inactive, children_inactive-same,
  bound_of_children-same,
}

module _ {F : Type 0} ⦃num : Num F⦄ where
  -- The way up from a place, where h is the heap before a run and h' the one after it. A node on the
  -- way is fathomed and put on the stack when it was inactive or all its children are, and has the
  -- bound that its children give; the way ends above the root, or at the first node that is neither.
  pub data Climb (h h' : List (MipNode F)) : Option ℕ → List ℕ → List ℕ → Type 0 where
    ends : {stack : List ℕ} → Climb h h' none stack stack
    stops :
        {p : ℕ} {stack : List ℕ} (m : MipNode F)
        → fetch h' p ≡ some m
        → is_settled m ≡ false
        → ¬ AllInactive h' m.down m.up
        → Climb h h' (some p) stack stack
    fathoms :
        {p : ℕ} {stack ys : List ℕ} (n m : MipNode F)
        → fetch h p ≡ some n
        → fetch h' p ≡ some m
        → m ≡ record n { status = NodeStatus.fathomed; lower_bound = m.lower_bound }
        → bound_of_children h' n.lower_bound n.down n.up ≡ some m.lower_bound
        → ((is_settled n ≡ true) ⊎ AllInactive h' m.down m.up)
        → Climb h h' n.parent (p ∷ stack) ys
        → Climb h h' (some p) stack ys

  -- What setting the node n at k to a status leaves: the node has the status and the bound that its
  -- children give, its ancestors follow, with k at the bottom of the stack, the links and the places
  -- of inactive nodes are in order, and a node that is not on the stack is as it was.
  pub record Propagated (h : List (MipNode F)) (k : ℕ) (n : MipNode F) (st : NodeStatus)
      (h' : List (MipNode F)) (ys : List ℕ) : Type 0 where
    pub node : MipNode F
    pub here : fetch h' k ≡ some node
    pub shape : node ≡ record n { status = st; lower_bound = node.lower_bound }
    pub bound : bound_of_children h' n.lower_bound n.down n.up ≡ some node.lower_bound
    pub ancestors : Climb h h' n.parent (k ∷ []) ys
    pub unchanged : (x : ℕ) → All (λ y. y ≢ x) ys → fetch h' x ≡ fetch h x
    pub family : IsFamily h'
    pub closed : IsClosed h'

  -- A run of the loop from the heap h and a stack, at a place and with the fuel left; h0 is the heap
  -- before all runs.
  pub record Raised (h0 h : List (MipNode F)) (fuel : ℕ) (place : Option ℕ) (stack : List ℕ)
      (h' : List (MipNode F)) (ys : List ℕ) : Type 0 where
    pub way : Climb h0 h' place stack ys
    pub deep : (x : ℕ) (n : MipNode F) → fetch h x ≡ some n → fuel ≤ n.depth → fetch h' x ≡ some n
    pub unchanged :
        (x : ℕ) → All (λ y. y ≢ x) ys → (fetch h' x ≡ fetch h x) × All (λ y. y ≢ x) stack
    pub family : IsFamily h'
    pub closed : IsClosed h'

  -- Nothing is done.
  pub Raised-stay :
      (h0 h : List (MipNode F)) (fuel : ℕ) (place : Option ℕ) (stack : List ℕ)
      → Climb h0 h place stack stack
      → IsFamily h
      → IsClosed h
      → Raised h0 h fuel place stack h stack
  Raised-stay h0 h fuel place stack way family closed = record {
    way = way;
    deep = λ x n e le. e;
    unchanged = λ x none. (refl, none);
    family = family;
    closed = closed;
  }

  -- A node that is not as deep as the one that is set stays.
  pub Settled-deep :
      (p : ℕ) (n : MipNode F) (st : NodeStatus) (h h1 : List (MipNode F))
      → fetch h p ≡ some n
      → Settled p n st h h1
      → (x : ℕ) (m : MipNode F) → fetch h x ≡ some m
      → m.depth ≢ n.depth
      → fetch h1 x ≡ some m
  Settled-deep p n st h h1 there s x m e ne =
      s.others x (λ same. ne (
        ap (λ (t : MipNode F). t.depth)
          (same_node h x m n e (subst (λ q. fetch h q ≡ some n) same there))))
      ∙ e

  -- Why a node is inactive, told in the heap after the run.
  is_inactive-cause :
      (h h' : List (MipNode F)) (p : ℕ) (n : MipNode F)
      → is_inactive h n ≡ some true
      → children_inactive h' n.down n.up ≡ children_inactive h n.down n.up
      → (is_settled n ≡ true) ⊎ (children_inactive h' n.down n.up ≡ some true)
  unfolding is_inactive
  is_inactive-cause h h' p n told same = elim (Bool-cases (is_settled n)) [
    | inl settled ↦ inl settled
    | inr going ↦ inr (same ∙ (rw going at told))
  ]

  pub is_inactive-going :
      (h : List (MipNode F)) (n : MipNode F)
      → is_inactive h n ≡ some false
      → (is_settled n ≡ false) × (¬ AllInactive h n.down n.up)
  unfolding is_inactive
  is_inactive-going h n told = elim (Bool-cases (is_settled n)) [
    | inl settled ↦ let wrong : some true ≡ some false = rw settled at told in cc wrong
    | inr going ↦ (
      going,
      λ all.
          let no : some true ≡ some false =
            sym (AllInactive-children_inactive h n.down n.up all) ∙ (rw going at told) in
          cc no,
    )
  ]

  -- A step of the loop, with what the rest of it leaves.
  pub Raised-settle :
      (fuel p : ℕ) (n : MipNode F) (h0 h h1 h' : List (MipNode F)) (stack ys : List ℕ)
      → IsFamily h
      → fetch h p ≡ some n
      → fetch h0 p ≡ some n
      → n.depth ≡ fuel
      → is_inactive h n ≡ some true
      → (s : Settled p n NodeStatus.fathomed h h1)
      → bound_of_children h n.lower_bound n.down n.up ≡ some s.node.lower_bound
      → Raised h0 h1 fuel n.parent (p ∷ stack) h' ys
      → Raised h0 h (suc fuel) (some p) stack h' ys
  Raised-settle fuel p n h0 h h1 h' stack ys family there old level told s bound g =
      let linked = family p n there in
      let later : (x : ℕ) (m : MipNode F)
          → fetch h x ≡ some m
          → suc fuel ≤ m.depth
          → fetch h' x ≡ some m =
        λ x m e le.
          g.deep x m
            (Settled-deep p n NodeStatus.fathomed h h1 there s x m e (λ same. absurd (omega arith)))
            (omega arith) in
      let child : (c : ℕ) (m : MipNode F)
          → fetch h c ≡ some m
          → m.parent ≡ some p
          → fetch h' c ≡ some m =
        λ c m e up. later c m e (omega (arith, child_depth h p c n m family there e up)) in
      let same = children_inactive-same h h' p n.down n.up child linked.left linked.right in
      let bound' =
        bound_of_children-same h h' p n.lower_bound n.down n.up child linked.left linked.right in
      let here = g.deep p s.node s.here (omega (arith, s.links.depth)) in
      let linked' = g.family p s.node here in
      let cause : (is_settled n ≡ true) ⊎ AllInactive h' s.node.down s.node.up =
        elim (is_inactive-cause h h' p n told same) [
          | inl off ↦ inl off
          | inr all ↦ inr (
              children_inactive-AllInactive h' p s.node.down s.node.up linked'.left linked'.right
                (rw (s.links.down, s.links.up) all))
        ] in
      record {
        way = fathoms n s.node old here s.shape (bound' ∙ bound) cause g.way;
        deep = later;
        unchanged = λ x none.
            let (same, apart) = g.unchanged x none in (same ∙ s.others x apart.0, apart.1);
        family = g.family;
        closed = g.closed;
      }
