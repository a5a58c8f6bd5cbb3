-- ===== src/Tree/Status.antt =====
-- `set_status` of cpp/src/dual_simplex/mip_node.hpp, for an inactive status: the node that is set, and
-- the ancestors that are fathomed with it.
use nvcuopt.Prelude.{
  ℕ, zero, suc, ◌<◌, ◌≡◌, ◌≢◌, refl, sym, subst, ap, ◌∙◌, List, [], ◌∷◌, Option, none, some, Bool,
  Bool-cases, inl, inr, true, false, ◌==◌, arith,
}
use nvcuopt.Prelude.Num.{Num}
use nvcuopt.Tree.{
  NodeStatus, MipNode, fetch, is_settled, inactive_status, is_inactive, fathom_ancestors,
  set_status,
}
use nvcuopt.Tree.Heap.{Child, IsFamily, LinkedUp, Settled, Settled-IsFamily, child_depth, same_node}
use nvcuopt.Tree.Settle.{settle-Settled, bound_of_children-same}
use nvcuopt.Tree.Climb.{
  Climb, Propagated, Raised, Settled-deep, Raised-stay, Raised-settle, is_inactive-going,
}
use nvcuopt.Tree.Closed.{ClosedBut, IsClosed, children_inactive-some, Within, Settled-ClosedBut}

fathomed_off : inactive_status NodeStatus.fathomed ≡ true
unfolding inactive_status
fathomed_off = refl

module _ {F : Type 0} ⦃num : Num F⦄ where
  -- Above a node of a family there is a node with a child, one level up.
  Within-parent :
      (h h1 : List (MipNode F)) (p : ℕ) (n : MipNode F) (st : NodeStatus)
      → fetch h p ≡ some n
      → IsFamily h1
      → Settled p n st h h1
      → Within h1 n.depth n.parent
  Within-parent h h1 p n st there family s =
      let up = (family p s.node s.here).above in
      rw (s.links.depth, s.links.parent) at (within s.node.depth s.node.parent up)
    where
      within : (depth : ℕ) (place : Option ℕ) → LinkedUp h1 p depth place → Within h1 depth place
      within depth none l = tt
      within depth (some q) l = let (m, stands, deep, child) = l in (m, p, stands, sym deep, child)

  is_inactive-stop :
      (h : List (MipNode F)) (p : ℕ) (n : MipNode F)
      → fetch h p ≡ some n
      → is_inactive h n ≡ some false
      → ClosedBut (some p) h
      → IsClosed h
  unfolding is_inactive
  is_inactive-stop h p n there stop closed x m here all = elim (Bool-cases (p == x)) [
    | inl hit ↦
        let e : p ≡ x = ground arith in
        let same : n ≡ m = same_node h p n m there (rw e here) in
        elim (Bool-cases (is_settled m)) [
          | inl settled ↦ settled
          | inr going ↦
              let wrong : some true ≡ some false = rw (going, all) at (rw same at stop) in cc wrong
        ]
    | inr miss ↦ closed x m (λ e. ground arith) here all
  ]

  is_inactive-some :
      (h : List (MipNode F)) (p c : ℕ) (n : MipNode F)
      → fetch h p ≡ some n
      → IsFamily h
      → Child n c
      → (b : Bool) × (is_inactive h n ≡ some b)
  unfolding is_inactive
  is_inactive-some h p c n there family child =
      let linked = family p n there in
      let (b, e) = children_inactive-some h p c n.down n.up linked.left linked.right child in
      elim (Bool-cases (is_settled n)) [
        | inl settled ↦ (true, rw settled refl)
        | inr going ↦ (b, rw going e)
      ]

  -- What lies above the node that was set is as before.
  Settled-above :
      (p : ℕ) (n : MipNode F) (st : NodeStatus) (h0 h h1 : List (MipNode F)) (level : ℕ)
      → Settled p n st h h1
      → n.depth ≡ level
      → ((x : ℕ) (m : MipNode F) → fetch h x ≡ some m → m.depth < level → fetch h0 x ≡ some m)
      → (x : ℕ) (m : MipNode F) → fetch h1 x ≡ some m
      → m.depth < level
      → fetch h0 x ≡ some m
  Settled-above p n st h0 h h1 level s e above x m here lt =
      let other : p ≢ x = λ same.
        let it : s.node ≡ m =
          same_node h1 x s.node m (subst (λ q. fetch h1 q ≡ some s.node) same s.here) here in
        let d = ap (λ (t : MipNode F). t.depth) it in absurd (omega (arith, s.links.depth)) in
      above x m (sym (s.others x other) ∙ here) lt

  -- The loop over the ancestors, of which all that are left are as in h0.
  fathom_ancestors-Raised :
      (fuel : ℕ) (place : Option ℕ) (h0 h : List (MipNode F)) (stack : List ℕ)
      → IsFamily h
      → Within h fuel place
      → ClosedBut place h
      → ((x : ℕ) (m : MipNode F) → fetch h x ≡ some m → m.depth < fuel → fetch h0 x ≡ some m)
      → (h' : List (MipNode F)) × (ys : List ℕ) × (fathom_ancestors fuel place h stack
          ≡ some (h', ys))
        × Raised h0 h fuel place stack h' ys
  unfolding fathom_ancestors
  fathom_ancestors-Raised fuel none h0 h stack family within closed above = (
    h,
    stack,
    refl,
    Raised-stay h0 h fuel none stack Climb.ends family
        (λ x n here all. closed x n (λ e. ground arith) here all),
  )
  fathom_ancestors-Raised zero (some p) h0 h stack family within closed above =
      let (n, c, there, level, child) = within in absurd (omega arith)
  fathom_ancestors-Raised (suc fuel) (some p) h0 h stack family within closed above =
      let (n, c, there, level, child) = within in
      let (b, told) = is_inactive-some h p c n there family child in
      elim (Bool-cases b) [
        | inl goes ↦
            let (h1, s, run, bound) = settle-Settled h p n NodeStatus.fathomed there family in
            let family1 = Settled-IsFamily p n NodeStatus.fathomed h h1 there s family in
            let level' : n.depth ≡ fuel = omega arith in
            let (h', ys, rest, g) =
              fathom_ancestors-Raised fuel n.parent h0 h1 (p ∷ stack) family1
                (subst (λ d. Within h1 d n.parent) level'
                  (Within-parent h h1 p n NodeStatus.fathomed there family1 s))
                (Settled-ClosedBut p n NodeStatus.fathomed h h1 there fathomed_off family s closed)
                (Settled-above p n NodeStatus.fathomed h0 h h1 fuel s level'
                  (λ x m e lt. above x m e (omega arith))) in
            (
              h',
              ys,
              rw (there, told, goes, run) rest,
              Raised-settle fuel p n h0 h h1 h' stack ys family there
                  (above p n there (omega arith)) level' (told ∙ ap some goes) s bound g,
            )
        | inr stays ↦ (
          h,
          stack,
          rw (there, told, stays) refl,
          Raised-stay h0 h (suc fuel) (some p) stack
              (let (going, some_on) = is_inactive-going h n (told ∙ ap some stays) in
                Climb.stops n there going some_on)
              family (is_inactive-stop h p n there (told ∙ ap some stays) closed),
        )
      ]

  -- In a heap whose nodes are linked with their parents and children, and where every node is
  -- inactive when all its children are, setting a node to an inactive status has a result (no null
  -- pointer is read, and the loop ends at the root at the latest). The node has the status. Going up
  -- from it, each ancestor that was inactive, or all of whose children are inactive afterwards, is
  -- fathomed, up to the first that is neither. The node and these ancestors have the bounds that
  -- `update_bound` computes from their children as they are afterwards, and the stack holds them in
  -- their order. The rest of these nodes and all other nodes are as they were, the nodes stay linked, and every node is inactive
  -- when all its children are.
  pub set_status-Propagated :
      (h : List (MipNode F)) (k : ℕ) (n : MipNode F) (st : NodeStatus)
      → IsFamily h
      → IsClosed h
      → fetch h k ≡ some n
      → inactive_status st ≡ true
      → (h' : List (MipNode F)) × (ys : List ℕ) × (set_status h k st [] ≡ some (h', ys))
        × Propagated h k n st h' ys
  unfolding set_status
  set_status-Propagated h k n st family closed there off =
      let (h1, s, run, bound) = settle-Settled h k n st there family in
      let family1 = Settled-IsFamily k n st h h1 there s family in
      let (h', ys, rest, g) =
        fathom_ancestors-Raised n.depth n.parent h h1 (k ∷ []) family1
          (Within-parent h h1 k n st there family1 s)
          (Settled-ClosedBut k n st h h1 there off family s (λ x m _ here all. closed x m here all))
          (Settled-above k n st h h h1 n.depth s refl (λ x m e lt. e)) in
      (
        h',
        ys,
        rw (there, off, run) rest,
        record {
          node = s.node;
          here = g.deep k s.node s.here (omega (arith, s.links.depth));
          shape = s.shape;
          bound =
              bound_of_children-same h h' k n.lower_bound n.down n.up
                (λ c m e up.
                  let level = child_depth h k c n m family there e up in
                  g.deep c m (Settled-deep k n st h h1 there s c m e (λ same. absurd (omega arith)))
                    (omega arith))
                (family k n there).left (family k n there).right
              ∙ bound;
          ancestors = g.way;
          unchanged = λ x none. let (same, apart) = g.unchanged x none in same ∙ s.others x apart.0;
          family = g.family;
          closed = g.closed;
        },
      )
