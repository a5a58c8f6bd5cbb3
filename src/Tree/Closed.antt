-- ===== src/Tree/Closed.antt =====
-- Heaps of nodes (cpp/src/dual_simplex/mip_node.hpp) in which every node is inactive when all its
-- children are, and what one write of a status leaves of that.
use nvcuopt.Prelude.{
  ℕ, suc, ◌≡◌, ◌≢◌, ◌⊎◌, refl, sym, subst, ap, ◌∙◌, List, Option, none, some, Bool, Bool-cases, inl,
  inr, true, ◌==◌, ◌&&◌, arith,
}
use nvcuopt.Prelude.Num.{Num}
use nvcuopt.Tree.{NodeStatus, MipNode, fetch, is_settled, inactive_status, children_inactive}
use nvcuopt.Tree.Heap.{Child, IsFamily, LinkedDown, Settled, same_node}

module _ {F : Type 0} ⦃num : Num F⦄ where
  -- Every node but the one at the given place is inactive when all its children are.
  abbrev pub ClosedBut : Option ℕ → List (MipNode F) → Type 0
  ClosedBut place h =
      (x : ℕ) (n : MipNode F)
      → place ≢ some x
      → fetch h x ≡ some n
      → children_inactive h n.down n.up ≡ some true
      → is_settled n ≡ true

  -- Every node is inactive when all its children are.
  abbrev pub IsClosed : List (MipNode F) → Type 0
  IsClosed h =
      (x : ℕ) (n : MipNode F)
      → fetch h x ≡ some n
      → children_inactive h n.down n.up ≡ some true
      → is_settled n ≡ true

  pub children_inactive-congr :
      (h h' : List (MipNode F)) (p : ℕ) (l r : Option ℕ)
      → ((x : ℕ) → p ≢ x → fetch h' x ≡ fetch h x)
      → l ≢ some p
      → r ≢ some p
      → children_inactive h' l r ≡ children_inactive h l r
  unfolding children_inactive
  children_inactive-congr h h' p none none same nl nr = refl
  children_inactive-congr h h' p (some l) none same nl nr =
      rw (same l (λ e. nl (ap some (sym e)))) refl
  children_inactive-congr h h' p none (some r) same nl nr =
      rw (same r (λ e. nr (ap some (sym e)))) refl
  children_inactive-congr h h' p (some l) (some r) same nl nr =
      rw (same l (λ e. nl (ap some (sym e))), same r (λ e. nr (ap some (sym e)))) refl

  -- When a node of a family has a child, whether its children are inactive can be told.
  pub children_inactive-some :
      (h : List (MipNode F)) (k c : ℕ) (l r : Option ℕ)
      → LinkedDown h k l
      → LinkedDown h k r
      → ((l ≡ some c) ⊎ (r ≡ some c))
      → (b : Bool) × (children_inactive h l r ≡ some b)
  unfolding children_inactive
  children_inactive-some h k c none none ll lr child = elim child [
    | inl e ↦ ground arith
    | inr e ↦ ground arith
  ]
  children_inactive-some h k c (some l) none ll lr child = (is_settled ll.0, rw ll.1 refl)
  children_inactive-some h k c none (some r) ll lr child = (is_settled lr.0, rw lr.1 refl)
  children_inactive-some h k c (some l) (some r) ll lr child =
      (is_settled ll.0 && is_settled lr.0, rw (ll.1, lr.1) refl)

  -- The node above a place, if any, has a child, and its depth is one less than the fuel.
  abbrev pub Within : List (MipNode F) → ℕ → Option ℕ → Type 0
  Within h fuel none = Unit
  Within h fuel (some p) =
      (n : MipNode F) × (c : ℕ) × (fetch h p ≡ some n) × (suc n.depth ≡ fuel) × Child n c

  -- Only the parent of the node that was set may not be closed afterwards.
  pub Settled-ClosedBut :
      (p : ℕ) (n : MipNode F) (st : NodeStatus) (h h' : List (MipNode F))
      → fetch h p ≡ some n
      → inactive_status st ≡ true
      → IsFamily h
      → Settled p n st h h'
      → ClosedBut (some p) h
      → ClosedBut n.parent h'
  Settled-ClosedBut p n st h h' there off family s closed x m ne here all =
      elim (Bool-cases (p == x)) [
        | inl hit ↦
            let e : p ≡ x = ground arith in
            let same : s.node ≡ m = same_node h' p s.node m s.here (rw e here) in
            rw (← same, s.status) off
        | inr miss ↦
            let other : p ≢ x = ground arith in
            let old : fetch h x ≡ some m = sym (s.others x other) ∙ here in
            let linked = family x m old in
            let not_child : (place : Option ℕ) → LinkedDown h x place → place ≢ some p =
              λ place l e.
                let (c, stands, up) = subst (LinkedDown h x) e l in
                let it : c ≡ n = same_node h p c n stands there in
                ne (ap (λ (a : MipNode F). a.parent) (sym it) ∙ up) in
            closed x m (λ e. other (cc e)) old
              (sym (
                  children_inactive-congr h h' p m.down m.up s.others (not_child m.down linked.left)
                    (not_child m.up linked.right))
                ∙ all)
      ]
