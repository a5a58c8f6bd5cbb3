-- ===== src/Tree/Heap.antt =====
-- The links between the nodes of a search tree (cpp/src/dual_simplex/mip_node.hpp), and what a write
-- of a status or a bound leaves of them.
use nvcuopt.Prelude.{
  ℕ, zero, suc, ◌≡◌, ◌≢◌, ◌⊎◌, refl, sym, subst, ap, ◌∙◌, List, [], ◌∷◌, Option, none, some,
  Bool-cases, inl, inr, ◌==◌, set, arith,
}
use nvcuopt.Tree.{NodeStatus, MipNode, fetch}

module _ {F : Type 0} where
  pub fetch-set_self :
      (h : List (MipNode F)) (p : ℕ) (m n : MipNode F)
      → fetch h p ≡ some m
      → fetch (set h p n) p ≡ some n
  fetch-set_self [] p m n e = ground arith
  fetch-set_self (a ∷ h) zero m n e = refl
  fetch-set_self (a ∷ h) (suc p) m n e = fetch-set_self h p m n e

  pub fetch-set_ne :
      (h : List (MipNode F)) (p x : ℕ) (n : MipNode F) → p ≢ x → fetch (set h p n) x ≡ fetch h x
  fetch-set_ne [] p x n ne = refl
  fetch-set_ne (a ∷ h) zero zero n ne = absurd (ne refl)
  fetch-set_ne (a ∷ h) zero (suc x) n ne = refl
  fetch-set_ne (a ∷ h) (suc p) zero n ne = refl
  fetch-set_ne (a ∷ h) (suc p) (suc x) n ne = fetch-set_ne h p x n (λ e. ne (ap suc e))

  pub same_node :
      (h : List (MipNode F)) (p : ℕ) (m n : MipNode F)
      → fetch h p ≡ some m
      → fetch h p ≡ some n
      → m ≡ n
  same_node h p m n e f = let both : some m ≡ some n = sym e ∙ f in cc both

  abbrev pub Child : MipNode F → ℕ → Type 0
  Child n c = (n.down ≡ some c) ⊎ (n.up ≡ some c)

  -- The parent of the node at k, if any, stands one level up and has it as a child.
  abbrev pub LinkedUp : List (MipNode F) → ℕ → ℕ → Option ℕ → Type 0
  LinkedUp h k depth none = Unit
  LinkedUp h k depth (some p) =
      (q : MipNode F) × (fetch h p ≡ some q) × (depth ≡ suc q.depth) × Child q k

  -- A child of the node at k, if any, has it as its parent.
  abbrev pub LinkedDown : List (MipNode F) → ℕ → Option ℕ → Type 0
  LinkedDown h k none = Unit
  LinkedDown h k (some c) = (m : MipNode F) × (fetch h c ≡ some m) × (m.parent ≡ some k)

  pub record IsLinked (h : List (MipNode F)) (k : ℕ) (n : MipNode F) : Type 0 where
    pub above : LinkedUp h k n.depth n.parent
    pub left : LinkedDown h k n.down
    pub right : LinkedDown h k n.up

  -- All nodes are linked with their parents and children.
  abbrev pub IsFamily : List (MipNode F) → Type 0
  IsFamily h = (k : ℕ) (n : MipNode F) → fetch h k ≡ some n → IsLinked h k n

  pub record SameLinks (m n : MipNode F) : Type 0 where
    pub depth : m.depth ≡ n.depth
    pub parent : m.parent ≡ n.parent
    pub down : m.down ≡ n.down
    pub up : m.up ≡ n.up

  -- The node at p gets the status st, and perhaps another bound; the rest of it and all other nodes
  -- stay.
  pub record Settled (p : ℕ) (n : MipNode F) (st : NodeStatus) (h h' : List (MipNode F))
      : Type 0 where
    pub others : (x : ℕ) → p ≢ x → fetch h' x ≡ fetch h x
    pub node : MipNode F
    pub here : fetch h' p ≡ some node
    pub links : SameLinks node n
    pub status : node.status ≡ st
    pub shape : node ≡ record n { status = st; lower_bound = node.lower_bound }

  -- A node of one heap has a node with the same links in the other.
  abbrev Alike : List (MipNode F) → List (MipNode F) → Type 0
  Alike h h' =
      (k : ℕ) (n : MipNode F)
      → fetch h k ≡ some n
      → (m : MipNode F) × (fetch h' k ≡ some m) × SameLinks m n

  LinkedUp-Alike :
      (h h' : List (MipNode F)) (k depth : ℕ) (place : Option ℕ)
      → Alike h h'
      → LinkedUp h k depth place
      → LinkedUp h' k depth place
  LinkedUp-Alike h h' k depth none alike l = tt
  LinkedUp-Alike h h' k depth (some p) alike l =
      let (q, there, deep, child) = l in
      let (m, there', same) = alike p q there in
      (
        m,
        there',
        deep ∙ ap suc (sym same.depth),
        elim child [ inl e ↦ inl (same.down ∙ e) | inr e ↦ inr (same.up ∙ e) ],
      )

  LinkedDown-Alike :
      (h h' : List (MipNode F)) (k : ℕ) (place : Option ℕ)
      → Alike h h'
      → LinkedDown h k place
      → LinkedDown h' k place
  LinkedDown-Alike h h' k none alike l = tt
  LinkedDown-Alike h h' k (some c) alike l =
      let (m, there, up) = l in
      let (m', there', same) = alike c m there in (m', there', same.parent ∙ up)

  IsFamily-Alike : (h h' : List (MipNode F)) → Alike h h' → Alike h' h → IsFamily h → IsFamily h'
  IsFamily-Alike h h' alike back family k n here =
      let (m, there, same) = back k n here in
      let linked = family k m there in
      record {
        above =
            rw (sym same.depth, sym same.parent)
              (LinkedUp-Alike h h' k m.depth m.parent alike linked.above);
        left = rw (sym same.down) (LinkedDown-Alike h h' k m.down alike linked.left);
        right = rw (sym same.up) (LinkedDown-Alike h h' k m.up alike linked.right);
      }

  -- A write of a status keeps the family.
  pub Settled-IsFamily :
      (p : ℕ) (n : MipNode F) (st : NodeStatus) (h h' : List (MipNode F))
      → fetch h p ≡ some n
      → Settled p n st h h'
      → IsFamily h
      → IsFamily h'
  Settled-IsFamily p n st h h' there s =
      IsFamily-Alike h h'
        (λ k m here. elim (Bool-cases (p == k)) [
          | inl hit ↦
              let e : p ≡ k = ground arith in
              let same : n ≡ m = same_node h p n m there (rw e here) in
              (s.node, rw (← e) s.here, rw (← same) s.links)
          | inr miss ↦ (
            m,
            s.others k (ground arith) ∙ here,
            record { depth = refl; parent = refl; down = refl; up = refl },
          )
        ])
        (λ k m here. elim (Bool-cases (p == k)) [
          | inl hit ↦
              let e : p ≡ k = ground arith in
              let same : s.node ≡ m = same_node h' p s.node m s.here (rw e here) in
              (
                n,
                rw (← e) there,
                rw (← same) record {
                  depth = sym s.links.depth;
                  parent = sym s.links.parent;
                  down = sym s.links.down;
                  up = sym s.links.up;
                },
              )
          | inr miss ↦ (
            m,
            sym (s.others k (ground arith)) ∙ here,
            record { depth = refl; parent = refl; down = refl; up = refl },
          )
        ])

  -- A child is one level deeper.
  pub child_depth :
      (h : List (MipNode F)) (p c : ℕ) (n m : MipNode F)
      → IsFamily h
      → fetch h p ≡ some n
      → fetch h c ≡ some m
      → m.parent ≡ some p
      → m.depth ≡ suc n.depth
  child_depth h p c n m family there e up =
      let (q, stands, deep, child) = subst (LinkedUp h c m.depth) up (family c m e).above in
      deep ∙ ap (λ (t : MipNode F). suc t.depth) (same_node h p q n stands there)
