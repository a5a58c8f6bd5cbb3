-- ===== src/Tree/Grow.antt =====
-- What the heap holds after `add_children` of cpp/src/dual_simplex/mip_node.hpp, with children from the second constructor of
-- mip_node_t.
use nvcuopt.Prelude.{
  ℕ, zero, suc, ◌≡◌, ◌≢◌, ◌⊎◌, refl, sym, subst, ap, ◌∙◌, List, [], ◌∷◌, ◌++◌, Option, none, some,
  Bool-cases, inl, inr, ◌==◌, length, length-set, set, arith,
}
use nvcuopt.Tree.{NodeStatus, MipNode, fetch}
use nvcuopt.Tree.Heap.{
  Child, LinkedUp, LinkedDown, IsLinked, IsFamily, same_node, fetch-set_self, fetch-set_ne,
}

module _ {F : Type 0} where
  -- A node read from h, or one of the two behind it.
  fetch-append :
      (h : List (MipNode F)) (a b : MipNode F) (x : ℕ) (m : MipNode F)
      → fetch (h ++ a ∷ b ∷ []) x ≡ some m
      → (fetch h x ≡ some m) ⊎ ((x ≡ length h) × (a ≡ m)) ⊎ ((x ≡ suc (length h)) × (b ≡ m))
  fetch-append [] a b zero m e = inr (inl (refl, cc e))
  fetch-append [] a b (suc zero) m e = inr (inr (refl, cc e))
  fetch-append [] a b (suc (suc x)) m e = ground arith
  fetch-append (c ∷ h) a b zero m e = inl e
  fetch-append (c ∷ h) a b (suc x) m e = elim (fetch-append h a b x m e) [
    | inl old ↦ inl old
    | inr (inl (p, q)) ↦ inr (inl (ap suc p, q))
    | inr (inr (p, q)) ↦ inr (inr (ap suc p, q))
  ]

  fetch-append_old :
      (h l : List (MipNode F)) (x : ℕ) (m : MipNode F)
      → fetch h x ≡ some m
      → fetch (h ++ l) x ≡ some m
  fetch-append_old [] l x m e = ground arith
  fetch-append_old (c ∷ h) l zero m e = e
  fetch-append_old (c ∷ h) l (suc x) m e = fetch-append_old h l x m e

  fetch-append_new :
      (h : List (MipNode F)) (a b : MipNode F)
      → (fetch (h ++ a ∷ b ∷ []) (length h) ≡ some a)
        × (fetch (h ++ a ∷ b ∷ []) (suc (length h)) ≡ some b)
  fetch-append_new [] a b = (refl, refl)
  fetch-append_new (c ∷ h) a b = fetch-append_new h a b

  -- The node n with the children at m and behind it.
  abbrev pub with_children : MipNode F → ℕ → MipNode F
  with_children n m = record n { down = some m; up = some (suc m); vstatus = [] }

  -- The heap after `add_children`.
  abbrev pub grown : List (MipNode F) → ℕ → MipNode F → MipNode F → MipNode F → List (MipNode F)
  grown h k n a b = set h k (with_children n (length h)) ++ a ∷ b ∷ []

  -- Two fresh children of the node at k, of depth d.
  pub record IsFresh (k d : ℕ) (a : MipNode F) : Type 0 where
    pub status : a.status ≡ NodeStatus.active
    pub depth : a.depth ≡ suc d
    pub parent : a.parent ≡ some k
    pub down : a.down ≡ none
    pub up : a.up ≡ none

  module _ (h : List (MipNode F)) (k : ℕ) (n a b : MipNode F) (there : fetch h k ≡ some n)
      (fresh_a : IsFresh k n.depth a) (fresh_b : IsFresh k n.depth b) (no_down : n.down ≡ none)
      (no_up : n.up ≡ none) where
    pub grown_here : fetch (grown h k n a b) k ≡ some (with_children n (length h))
    grown_here =
        fetch-append_old (set h k (with_children n (length h))) (a ∷ b ∷ []) k _
          (fetch-set_self h k n (with_children n (length h)) there)

    pub grown_old :
        (x : ℕ) (m : MipNode F) → k ≢ x → fetch h x ≡ some m → fetch (grown h k n a b) x ≡ some m
    grown_old x m ne e =
        fetch-append_old (set h k (with_children n (length h))) (a ∷ b ∷ []) x m
          (fetch-set_ne h k x (with_children n (length h)) ne ∙ e)

    pub grown_new :
        (fetch (grown h k n a b) (length h) ≡ some a)
        × (fetch (grown h k n a b) (suc (length h)) ≡ some b)
    grown_new =
        rw (length-set h k (with_children n (length h))) at
          (fetch-append_new (set h k (with_children n (length h))) a b)

    -- Where a node of the new heap comes from.
    pub grown_read :
        (x : ℕ) (m : MipNode F)
        → fetch (grown h k n a b) x ≡ some m
        → ((k ≢ x) × (fetch h x ≡ some m))
          ⊎ ((k ≡ x) × (with_children n (length h) ≡ m))
          ⊎ ((x ≡ length h) × (a ≡ m))
          ⊎ ((x ≡ suc (length h)) × (b ≡ m))
    grown_read x m e = elim (fetch-append (set h k (with_children n (length h))) a b x m e) [
      | inl old ↦ elim (Bool-cases (k == x)) [
        | inl hit ↦
            let same : k ≡ x = ground arith in
            inr (
              inl (
                same,
                same_node _ x _ m
                    (rw (← same) (fetch-set_self h k n (with_children n (length h)) there)) old,
              ))
        | inr miss ↦
            let ne : k ≢ x = ground arith in
            inl (ne, sym (fetch-set_ne h k x (with_children n (length h)) ne) ∙ old)
      ]
      | inr (inl (p, q)) ↦ inr (inr (inl (p ∙ length-set h k (with_children n (length h)), q)))
      | inr (inr (p, q)) ↦
          inr (inr (inr (p ∙ ap suc (length-set h k (with_children n (length h))), q)))
    ]

    grown_LinkedUp :
        (x depth : ℕ) (place : Option ℕ)
        → LinkedUp h x depth place
        → LinkedUp (grown h k n a b) x depth place
    grown_LinkedUp x depth none l = tt
    grown_LinkedUp x depth (some p) l =
        let (q, e, deep, child) = l in
        elim (Bool-cases (k == p)) [
          | inl hit ↦
              let same : k ≡ p = ground arith in
              let it : n ≡ q = same_node h p n q (rw same at there) e in
              let childless : Child n x = rw (← it) at child in
              elim childless [
                | inl d ↦ let no : none ≡ some x = sym no_down ∙ d in cc no
                | inr u ↦ let no : none ≡ some x = sym no_up ∙ u in cc no
              ]
          | inr miss ↦ (q, grown_old p q (ground arith) e, deep, child)
        ]

    grown_LinkedDown :
        (x : ℕ) (place : Option ℕ) → LinkedDown h x place → LinkedDown (grown h k n a b) x place
    grown_LinkedDown x none l = tt
    grown_LinkedDown x (some c) l =
        let (m, e, up) = l in
        elim (Bool-cases (k == c)) [
          | inl hit ↦
              let same : k ≡ c = ground arith in
              let it : n ≡ m = same_node h c n m (rw same at there) e in
              (with_children n (length h), rw (← same) grown_here, rw (← it) at up)
          | inr miss ↦ (m, grown_old c m (ground arith) e, up)
        ]

    fresh-IsLinked :
        (x : ℕ) (c : MipNode F)
        → IsFresh k n.depth c
        → Child (with_children n (length h)) x
        → IsLinked (grown h k n a b) x c
    fresh-IsLinked x c f child = record {
      above = rw (f.depth, f.parent) (with_children n (length h), grown_here, refl, child);
      left = rw f.down tt;
      right = rw f.up tt;
    }

    pub grown-IsFamily : IsFamily h → IsFamily (grown h k n a b)
    grown-IsFamily family x m e = elim (grown_read x m e) [
      | inl (ne, old) ↦
          let linked = family x m old in
          record {
            above = grown_LinkedUp x m.depth m.parent linked.above;
            left = grown_LinkedDown x m.down linked.left;
            right = grown_LinkedDown x m.up linked.right;
          }
      | inr (inl (here, it)) ↦ subst (IsLinked (grown h k n a b) x) it (
          subst (λ y. IsLinked (grown h k n a b) y (with_children n (length h))) here
            record {
              above = grown_LinkedUp k n.depth n.parent (family k n there).above;
              left = (a, grown_new.0, fresh_a.parent);
              right = (b, grown_new.1, fresh_b.parent);
            })
      | inr (inr (inl (here, it))) ↦
          subst (IsLinked (grown h k n a b) x) it
            (fresh-IsLinked x a fresh_a (inl (ap some (sym here))))
      | inr (inr (inr (here, it))) ↦
          subst (IsLinked (grown h k n a b) x) it
            (fresh-IsLinked x b fresh_b (inr (ap some (sym here))))
    ]
