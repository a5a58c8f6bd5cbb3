-- ===== src/Tree/Settle.antt =====
-- `settle`, the write of a status and of the bound that follows, in the trees of
-- cpp/src/dual_simplex/mip_node.hpp.
use nvcuopt.Prelude.{
  ℕ, ◌≡◌, ◌⊎◌, refl, sym, subst, ap, ap₂, ◌∙◌, List, Option, none, some, Bool, true, Bool-cases,
  inl, inr, ◌==◌, ◌&&◌, if◌then◌else◌, set, arith,
}
use nvcuopt.Prelude.Num.{Num}
use nvcuopt.Tree.{
  NodeStatus, MipNode, fetch, is_settled, min, children_inactive, bound_of_children, update_bound,
  settle,
}
use nvcuopt.Tree.Heap.{
  IsFamily, LinkedDown, Settled, same_node, fetch-set_self, fetch-set_ne, child_depth,
}

and-true : (a b : Bool) → a && b ≡ true → (a ≡ true) × (b ≡ true)
and-true a b e = ground arith

module _ {F : Type 0} where
  -- A place that is not null has a node.
  abbrev Exists : List (MipNode F) → Option ℕ → Type 0
  Exists h none = Unit
  Exists h (some c) = (m : MipNode F) × (fetch h c ≡ some m)

  LinkedDown-Exists :
      (h : List (MipNode F)) (k p : ℕ) (n : MipNode F) (place : Option ℕ)
      → LinkedDown h k place
      → Exists (set h p n) place
  LinkedDown-Exists h k p n none l = tt
  LinkedDown-Exists h k p n (some c) l = elim (Bool-cases (p == c)) [
    | inl hit ↦ let e : p ≡ c = ground arith in (n, rw (← e) (fetch-set_self h p l.0 n (rw e l.1)))
    | inr miss ↦ (l.0, fetch-set_ne h p c n (ground arith) ∙ l.1)
  ]

module _ {F : Type 0} ⦃num : Num F⦄ where
  -- The nodes with the parent p are the same in both heaps.
  pub children_inactive-same :
      (h h' : List (MipNode F)) (p : ℕ) (l r : Option ℕ)
      → ((c : ℕ) (m : MipNode F) → fetch h c ≡ some m → m.parent ≡ some p → fetch h' c ≡ some m)
      → LinkedDown h p l
      → LinkedDown h p r
      → children_inactive h' l r ≡ children_inactive h l r
  unfolding children_inactive
  children_inactive-same h h' p none none same ll lr = refl
  children_inactive-same h h' p (some l) none same ll lr = rw (same l ll.0 ll.1 ll.2, ll.1) refl
  children_inactive-same h h' p none (some r) same ll lr = rw (same r lr.0 lr.1 lr.2, lr.1) refl
  children_inactive-same h h' p (some l) (some r) same ll lr =
      rw (same l ll.0 ll.1 ll.2, same r lr.0 lr.1 lr.2, ll.1, lr.1) refl

  -- The places l and r are not both null, and the nodes at those that are not are inactive.
  abbrev pub AllInactive : List (MipNode F) → Option ℕ → Option ℕ → Type 0
  AllInactive h l r =
      ((c : ℕ) × ((l ≡ some c) ⊎ (r ≡ some c)))
      × ((c : ℕ)
          → ((l ≡ some c) ⊎ (r ≡ some c))
          → (m : MipNode F) × (fetch h c ≡ some m) × (is_settled m ≡ true))

  -- A place that is known to hold an inactive node.
  one_inactive :
      (h : List (MipNode F)) (k x c : ℕ)
      → (l : LinkedDown h k (some x)) → is_settled l.0 ≡ true
      → some x ≡ some c
      → (m : MipNode F) × (fetch h c ≡ some m) × (is_settled m ≡ true)
  one_inactive h k x c l off e =
      let same : x ≡ c = cc e in (l.0, subst (λ q. fetch h q ≡ some l.0) same l.1, off)

  pub children_inactive-AllInactive :
      (h : List (MipNode F)) (k : ℕ) (l r : Option ℕ)
      → LinkedDown h k l
      → LinkedDown h k r
      → children_inactive h l r ≡ some true
      → AllInactive h l r
  unfolding children_inactive
  children_inactive-AllInactive h k none none ll lr e = let no : none ≡ some true = e in cc no
  children_inactive-AllInactive h k (some l) none ll lr e =
      let off : some (is_settled ll.0) ≡ some true = rw ll.1 at e in
      (
        (l, inl refl),
        λ c child. elim child [ inl it ↦ one_inactive h k l c ll (cc off) it | inr it ↦ cc it ],
      )
  children_inactive-AllInactive h k none (some r) ll lr e =
      let off : some (is_settled lr.0) ≡ some true = rw lr.1 at e in
      (
        (r, inr refl),
        λ c child. elim child [ inl it ↦ cc it | inr it ↦ one_inactive h k r c lr (cc off) it ],
      )
  children_inactive-AllInactive h k (some l) (some r) ll lr e =
      let off : some (is_settled ll.0 && is_settled lr.0) ≡ some true = rw (ll.1, lr.1) at e in
      let both : is_settled ll.0 && is_settled lr.0 ≡ true = cc off in
      let (left, right) = and-true (is_settled ll.0) (is_settled lr.0) both in
      (
        (l, inl refl),
        λ c child. elim child [
          | inl it ↦ one_inactive h k l c ll left it
          | inr it ↦ one_inactive h k r c lr right it
        ],
      )

  pub AllInactive-children_inactive :
      (h : List (MipNode F)) (l r : Option ℕ)
      → AllInactive h l r
      → children_inactive h l r ≡ some true
  unfolding children_inactive
  AllInactive-children_inactive h none none all =
      let (c, child) = all.0 in elim child [ inl e ↦ cc e | inr e ↦ cc e ]
  AllInactive-children_inactive h (some l) none all =
      let (m, e, off) = all.1 l (inl refl) in rw e (ap some off)
  AllInactive-children_inactive h none (some r) all =
      let (m, e, off) = all.1 r (inr refl) in rw e (ap some off)
  AllInactive-children_inactive h (some l) (some r) all =
      let (m, e, off) = all.1 l (inl refl) in
      let (m', e', off') = all.1 r (inr refl) in rw (e, e') (ap₂ (λ a b. some (a && b)) off off')

  pub bound_of_children-same :
      (h h' : List (MipNode F)) (p : ℕ) (own : F) (l r : Option ℕ)
      → ((c : ℕ) (m : MipNode F) → fetch h c ≡ some m → m.parent ≡ some p → fetch h' c ≡ some m)
      → LinkedDown h p l
      → LinkedDown h p r
      → bound_of_children h' own l r ≡ bound_of_children h own l r
  unfolding bound_of_children
  bound_of_children-same h h' p own none none same ll lr = refl
  bound_of_children-same h h' p own (some l) none same ll lr = rw (same l ll.0 ll.1 ll.2, ll.1) refl
  bound_of_children-same h h' p own none (some r) same ll lr = rw (same r lr.0 lr.1 lr.2, lr.1) refl
  bound_of_children-same h h' p own (some l) (some r) same ll lr =
      rw (same l ll.0 ll.1 ll.2, same r lr.0 lr.1 lr.2, ll.1, lr.1) refl

  bound_of_children-some :
      (h : List (MipNode F)) (own : F) (l r : Option ℕ)
      → Exists h l
      → Exists h r
      → (b : F) × (bound_of_children h own l r ≡ some b)
  unfolding bound_of_children
  bound_of_children-some h own none none el er = (own, refl)
  bound_of_children-some h own (some l) none el er =
      (if is_settled el.0 then el.0.lower_bound else own, rw el.1 refl)
  bound_of_children-some h own none (some r) el er =
      (if is_settled er.0 then er.0.lower_bound else own, rw er.1 refl)
  bound_of_children-some h own (some l) (some r) el er = (
    if is_settled el.0 && is_settled er.0 then min el.0.lower_bound er.0.lower_bound else own,
    rw (el.1, er.1) refl,
  )

  -- Setting a status has a result, and the bound is the one that the children give.
  pub settle-Settled :
      (h : List (MipNode F)) (p : ℕ) (n : MipNode F) (st : NodeStatus)
      → fetch h p ≡ some n
      → IsFamily h
      → (h' : List (MipNode F)) × (s : Settled p n st h h') × (settle h p n st ≡ some h')
        × (bound_of_children h n.lower_bound n.down n.up ≡ some s.node.lower_bound)
  unfolding settle update_bound
  settle-Settled h p n st there family =
      let n1 : MipNode F = record n { status = st } in
      let h1 = set h p n1 in
      let here = fetch-set_self h p n n1 there in
      let linked = family p n there in
      let (b, bound) =
        bound_of_children-some h1 n.lower_bound n.down n.up
          (LinkedDown-Exists h p p n1 n.down linked.left)
          (LinkedDown-Exists h p p n1 n.up linked.right) in
      let n2 : MipNode F = record n1 { lower_bound = b } in
      let other : (c : ℕ) (m : MipNode F)
          → fetch h c ≡ some m
          → m.parent ≡ some p
          → fetch h1 c ≡ some m =
        λ c m e up.
          fetch-set_ne h p c n1 (λ same.
            let it = same_node h c n m (subst (λ q. fetch h q ≡ some n) same there) e in
            let level = ap (λ (t : MipNode F). t.depth) it in
            absurd (omega (arith, level, child_depth h p c n m family there e up)))
          ∙ e in
      (
        set h1 p n2,
        record {
          others = λ x ne. fetch-set_ne h1 p x n2 ne ∙ fetch-set_ne h p x n1 ne;
          node = n2;
          here = fetch-set_self h1 p n1 n2 here;
          links = record { depth = refl; parent = refl; down = refl; up = refl };
          status = refl;
          shape = refl;
        },
        rw (here, bound) refl,
        sym (bound_of_children-same h h1 p n.lower_bound n.down n.up other linked.left linked.right)
            ∙ bound,
      )
