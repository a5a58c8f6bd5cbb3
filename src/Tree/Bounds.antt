-- ===== src/Tree/Bounds.antt =====
-- `get_variable_bounds` of cpp/src/dual_simplex/mip_node.hpp: it ends, and which of the bounds that
-- the ancestors of a node set it leaves.
use nvcuopt.Prelude.{
  ℕ, zero, suc, ◌<◌, ◌≡◌, ◌≢◌, refl, sym, subst, List, [], ◌∷◌, map, foldl, Option, none, some,
  Bool-cases, inl, inr, ◌==◌, length, set, arith, All,
}
use nvcuopt.Prelude.Num.{Num}
use nvcuopt.Sparse.Matrix.{val}
use nvcuopt.Sparse.Convert.Coeffs.{values}
use nvcuopt.Sparse.Vector.Accumulate.{overwrite, val-overwrite}
use nvcuopt.Tree.{MipNode, fetch, apply_bounds, climb, get_variable_bounds}

-- A variable with the bounds that a branch gives it.
pub record Branch (F : Type 0) : Type 0 where
  pub var : ℕ
  pub low : F
  pub high : F

-- A node has a branch variable below nvars, unless it is the root, which has the number 0.
abbrev pub Branched : ℕ → ℕ → Option ℕ → Type 0
Branched nvars zero v = Unit
Branched nvars (suc id) none = ⊥
Branched nvars (suc id) (some v) = v < nvars

branched :
    (nvars id : ℕ) (place : Option ℕ)
    → Branched nvars id place
    → id ≢ 0
    → (v : ℕ) × (place ≡ some v) × (v < nvars)
branched nvars zero place h inner = absurd (inner refl)
branched nvars (suc id) none h inner = absurd h
branched nvars (suc id) (some v) h inner = (v, refl, h)

module _ {F : Type 0} where
  -- The branch that made a node.
  pub record IsBranch (n : MipNode F) (b : Branch F) : Type 0 where
    pub var : n.branch_var ≡ some b.var
    pub low : n.branch_var_lower ≡ b.low
    pub high : n.branch_var_upper ≡ b.high

  -- The branches from a place up to the root, the first of them the one nearest to the place.
  pub data Ascent (h : List (MipNode F)) : Option ℕ → List (Branch F) → Type 0 where
    top : Ascent h none []
    root : (p : ℕ) (n : MipNode F) → fetch h p ≡ some n → n.node_id ≡ 0 → Ascent h (some p) []
    step :
        (p : ℕ) (n : MipNode F) (b : Branch F) (bs : List (Branch F))
        → fetch h p ≡ some n
        → n.node_id ≢ 0
        → IsBranch n b
        → Ascent h n.parent bs
        → Ascent h (some p) (b ∷ bs)

  -- The parent of a node stands in the heap, one level up.
  abbrev pub Linked : List (MipNode F) → ℕ → Option ℕ → Type 0
  Linked h depth none = Unit
  Linked h depth (some p) = (q : MipNode F) × (fetch h p ≡ some q) × (depth ≡ suc q.depth)

  -- So it is of all nodes.
  abbrev pub IsTree : ℕ → List (MipNode F) → Type 0
  IsTree nvars h = All (λ n. Branched nvars n.node_id n.branch_var × Linked h n.depth n.parent) h

  fetch-All :
      (P : MipNode F → Type 0) (h : List (MipNode F)) (k : ℕ) (n : MipNode F)
      → All P h
      → fetch h k ≡ some n
      → P n
  fetch-All P [] k n all e = ground arith
  fetch-All P (m ∷ h) zero n all e = let same : m ≡ n = cc e in subst P same all.0
  fetch-All P (m ∷ h) (suc k) n all e = fetch-All P h k n all.1 e

  linked :
      (h : List (MipNode F)) (depth : ℕ) (place : Option ℕ) (p : ℕ)
      → Linked h depth place
      → place ≡ some p
      → (q : MipNode F) × (fetch h p ≡ some q) × (depth ≡ suc q.depth)
  linked h depth none p l e = ground arith
  linked h depth (some r) p l e =
      let same : r ≡ p = cc e in
      subst (λ t. (q : MipNode F) × (fetch h t ≡ some q) × (depth ≡ suc q.depth)) same l

  abbrev pub lows : List (Branch F) → List (ℕ × F)
  lows bs = map (λ b. (b.var, b.low)) bs

  abbrev pub highs : List (Branch F) → List (ℕ × F)
  highs bs = map (λ b. (b.var, b.high)) bs

  apply_bounds_lem :
      (n : MipNode F) (b : Branch F) (bounds : List F × List F)
      → IsBranch n b
      → apply_bounds n bounds ≡ some (set bounds.0 b.var b.low, set bounds.1 b.var b.high)
  unfolding apply_bounds
  apply_bounds_lem n b bounds h = rw (h.var, h.low, h.high) refl

module _ {F : Type 0} ⦃num : Num F⦄ where
  -- The loop applies the branches of the path, the one nearest to the root last.
  climb_lem :
      (nvars : ℕ) (h : List (MipNode F)) (fuel : ℕ) (place : Option ℕ) (bounds : List F × List F)
      → IsTree nvars h
      → ((p : ℕ) → place ≡ some p → (n : MipNode F) × (fetch h p ≡ some n) × (n.depth < fuel))
      → (bs : List (Branch F)) × Ascent h place bs
        × All (λ e. e.0 < nvars) (lows bs)
        × All (λ e. e.0 < nvars) (highs bs)
        × (climb h fuel place bounds
            ≡ some (overwrite (lows bs) bounds.0, overwrite (highs bs) bounds.1))
  unfolding climb
  climb_lem nvars h fuel none bounds tree low = ([], Ascent.top, tt, tt, refl)
  climb_lem nvars h zero (some p) bounds tree low =
      let (n, _, lt) = low p refl in absurd (omega arith)
  climb_lem nvars h (suc fuel) (some p) bounds tree low =
      let (n, here, lt) = low p refl in
      elim (Bool-cases (n.node_id == 0)) [
        | inl hit ↦ ([], Ascent.root p n here (ground arith), tt, tt, rw (here, hit) refl)
        | inr miss ↦
            let inner : n.node_id ≢ 0 = ground arith in
            let ok_node = fetch-All _ h p n tree here in
            let (v, var, small) = branched nvars n.node_id n.branch_var ok_node.0 inner in
            let b : Branch F = record {
              var = v;
              low = n.branch_var_lower;
              high = n.branch_var_upper;
            } in
            let is : IsBranch n b = record { var = var; low = refl; high = refl } in
            let (bs, path, ok, ok', rest) =
              climb_lem nvars h fuel n.parent (set bounds.0 v b.low, set bounds.1 v b.high) tree
                (λ q e.
                  let (m, there, deep) = linked h n.depth n.parent q ok_node.1 e in
                  (m, there, omega arith)) in
            (
              b ∷ bs,
              Ascent.step p n b bs here inner is path,
              (small, ok),
              (small, ok'),
              rw (here, miss, apply_bounds_lem n b bounds is) rest,
            )
      ]

  -- In a tree, for a node that is not the root and bounds of all variables, `get_variable_bounds`
  -- has a result. It gives each variable the bounds of the last branch on it on the way from the
  -- node up to the root, which is the one nearest to the root, and leaves it the bounds that it had
  -- when no branch is on it.
  pub get_variable_bounds-val :
      (nvars : ℕ) (h : List (MipNode F)) (k : ℕ) (n : MipNode F) (lower upper : List F)
      → IsTree nvars h
      → fetch h k ≡ some n
      → n.node_id ≢ 0
      → length lower ≡ nvars
      → length upper ≡ nvars
      → (bs : List (Branch F)) × (lower' : List F) × (upper' : List F) × Ascent h (some k) bs
        × (get_variable_bounds h k (lower, upper) ≡ some (lower', upper'))
        × ((v : ℕ)
            → (val lower' v ≡ foldl (λ _ w. w) (val lower v) (values v (lows bs)))
              × (val upper' v ≡ foldl (λ _ w. w) (val upper v) (values v (highs bs))))
  unfolding get_variable_bounds
  get_variable_bounds-val nvars h k n lower upper tree here inner hl hu =
      let ok_node = fetch-All _ h k n tree here in
      let (v, var, small) = branched nvars n.node_id n.branch_var ok_node.0 inner in
      let b : Branch F = record { var = v; low = n.branch_var_lower; high = n.branch_var_upper } in
      let is : IsBranch n b = record { var = var; low = refl; high = refl } in
      let (bs, path, ok, ok', rest) =
        climb_lem nvars h n.depth n.parent (set lower v b.low, set upper v b.high) tree
          (λ q e.
            let (m, there, deep) = linked h n.depth n.parent q ok_node.1 e in
            (m, there, omega arith)) in
      (
        b ∷ bs,
        overwrite (lows (b ∷ bs)) lower,
        overwrite (highs (b ∷ bs)) upper,
        Ascent.step k n b bs here inner is path,
        rw (here, apply_bounds_lem n b (lower, upper) is) rest,
        λ w. (
          val-overwrite w (lows (b ∷ bs)) lower
              (subst (λ m. All (λ (e : ℕ × F). e.0 < m) (lows (b ∷ bs))) (sym hl) (small, ok)),
          val-overwrite w (highs (b ∷ bs)) upper
              (subst (λ m. All (λ (e : ℕ × F). e.0 < m) (highs (b ∷ bs))) (sym hu) (small, ok')),
        ),
      )
