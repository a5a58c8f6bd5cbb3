-- ===== src/Triangle/Upper.antt =====
-- Upper triangular matrices, as the solves of cpp/src/dual_simplex/triangle_solve.cpp take them.
use nvcuopt.Prelude.{
  ℕ, zero, suc, ◌+◌, ◌-◌, ◌≤◌, ◌<◌, ◌≡◌, ◌≢◌, refl, ap, ◌∙◌, List, [], ◌∷◌, ◌++◌, map, arith, span,
  All,
}
use nvcuopt.Prelude.Num.{Num}
use nvcuopt.Sparse.Matrix.{Csc, at, val}
use nvcuopt.Sparse.Layout.{cols, segment, entry, width, IsLayout}

module _ {F : Type 0} ⦃num : Num F⦄ where
  -- A square matrix whose columns end with the diagonal, which is not 0, and have their other
  -- entries above it.
  pub record IsUpper (U : Csc F) : Type 0 where
    pub layout : IsLayout U.n U.n (cols U)
    pub nonempty : (j : ℕ) → j < U.n → at U.col_start j < at U.col_start (suc j)
    pub diagonal : (j : ℕ) → j < U.n → at U.i (at U.col_start (suc j) - 1) ≡ j
    pub nonzero : (j : ℕ) → j < U.n → val U.x (at U.col_start (suc j) - 1) ≢ num.nought
    pub above :
        (j p : ℕ) → j < U.n → at U.col_start j ≤ p → p < at U.col_start (suc j) - 1 → at U.i p < j

  -- The entries of column j above the diagonal.
  abbrev pub init : Csc F → ℕ → List (ℕ × F)
  init U j =
      map (entry (cols U))
        (span (at U.col_start j) ((at U.col_start (suc j) - 1) - at U.col_start j))

  entries_above :
      (U : Csc F) (j lo k : ℕ)
      → ((p : ℕ) → lo ≤ p → p < lo + k → at U.i p < j)
      → All (λ e. e.0 < j) (map (entry (cols U)) (span lo k))
  entries_above U j lo zero h = tt
  entries_above U j lo (suc k) h = (
    h lo (omega arith) (omega arith),
    entries_above U j (suc lo) k (λ p a b. h p (omega arith) (omega arith)),
  )

  pub init-All : (U : Csc F) (j : ℕ) → IsUpper U → j < U.n → All (λ e. e.0 < j) (init U j)
  init-All U j h lt =
      let start = at U.col_start j in
      let col_end = at U.col_start (suc j) - 1 in
      entries_above U j start (col_end - start)
        (λ p a b. h.above j p lt (omega arith) (omega arith))

  pub map-span_last :
      (f : ℕ → ℕ × F) (lo k last : ℕ)
      → lo + k ≡ last
      → map f (span lo (suc k)) ≡ map f (span lo k) ++ (f last ∷ [])
  map-span_last f lo zero last e = let e' : last ≡ lo = omega arith in rw e' refl
  map-span_last f lo (suc k) last e =
      ap (◌∷◌ (f lo)) (map-span_last f (suc lo) k last (omega arith))

  pub segment-init :
      (U : Csc F) (j : ℕ)
      → IsUpper U
      → j < U.n
      → segment (cols U) j ≡ init U j ++ ((j, val U.x (at U.col_start (suc j) - 1)) ∷ [])
  segment-init U j h lt =
      let start = at U.col_start j in
      let col_end = at U.col_start (suc j) - 1 in
      let wide : width (cols U) j ≡ suc (col_end - start) = omega (arith, h.nonempty j lt) in
      rw wide (
        map-span_last (entry (cols U)) start (col_end - start) col_end
          (omega (arith, h.nonempty j lt))
        ∙ ap (λ i. init U j ++ ((i, val U.x col_end) ∷ [])) (h.diagonal j lt))
