-- ===== src/Sparse/Product/Multiply.antt =====
-- `multiply` of cpp/src/dual_simplex/sparse_matrix.cpp.
use mathlib.Core.List.{foldl-append}
use nvcuopt.Prelude.{
  ℕ, suc, ◌+◌, ◌*◌, ◌≤◌, ◌<◌, ◌≡◌, refl, sym, ap, ◌∙◌, List, [], ◌∷◌, ◌++◌, map, foldl, arith, ltb,
  inl, inr, Bool-cases, length, span, All, All-append,
}
use nvcuopt.Prelude.Num.{Num}
use nvcuopt.Sparse.Matrix.{Csc, at, val, reallocate}
use nvcuopt.Sparse.Layout.{cols, segment, entry, width, IsLayout}
use nvcuopt.Sparse.Product.{Work, scatter, start_column, grow, multiply_column, multiply}
use nvcuopt.Sparse.Product.Collect.{collect, scaled, All-collect, All-scaled}
use nvcuopt.Sparse.Product.Scatter.{scatter_lem}
use nvcuopt.Sparse.Product.Filled.{Filled-reallocate}
use nvcuopt.Sparse.Product.Column.{
  scatter_all, Ready, Ready-length, Ready-column, Ready-start, Ready-loop,
}

module _ {F : Type 0} ⦃num : Num F⦄ where
  -- The columns of A that the entries of a column of B name, each times its value, in turn.
  abbrev pub products : Csc F → List (ℕ × F) → List (ℕ × F)
  products A [] = []
  products A ((k, b) ∷ l) = scaled b (segment (cols A) k) ++ products A l

  All-products :
      (A : Csc F) (l : List (ℕ × F))
      → IsLayout A.n A.m (cols A)
      → All (λ e. e.0 < A.n) l
      → All (λ e. e.0 < A.m) (products A l)
  All-products A [] hA h = tt
  All-products A ((k, b) ∷ l) hA h =
      All-append (λ (e : ℕ × F). e.0 < A.m) (scaled b (segment (cols A) k)) (products A l)
        (All-scaled A.m b (segment (cols A) k) (hA.bounded k h.0)) (All-products A l hA h.1)

  -- The loop over a column of B scatters the products.
  scatter-products :
      (A B : Csc F) (mark : ℕ) (ps : List ℕ) (s : Work F)
      → foldl (λ t p. scatter A (at B.i p) (val B.x p) mark t) s ps
        ≡ scatter_all mark (products A (map (entry (cols B)) ps)) s
  scatter-products A B mark [] s = refl
  scatter-products A B mark (p ∷ ps) s =
      scatter-products A B mark ps (scatter A (at B.i p) (val B.x p) mark s)
      ∙ ap (scatter_all mark (products A (map (entry (cols B)) ps)))
          (scatter_lem A (at B.i p) (val B.x p) mark s)
      ∙ sym (foldl-append _ s (scaled (val B.x p) (segment (cols A) (at B.i p))) _)

  -- Column j of the product.
  abbrev pub product : Csc F → Csc F → ℕ → List (ℕ × F)
  product A B j = collect [] (products A (segment (cols B) j))

  Ready-grow :
      (f : ℕ → List (ℕ × F)) (n m j : ℕ) (s : Work F)
      → Ready f n m j s
      → Ready f n m j (grow m s) × ((grow m s).nz + m ≤ (grow m s).C.nz_max)
  unfolding grow
  Ready-grow f n m j s h = elim (Bool-cases (ltb s.C.nz_max (s.nz + m))) [
    | inl short ↦
        let kept =
          Filled-reallocate f n j s.C s.nz (2 * s.C.nz_max + m) (omega (arith, h.filled.full))
            h.filled in
        rw short (
          record { filled = kept; low = h.low; sizes = h.sizes },
          unfold reallocate in omega (arith, h.filled.full),
        )
    | inr wide ↦ rw wide (h, ground arith)
  ]

  Ready-multiply_column :
      (A B : Csc F) (n j : ℕ) (s : Work F)
      → IsLayout A.n A.m (cols A)
      → All (λ e. e.0 < A.n) (segment (cols B) j)
      → j < n
      → Ready (product A B) n A.m j s
      → Ready (product A B) n A.m (suc j) (multiply_column A B j s)
  unfolding multiply_column
  Ready-multiply_column A B n j s hA hB lt h =
      let (ready, room) = Ready-grow (product A B) n A.m j s h in
      let es = products A (segment (cols B) j) in
      let rows = All-products A (segment (cols B) j) hA hB in
      let short = Ready-length (product A B) n A.m j es (grow A.m s) ready rows in
      rw
        (scatter-products A B (suc j) (span (at B.col_start j) (width (cols B) j))
          (start_column j (grow A.m s)))
        (Ready-column (product A B) n A.m j es (grow A.m s) ready lt rows refl (omega arith)).0

  -- For well-formed matrices A and B that fit and a target with one start for each column of B and
  -- one more, whatever else the target held, the result of `multiply` is well-formed, and its column
  -- j collects, row by row, the columns of A that column j of B names, times the values there.
  pub multiply-segment :
      (A B C : Csc F)
      → IsLayout A.n A.m (cols A)
      → IsLayout B.n A.n (cols B)
      → length C.col_start ≡ suc B.n
      → IsLayout B.n A.m (cols (multiply A B C))
        × ((j : ℕ) → j < B.n → segment (cols (multiply A B C)) j ≡ product A B j)
  unfolding multiply
  multiply-segment A B C hA hB size =
      Ready-loop (product A B) B.n A.m (multiply_column A B) _
        (λ j s lt h. Ready-multiply_column A B B.n j s hA (hB.bounded j lt) lt h)
        (λ j lt.
          All-collect A.m [] (products A (segment (cols B) j)) tt
            (All-products A (segment (cols B) j) hA (hB.bounded j lt)))
        (Ready-start (product A B) B.n A.m (A.nz_max + B.nz_max) C size)
