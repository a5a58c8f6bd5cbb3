-- ===== src/Triangle/LowerTranspose.antt =====
-- `lower_triangular_transpose_solve` of cpp/src/dual_simplex/triangle_solve.cpp solves the transposed
-- equations, for values that obey the laws of a field (numbers without rounding).
use mathlib.Core.List.{foldl-map}
use nvcuopt.Prelude.{
  ℕ, suc, ◌-◌, ◌≤◌, ◌<◌, ◌≡◌, ◌≢◌, refl, sym, subst, ap, ap₂, ◌∙◌, List, arith, ◌==◌, inl, inr,
  Bool-cases, length, length-set, get_or-set_self, get_or-set_ne, set, span, for_down_inv,
}
use nvcuopt.Prelude.Num.{Num}
use nvcuopt.Sparse.Matrix.{Csc, at, val}
use nvcuopt.Sparse.Layout.{cols, segment, entry}
use nvcuopt.Sparse.Algebra.{coefficient, sum_below, weigh, weigh-sum_below}
use nvcuopt.Triangle.{subtract_product, solve_row, lower_triangular_transpose_solve}
use nvcuopt.Triangle.Lower.{IsField, IsLower, tail, segment-tail, tail-All}
use nvcuopt.Triangle.Subtract.{subtract_all, weigh_congr, subtract_all-val}

module _ {F : Type 0} ⦃num : Num F⦄ where
  solve_row-subtract_all :
      (L : Csc F) (j : ℕ) (x : List F)
      → solve_row L j x
        ≡ set
            (subtract_all j (tail L j) x)
            j
            (num.div (val (subtract_all j (tail L j) x) j) (val L.x (at L.col_start j)))
  unfolding solve_row subtract_product
  solve_row-subtract_all L j x =
      let start = at L.col_start j in
      let ps = span (suc start) (at L.col_start (suc j) - suc start) in
      ap (λ y. set y j (num.div (val y j) (val L.x start)))
        (sym (
          foldl-map (entry (cols L))
            (λ (y : List F) (e : ℕ × F). set y j (num.sub (val y j) (num.mul e.1 (val y e.0)))) ps
            x))

module _ {F : Type 0} ⦃num : Num F⦄ (laws : IsField num) where
  -- The equations from row j on hold, and the places before j are still those of b.
  abbrev SolvedFrom : Csc F → List F → ℕ → List F → Type 0
  SolvedFrom L b j x =
      (length x ≡ L.n)
      × ((r : ℕ) → r < j → val x r ≡ val b r)
      × ((i : ℕ) → j ≤ i → i < L.n → weigh (val x) (segment (cols L) i) ≡ val b i)

  solve_row-SolvedFrom :
      (L : Csc F) (b : List F) (j : ℕ) (x : List F)
      → IsLower L
      → j < L.n
      → SolvedFrom L b (suc j) x
      → SolvedFrom L b j (solve_row L j x)
  solve_row-SolvedFrom L b j x h lt inv =
      let d = val L.x (at L.col_start j) in
      let t = tail L j in
      let (size, old, solved) = inv in
      let (len, kept, sums) =
        subtract_all-val laws (λ r. (j < r) × (r < L.n)) j L.n t x (tail-All L j h lt)
          (λ r jr. omega (arith, jr.0)) lt size in
      let z = subtract_all j t x in
      let u = num.div (val z j) d in
      let y = set z j u in
      let apart : (r : ℕ) → j ≢ r → val y r ≡ val x r =
        λ r ne. get_or-set_ne z j r u num.nought ne ∙ kept r ne in
      let mine : val y j ≡ u = get_or-set_self z j u num.nought (omega (arith, len)) in
      let columns : (i : ℕ) → j ≤ i → i < L.n → weigh (val y) (segment (cols L) i) ≡ val b i =
        λ i le low. elim (Bool-cases (j == i)) [
          | inl hit ↦
              let e : j ≡ i = ground arith in
              subst (λ k. weigh (val y) (segment (cols L) k) ≡ val b k) e
                (ap (weigh (val y)) (segment-tail L j h lt)
                  ∙ ap₂ num.add (ap (num.mul d) mine ∙ laws.mul_div (val z j) d (h.nonzero j lt)) (
                      weigh_congr (λ r. (j < r) × (r < L.n)) (val y) (val x) t (tail-All L j h lt)
                        (λ r jr. apart r (omega (arith, jr.0))))
                  ∙ sums
                  ∙ old j (omega arith))
          | inr miss ↦
              let later : j < i = ground arith in
              ap (weigh (val y)) (segment-tail L i h low)
              ∙ ap₂ num.add (ap (num.mul (val L.x (at L.col_start i))) (apart i (omega arith))) (
                  weigh_congr (λ r. (i < r) × (r < L.n)) (val y) (val x) (tail L i)
                    (tail-All L i h low) (λ r ir. apart r (omega (arith, ir.0))))
              ∙ ap (weigh (val x)) (sym (segment-tail L i h low))
              ∙ solved i later low
        ] in
      subst (SolvedFrom L b j) (sym (solve_row-subtract_all L j x))
        (length-set z j u ∙ len, λ r low. apart r (omega arith) ∙ old r (omega arith), columns)

  -- For a lower triangular matrix, a right-hand side of its size and values that obey the laws of a
  -- field, the result of `lower_triangular_transpose_solve` solves the transposed equations: for
  -- every column the sum over r of the coefficient in row r times x[r] is the right-hand side.
  pub lower_triangular_transpose_solve-solves :
      (L : Csc F) (b : List F)
      → IsLower L
      → length b ≡ L.n
      → let x = lower_triangular_transpose_solve L b in
        (length x ≡ L.n)
        × ((j : ℕ) → j < L.n → sum_below L.n (λ r. num.mul (coefficient L r j) (val x r)) ≡ val b j)
  unfolding lower_triangular_transpose_solve
  lower_triangular_transpose_solve-solves L b h size =
      let x = lower_triangular_transpose_solve L b in
      let (len, _, solved) =
        for_down_inv (SolvedFrom L b) (solve_row L) L.n
          (λ j x lt inv. solve_row-SolvedFrom L b j x h lt inv) b
          (size, λ r lt. refl, λ i le lt. absurd (omega arith)) in
      (
        len,
        λ j lt.
            sym (
              weigh-sum_below laws.semiring (val x) L.n (segment (cols L) j)
                (h.layout.bounded j lt))
            ∙ solved j (omega arith) lt,
      )
