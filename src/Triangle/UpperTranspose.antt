-- ===== src/Triangle/UpperTranspose.antt =====
-- `upper_triangular_transpose_solve` of cpp/src/dual_simplex/triangle_solve.cpp solves the transposed
-- equations, for values that obey the laws of a field (numbers without rounding).
use mathlib.Core.List.{foldl-map}
use nvcuopt.Prelude.{
  ℕ, zero, suc, ◌+◌, ◌-◌, ◌≤◌, ◌<◌, ◌≡◌, ◌≢◌, refl, sym, subst, ap, ap₂, ◌∙◌, List, map, arith,
  ◌==◌, inl, inr, Bool-cases, length, length-set, get_or-set_self, get_or-set_ne, set, span,
  for_loop_inv,
}
use nvcuopt.Prelude.Num.{Num}
use nvcuopt.Sparse.Matrix.{Csc, at, val}
use nvcuopt.Sparse.Layout.{cols, segment, entry, width}
use nvcuopt.Sparse.Algebra.{coefficient, sum_below, weigh, weigh-sum_below}
use nvcuopt.Triangle.{subtract_product, solve_upper_row, upper_triangular_transpose_solve}
use nvcuopt.Triangle.Lower.{IsField}
use nvcuopt.Triangle.Upper.{IsUpper, init, init-All}
use nvcuopt.Triangle.Subtract.{subtract_all, weigh_congr, subtract_all-val}

module _ {F : Type 0} ⦃num : Num F⦄ where
  solve_upper_row-subtract_all :
      (U : Csc F) (j : ℕ) (x : List F)
      → solve_upper_row U j x
        ≡ set
            (subtract_all j (init U j) x)
            j
            (num.div (val (subtract_all j (init U j) x) j) (val U.x (at U.col_start (suc j) - 1)))
  unfolding solve_upper_row subtract_product
  solve_upper_row-subtract_all U j x =
      let start = at U.col_start j in
      let col_end = at U.col_start (suc j) - 1 in
      ap (λ y. set y j (num.div (val y j) (val U.x col_end)))
        (sym (
          foldl-map (entry (cols U))
            (λ (y : List F) (e : ℕ × F). set y j (num.sub (val y j) (num.mul e.1 (val y e.0))))
            (span start (col_end - start)) x))

module _ {F : Type 0} ⦃num : Num F⦄ (laws : IsField num) where
  -- The last entry of a run of entries comes first in the sum.
  weigh-last :
      (g : ℕ → F) (f : ℕ → ℕ × F) (lo k last : ℕ)
      → lo + k ≡ last
      → weigh g (map f (span lo (suc k)))
        ≡ num.add (num.mul (f last).1 (g (f last).0)) (weigh g (map f (span lo k)))
  weigh-last g f lo zero last e = let e' : last ≡ lo = omega arith in rw e' refl
  weigh-last g f lo (suc k) last e =
      let term = num.mul (f lo).1 (g (f lo).0) in
      let mine = num.mul (f last).1 (g (f last).0) in
      let w = weigh g (map f (span (suc lo) k)) in
      ap (num.add term) (weigh-last g f (suc lo) k last (omega arith))
      ∙ sym (laws.semiring.add_assoc term mine w)
      ∙ ap (λ a. num.add a w) (laws.semiring.add_comm term mine)
      ∙ laws.semiring.add_assoc mine term w

  weigh-column :
      (U : Csc F) (g : ℕ → F) (j : ℕ)
      → IsUpper U
      → j < U.n
      → weigh g (segment (cols U) j)
        ≡ num.add (num.mul (val U.x (at U.col_start (suc j) - 1)) (g j)) (weigh g (init U j))
  weigh-column U g j h lt =
      let start = at U.col_start j in
      let col_end = at U.col_start (suc j) - 1 in
      let wide : width (cols U) j ≡ suc (col_end - start) = omega (arith, h.nonempty j lt) in
      rw wide (
        weigh-last g (entry (cols U)) start (col_end - start) col_end
          (omega (arith, h.nonempty j lt))
        ∙ ap (λ i. num.add (num.mul (val U.x col_end) (g i)) (weigh g (init U j)))
            (h.diagonal j lt))

  -- The equations before row j hold, and the places from j on are still those of b.
  abbrev SolvedBefore : Csc F → List F → ℕ → List F → Type 0
  SolvedBefore U b j x =
      (length x ≡ U.n)
      × ((r : ℕ) → j ≤ r → val x r ≡ val b r)
      × ((i : ℕ) → i < j → i < U.n → weigh (val x) (segment (cols U) i) ≡ val b i)

  solve_upper_row-SolvedBefore :
      (U : Csc F) (b : List F) (j : ℕ) (x : List F)
      → IsUpper U
      → j < U.n
      → SolvedBefore U b j x
      → SolvedBefore U b (suc j) (solve_upper_row U j x)
  solve_upper_row-SolvedBefore U b j x h lt inv =
      let d = val U.x (at U.col_start (suc j) - 1) in
      let t = init U j in
      let (size, old, solved) = inv in
      let (len, kept, sums) =
        subtract_all-val laws (λ r. r < j) j U.n t x (init-All U j h lt) (λ r rj. omega arith) lt
          size in
      let z = subtract_all j t x in
      let u = num.div (val z j) d in
      let y = set z j u in
      let apart : (r : ℕ) → j ≢ r → val y r ≡ val x r =
        λ r ne. get_or-set_ne z j r u num.nought ne ∙ kept r ne in
      let mine : val y j ≡ u = get_or-set_self z j u num.nought (omega (arith, len)) in
      let columns : (i : ℕ) → i < suc j → i < U.n → weigh (val y) (segment (cols U) i) ≡ val b i =
        λ i le low. elim (Bool-cases (j == i)) [
          | inl hit ↦
              let e : j ≡ i = ground arith in
              subst (λ k. weigh (val y) (segment (cols U) k) ≡ val b k) e
                (weigh-column U (val y) j h lt
                  ∙ ap₂ num.add (ap (num.mul d) mine ∙ laws.mul_div (val z j) d (h.nonzero j lt)) (
                      weigh_congr (λ r. r < j) (val y) (val x) t (init-All U j h lt)
                        (λ r rj. apart r (omega arith)))
                  ∙ sums
                  ∙ old j (omega arith))
          | inr miss ↦
              let sooner : i < j = ground arith in
              weigh-column U (val y) i h low
              ∙ ap₂ num.add
                  (ap (num.mul (val U.x (at U.col_start (suc i) - 1))) (apart i (omega arith)))
                  (weigh_congr (λ r. r < i) (val y) (val x) (init U i) (init-All U i h low)
                    (λ r ri. apart r (omega arith)))
              ∙ sym (weigh-column U (val x) i h low)
              ∙ solved i sooner low
        ] in
      subst (SolvedBefore U b (suc j)) (sym (solve_upper_row-subtract_all U j x))
        (length-set z j u ∙ len, λ r low. apart r (omega arith) ∙ old r (omega arith), columns)

  -- For an upper triangular matrix, a right-hand side of its size and values that obey the laws of
  -- a field, the result of `upper_triangular_transpose_solve` solves the transposed equations: for
  -- every column the sum over r of the coefficient in row r times x[r] is the right-hand side.
  pub upper_triangular_transpose_solve-solves :
      (U : Csc F) (b : List F)
      → IsUpper U
      → length b ≡ U.n
      → let x = upper_triangular_transpose_solve U b in
        (length x ≡ U.n)
        × ((j : ℕ) → j < U.n → sum_below U.n (λ r. num.mul (coefficient U r j) (val x r)) ≡ val b j)
  unfolding upper_triangular_transpose_solve
  upper_triangular_transpose_solve-solves U b h size =
      let x = upper_triangular_transpose_solve U b in
      let (len, _, solved) =
        for_loop_inv (SolvedBefore U b) (solve_upper_row U) 0 U.n (omega arith)
          (λ j x le lt inv. solve_upper_row-SolvedBefore U b j x h lt inv) b
          (size, λ r lt. refl, λ i lt low. absurd (omega arith)) in
      (
        len,
        λ j lt.
            sym (
              weigh-sum_below laws.semiring (val x) U.n (segment (cols U) j)
                (h.layout.bounded j lt))
            ∙ solved j lt lt,
      )
