-- ===== src/Triangle/UpperSolve.antt =====
-- `upper_triangular_solve` of cpp/src/dual_simplex/triangle_solve.cpp solves the equations, for values
-- that obey the laws of a field (numbers without rounding).
use nvcuopt.Prelude.{
  ℕ, suc, ◌<◌, ◌≡◌, refl, sym, subst, ap, ◌∙◌, List, arith, ◌==◌, ltb, inl, inr, Bool-cases, true,
  false, if◌then◌else◌, length, for_down_inv,
}
use nvcuopt.Prelude.Num.{Num}
use nvcuopt.Sparse.Matrix.{Csc, val}
use nvcuopt.Sparse.Algebra.{
  coefficient, sum_below, sum_below_congr, sum_below_nought, sum_below-add, sum_below_single,
  add_nought,
}
use nvcuopt.Triangle.{solve_upper_column, upper_triangular_solve}
use nvcuopt.Triangle.Lower.{IsField}
use nvcuopt.Triangle.UpperRound.{solve_upper_column-Round}
use nvcuopt.Triangle.Upper.{IsUpper}

module _ {F : Type 0} ⦃num : Num F⦄ (laws : IsField num) where
  -- What the columns from j on contribute to row r, and what is still to be explained.
  abbrev Explained : Csc F → List F → ℕ → List F → Type 0
  Explained U b j x =
      (length x ≡ U.n)
      × ((r : ℕ)
          → r < U.n
          → num.add (if ltb r j then val x r else num.nought) (
              sum_below U.n
                (λ k. if ltb k j then num.nought else num.mul (coefficient U r k) (val x k)))
            ≡ val b r)

  -- The sum gains the term of column j.
  sum_from :
      (n j : ℕ) (g f : ℕ → F)
      → j < n
      → ((k : ℕ) → j < k → g k ≡ f k)
      → sum_below n (λ k. if ltb k j then num.nought else g k)
        ≡ num.add (g j) (sum_below n (λ k. if ltb k (suc j) then num.nought else f k))
  sum_from n j g f lt same =
      let old : ℕ → F = λ k. if ltb k (suc j) then num.nought else f k in
      let mine : ℕ → F = λ k. if j == k then g j else num.nought in
      sum_below_congr laws.semiring n _ (λ k. num.add (mine k) (old k))
        (λ k _. elim (Bool-cases (j == k)) [
          | inl hit ↦
              let e : j ≡ k = ground arith in
              let high : ltb k j ≡ false = ground arith in
              let low : ltb k (suc j) ≡ true = ground arith in
              rw (hit, high, low) (ap g (sym e) ∙ sym (add_nought laws.semiring (g j)))
          | inr miss ↦ elim (Bool-cases (ltb k j)) [
            | inl low ↦
                let low' : ltb k (suc j) ≡ true = ground arith in
                rw (miss, low, low') (sym (laws.semiring.nought_add num.nought))
            | inr high ↦
                let high' : ltb k (suc j) ≡ false = ground arith in
                rw (miss, high, high')
                  (same k (ground arith) ∙ sym (laws.semiring.nought_add (f k)))
          ]
        ])
      ∙ sum_below-add laws.semiring n mine old
      ∙ ap (λ a. num.add a (sum_below n old)) (sum_below_single laws.semiring n j (g j) lt)

  solve_upper_column-Explained :
      (U : Csc F) (b : List F) (j : ℕ) (x : List F)
      → IsUpper U
      → j < U.n
      → Explained U b (suc j) x
      → Explained U b j (solve_upper_column U j x)
  solve_upper_column-Explained U b j x h lt (size, total) =
      let y = solve_upper_column U j x in
      let (len, kept, round) = solve_upper_column-Round laws U j x h lt size in
      (
        len,
        λ r below.
            let open_part = if ltb r j then val y r else num.nought in
            let term = num.mul (coefficient U r j) (val y j) in
            let sum =
              sum_below U.n (λ k.
                if ltb k (suc j) then num.nought else num.mul (coefficient U r k) (val x k)) in
            ap (num.add open_part) (
              sum_from U.n j (λ k. num.mul (coefficient U r k) (val y k))
                (λ k. num.mul (coefficient U r k) (val x k)) lt
                (λ k above. ap (num.mul (coefficient U r k)) (kept k above)))
            ∙ sym (laws.semiring.add_assoc open_part term sum)
            ∙ ap (λ a. num.add a sum) (round r)
            ∙ total r below,
      )

  -- For an upper triangular matrix, a right-hand side of its size and values that obey the laws of
  -- a field, the result of `upper_triangular_solve` solves the equations: in every row the sum over
  -- j of the coefficient in column j times x[j] is the right-hand side.
  pub upper_triangular_solve-solves :
      (U : Csc F) (b : List F)
      → IsUpper U
      → length b ≡ U.n
      → (length (upper_triangular_solve U b) ≡ U.n)
        × ((r : ℕ)
            → r < U.n
            → sum_below U.n (λ j. num.mul (coefficient U r j) (val (upper_triangular_solve U b) j))
              ≡ val b r)
  unfolding upper_triangular_solve
  upper_triangular_solve-solves U b h size =
      let end =
        for_down_inv (Explained U b) (solve_upper_column U) U.n
          (λ j x lt inv. solve_upper_column-Explained U b j x h lt inv) b
          (
            size,
            λ r lt.
                let low : ltb r U.n ≡ true = ground arith in
                rw low (
                  ap (num.add (val b r)) (
                    sum_below_nought laws.semiring U.n _
                      (λ k below. let inside : ltb k U.n ≡ true = ground arith in rw inside refl))
                  ∙ add_nought laws.semiring (val b r)),
          ) in
      let x = upper_triangular_solve U b in
      (
        end.0,
        λ r lt.
            let high : ltb r 0 ≡ false = ground arith in
            let sum = sum_below U.n (λ j. num.mul (coefficient U r j) (val x j)) in
            sym (laws.semiring.nought_add sum)
            ∙ ap (num.add num.nought) (
                sum_below_congr laws.semiring U.n _ _
                  (λ k below. let all : ltb k 0 ≡ false = ground arith in rw all refl))
            ∙ subst
                (λ c.
                  num.add (if c then val x r else num.nought) (
                    sum_below U.n
                      (λ k. if ltb k 0 then num.nought else num.mul (coefficient U r k) (val x k)))
                  ≡ val b r)
                high (end.1 r lt),
      )
