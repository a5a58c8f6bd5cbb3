-- ===== src/Triangle/LowerSolve.antt =====
-- `lower_triangular_solve` of cpp/src/dual_simplex/triangle_solve.cpp solves the equations, for values
-- that obey the laws of a field (numbers without rounding).
use mathlib.Core.List.{foldl-map}
use nvcuopt.Prelude.{
  ℕ, suc, ◌-◌, ◌<◌, ◌≡◌, refl, sym, subst, ap, ap₂, ◌∙◌, List, ◌∷◌, arith, ◌==◌, ltb, inl, inr,
  Bool-cases, true, false, if◌then◌else◌, length, length-set, get_or-set_self, get_or-set_ne, set,
  span, for_loop_inv,
}
use nvcuopt.Prelude.Num.{Num}
use nvcuopt.Sparse.Matrix.{Csc, at, val}
use nvcuopt.Sparse.Layout.{cols, entry}
use nvcuopt.Sparse.Algebra.{cell, coefficient, sum_below, sum_below_congr, add_nought}
use nvcuopt.Triangle.{subtract_entry, solve_column, lower_triangular_solve}
use nvcuopt.Triangle.Lower.{
  IsField, IsLower, tail, subtract, segment-tail, tail-All, cell_none, subtract-val,
}

module _ {F : Type 0} ⦃num : Num F⦄ (laws : IsField num) where
  -- What the columns before j contribute to row r, and what is still to be explained.
  abbrev Explained : Csc F → List F → ℕ → List F → Type 0
  Explained L b j x =
      (length x ≡ L.n)
      × ((r : ℕ)
          → r < L.n
          → num.add (if ltb r j then num.nought else val x r)
              (sum_below j (λ k. num.mul (coefficient L r k) (val x k)))
            ≡ val b r)

  solve_column-subtract :
      (L : Csc F) (j : ℕ) (x : List F)
      → solve_column L j x ≡ (
          if num.eq (val x j) num.nought
          then x
          else subtract j (tail L j) (set x j (num.div (val x j) (val L.x (at L.col_start j)))))
  unfolding solve_column subtract_entry
  solve_column-subtract L j x =
      let start = at L.col_start j in
      let ps = span (suc start) (at L.col_start (suc j) - suc start) in
      let divided = set x j (num.div (val x j) (val L.x start)) in
      ap (λ y. if num.eq (val x j) num.nought then x else y)
        (sym (
          foldl-map (entry (cols L))
            (λ (y : List F) (e : ℕ × F). set y e.0 (num.sub (val y e.0) (num.mul e.1 (val y j)))) ps
            divided))

  -- What a round leaves: the value at j times column j is what it took away.
  abbrev Round : Csc F → ℕ → List F → List F → Type 0
  Round L j x y =
      (length y ≡ L.n)
      × ((r : ℕ) → r < j → val y r ≡ val x r)
      × ((r : ℕ)
          → num.add (if ltb r (suc j) then num.nought else val y r)
              (num.mul (coefficient L r j) (val y j))
            ≡ (if ltb r j then num.nought else val x r))

  Round-skipped :
      (L : Csc F) (j : ℕ) (x : List F) → length x ≡ L.n → val x j ≡ num.nought → Round L j x x
  Round-skipped L j x size none = (
    size,
    λ r lt. refl,
    λ r.
        ap (num.add (if ltb r (suc j) then num.nought else val x r))
          (ap (num.mul (coefficient L r j)) none ∙ laws.semiring.mul_nought (coefficient L r j))
        ∙ add_nought laws.semiring (if ltb r (suc j) then num.nought else val x r)
        ∙ elim (Bool-cases (j == r)) [
          | inl hit ↦
              let e : j ≡ r = ground arith in
              let here : val x r ≡ num.nought = subst (λ t. val x t ≡ num.nought) e none in
              let low : ltb r (suc j) ≡ true = ground arith in
              let not_low : ltb r j ≡ false = ground arith in rw (low, not_low) (sym here)
          | inr miss ↦
              let same : ltb r (suc j) ≡ ltb r j = ground arith in
              ap (λ c. if c then num.nought else val x r) same
        ],
  )

  Round-solved :
      (L : Csc F) (j : ℕ) (x : List F)
      → IsLower L
      → j < L.n
      → length x ≡ L.n
      → Round L j x
          (subtract j (tail L j) (set x j (num.div (val x j) (val L.x (at L.col_start j)))))
  Round-solved L j x h lt size =
      let d = val L.x (at L.col_start j) in
      let u = num.div (val x j) d in
      let z = set x j u in
      let t = tail L j in
      let rows = tail-All L j h lt in
      let (len, kept, sums) =
        subtract-val laws (λ s. j < s) j L.n t z rows (λ s a. omega (arith, a))
          (length-set x j u ∙ size) in
      let y = subtract j t z in
      let at_j : val z j ≡ u = get_or-set_self x j u num.nought (omega (arith, size)) in
      let solved : val y j ≡ u = kept j (λ s a. omega (arith, a)) ∙ at_j in
      let coef : (r : ℕ) → coefficient L r j ≡ cell ((j, d) ∷ t) r =
        λ r. ap (λ l. cell l r) (segment-tail L j h lt) in
      (
        len,
        λ r below.
            kept r (λ s a. omega (arith, a)) ∙ get_or-set_ne x j r u num.nought (omega arith),
        λ r.
            ap₂ (λ a c. num.add (if ltb r (suc j) then num.nought else val y r) (num.mul a c))
              (coef r) solved
            ∙ elim (Bool-cases (ltb r j)) [
              | inl low ↦
                  let miss : j == r ≡ false = ground arith in
                  let low' : ltb r (suc j) ≡ true = ground arith in
                  rw
                    (
                      miss,
                      low,
                      low',
                      cell_none (λ s. j < s) r L.n t rows (λ s a. ground (arith, a)),
                    )
                    (laws.semiring.nought_add (num.mul num.nought u) ∙ laws.semiring.nought_mul u)
              | inr high ↦ elim (Bool-cases (j == r)) [
                | inl hit ↦
                    let e : j ≡ r = ground arith in
                    let low' : ltb r (suc j) ≡ true = ground arith in
                    rw
                      (
                        hit,
                        high,
                        low',
                        cell_none (λ s. j < s) r L.n t rows (λ s a. ground (arith, a)),
                      )
                      (laws.semiring.nought_add (num.mul (num.add d num.nought) u)
                        ∙ ap (λ a. num.mul a u) (add_nought laws.semiring d)
                        ∙ laws.mul_div (val x j) d (h.nonzero j lt)
                        ∙ ap (val x) e)
                | inr miss ↦
                    let high' : ltb r (suc j) ≡ false = ground arith in
                    rw (miss, high, high')
                      (ap (λ a. num.add (val y r) (num.mul (cell t r) a)) (sym at_j)
                        ∙ sums r
                        ∙ get_or-set_ne x j r u num.nought (ground arith))
              ]
            ],
      )

  solve_column-Round :
      (L : Csc F) (j : ℕ) (x : List F)
      → IsLower L
      → j < L.n
      → length x ≡ L.n
      → Round L j x (solve_column L j x)
  solve_column-Round L j x h lt size =
      subst (Round L j x) (sym (solve_column-subtract L j x))
        (elim (Bool-cases (num.eq (val x j) num.nought)) [
          | inl none ↦
              subst
                (λ c. Round L j x (
                  if c
                  then x
                  else subtract j (tail L j)
                      (set x j (num.div (val x j) (val L.x (at L.col_start j))))))
                (sym none)
                (Round-skipped L j x size (laws.semiring.eq_sound (val x j) num.nought none))
          | inr some ↦
              subst
                (λ c. Round L j x (
                  if c
                  then x
                  else subtract j (tail L j)
                      (set x j (num.div (val x j) (val L.x (at L.col_start j))))))
                (sym some) (Round-solved L j x h lt size)
        ])

  -- For a lower triangular matrix, a right-hand side of its size and values that obey the laws of a
  -- field, the result of `lower_triangular_solve` solves the equations: in every row the sum over j
  -- of the coefficient in column j times x[j] is the right-hand side.
  pub lower_triangular_solve-solves :
      (L : Csc F) (b : List F)
      → IsLower L
      → length b ≡ L.n
      → (length (lower_triangular_solve L b) ≡ L.n)
        × ((r : ℕ)
            → r < L.n
            → sum_below L.n (λ j. num.mul (coefficient L r j) (val (lower_triangular_solve L b) j))
              ≡ val b r)
  unfolding lower_triangular_solve
  lower_triangular_solve-solves L b h size =
      let end =
        for_loop_inv (Explained L b) (solve_column L) 0 L.n (omega arith)
          (λ j x _ lt inv.
            let (len, kept, round) = solve_column-Round L j x h lt inv.0 in
            let y = solve_column L j x in
            (
              len,
              λ r below.
                  let open_part = if ltb r (suc j) then num.nought else val y r in
                  let term = num.mul (coefficient L r j) (val y j) in
                  let sum = sum_below j (λ k. num.mul (coefficient L r k) (val x k)) in
                  ap (λ a. num.add open_part (num.add a term))
                    (sum_below_congr laws.semiring j _ _
                      (λ k lt. ap (num.mul (coefficient L r k)) (kept k lt)))
                  ∙ ap (num.add open_part) (laws.semiring.add_comm sum term)
                  ∙ sym (laws.semiring.add_assoc open_part term sum)
                  ∙ ap (λ a. num.add a sum) (round r)
                  ∙ inv.1 r below,
            ))
          b
          (
            size,
            λ r lt.
                let high : ltb r 0 ≡ false = ground arith in
                rw high (add_nought laws.semiring (val b r)),
          ) in
      let x = lower_triangular_solve L b in
      (
        end.0,
        λ r lt.
            let sum = sum_below L.n (λ j. num.mul (coefficient L r j) (val x j)) in
            let low : ltb r L.n ≡ true = ground arith in
            sym (laws.semiring.nought_add sum)
            ∙ subst (λ c. num.add (if c then num.nought else val x r) sum ≡ val b r) low
                (end.1 r lt),
      )
