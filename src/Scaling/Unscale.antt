-- ===== src/Scaling/Unscale.antt =====
-- `unscale_solution` of cpp/src/dual_simplex/scaling.cpp after `column_scaling`, for values without
-- rounding.
use nvcuopt.Prelude.{
  ℕ, suc, ◌≤◌, ◌<◌, ◌≡◌, ◌≢◌, sym, subst, ap, ap₂, ◌∙◌, List, [], ◌∷◌, map, arith, ◌==◌, inl, inr,
  Bool-cases, true, length, length-set, length-resize, resize, set, get_or-set_self, get_or-set_ne,
  for_loop_inv,
}
use nvcuopt.Prelude.Num.{Num}
use nvcuopt.Sparse.Matrix.{val}
use nvcuopt.Sparse.Layout.{cols, segment}
use nvcuopt.Sparse.Algebra.{IsSemiring, cell, sum_below, sum_below_congr}
use nvcuopt.Presolve.Problem.{LpProblem}
use nvcuopt.Presolve.Greater.{IsProblem}
use nvcuopt.Presolve.Activity.{activity}
use nvcuopt.Presolve.Marking.{objective_at}
use nvcuopt.Scaling.{column_norm, column_scaling, unscale_solution}
use nvcuopt.Scaling.Columns.{divided_entry, column_norm-norm_of, column_scaling-Scales}

-- Values that add and multiply without rounding, where a divisor can be moved in a product.
pub record IsExact {F : Type 0} (num : Num F) : Type 0 where
  pub semiring : IsSemiring num
  pub div_mul : (a s v : F) → s ≢ num.nought → num.mul (num.div a s) v ≡ num.mul a (num.div v s)

module _ {F : Type 0} ⦃num : Num F⦄ where
  -- The first k entries of both vectors are divided.
  record Unscaled (scales v w : List F) (n k : ℕ) (t : List F × List F) : Type 0 where
    x_size : length t.0 ≡ n
    z_size : length t.1 ≡ n
    x_done : (j : ℕ) → j < k → val t.0 j ≡ num.div (val v j) (val scales j)
    z_done : (j : ℕ) → j < k → val t.1 j ≡ num.div (val w j) (val scales j)

  set_done :
      (n k : ℕ) (f : ℕ → F) (x : List F)
      → length x ≡ n
      → k < n
      → ((j : ℕ) → j < k → val x j ≡ f j)
      → (j : ℕ) → j < suc k
      → val (set x k (f k)) j ≡ f j
  set_done n k f x size lt done j below = elim (Bool-cases (k == j)) [
    | inl hit ↦
        let e : k ≡ j = ground arith in
        subst (λ i. val (set x k (f k)) i ≡ f i) e
          (get_or-set_self x k (f k) num.nought (omega (arith, size)))
    | inr miss ↦ get_or-set_ne x k j (f k) num.nought (ground arith) ∙ done j (ground arith)
  ]

  unscale_solution-Unscaled :
      (scales v w x0 z0 : List F)
      → Unscaled scales v w (length v) (length v) (unscale_solution scales v w x0 z0)
  unfolding unscale_solution
  unscale_solution-Unscaled scales v w x0 z0 =
      let n = length v in
      for_loop_inv (Unscaled scales v w n)
        (λ j t. (
          set t.0 j (num.div (val v j) (val scales j)),
          set t.1 j (num.div (val w j) (val scales j)),
        ))
        0 n (omega arith)
        (λ k t from lt inv. record {
          x_size = length-set t.0 k _ ∙ inv.x_size;
          z_size = length-set t.1 k _ ∙ inv.z_size;
          x_done =
              set_done n k (λ j. num.div (val v j) (val scales j)) t.0 inv.x_size lt inv.x_done;
          z_done =
              set_done n k (λ j. num.div (val w j) (val scales j)) t.1 inv.z_size lt inv.z_done;
        })
        (resize n num.nought x0, resize n num.nought z0)
        (record {
          x_size = length-resize n num.nought x0;
          z_size = length-resize n num.nought z0;
          x_done = λ j lt. absurd (omega arith);
          z_done = λ j lt. absurd (omega arith);
        })

module _ {F : Type 0} ⦃num : Num F⦄ (exact : IsExact num) where
  -- A coefficient of the scaled matrix times a value is the coefficient times the divided value.
  cell-divided :
      (s v : F) (r : ℕ) (l : List (ℕ × F))
      → s ≢ num.nought
      → num.mul (cell (map (divided_entry s) l) r) v ≡ num.mul (cell l r) (num.div v s)
  cell-divided s v r [] ne =
      exact.semiring.nought_mul v ∙ sym (exact.semiring.nought_mul (num.div v s))
  cell-divided s v r ((c, b) ∷ l) ne = elim (Bool-cases (c == r)) [
    | inl hit ↦ rw hit (
        exact.semiring.add_mul (num.div b s) (cell (map (divided_entry s) l) r) v
        ∙ ap₂ num.add (exact.div_mul b s v ne) (cell-divided s v r l ne)
        ∙ sym (exact.semiring.add_mul b (cell l r) (num.div v s)))
    | inr miss ↦ rw miss (cell-divided s v r l ne)
  ]

  -- With scale_columns on, for values without rounding (a semiring in which a divisor that is not 0
  -- can be moved in a product), a well-formed problem with costs and bounds for all its columns,
  -- column norms that are not 0 and a value for each column: the point that `unscale_solution` makes of a
  -- point of the problem that `column_scaling` made has the same row activities and the same
  -- objective in the original problem as the scaled point has in the scaled problem.
  pub unscale_solution-column_scaling :
      (sqrt : F → F) (P : LpProblem F) (scales v w x0 z0 : List F)
      → IsProblem P
      → P.num_cols ≤ length P.objective
      → P.num_cols ≤ length P.lower
      → P.num_cols ≤ length P.upper
      → length v ≡ P.num_cols
      → ((j : ℕ) → j < P.num_cols → column_norm sqrt P.A j ≢ num.nought)
      → let (R, s) = column_scaling sqrt true P scales in
        let (x, z) = unscale_solution s v w x0 z0 in
        ((r : ℕ) → activity P (val x) r ≡ activity R (val v) r)
        × (objective_at P (val x) ≡ objective_at R (val v))
  unscale_solution-column_scaling sqrt P scales v w x0 z0 h costs lows highs size nonzero =
      let n = P.num_cols in
      let (R, s) = column_scaling sqrt true P scales in
      let made = column_scaling-Scales sqrt P scales h costs lows highs in
      let point = unscale_solution-Unscaled s v w x0 z0 in
      let x = (unscale_solution s v w x0 z0).0 in
      let divided : (j : ℕ) → j < n → val x j ≡ num.div (val v j) (val s j) =
        λ j lt. point.x_done j (subst (λ k. j < k) (sym size) lt) in
      let norm : (j : ℕ) → j < n → val s j ≢ num.nought =
        λ j lt e. nonzero j lt (column_norm-norm_of sqrt P.A j ∙ sym (made.scale j lt) ∙ e) in
      (
        λ r.
            sum_below_congr exact.semiring n _ _ (λ j lt.
              ap (num.mul (cell (segment (cols P.A) j) r)) (divided j lt)
              ∙ sym (cell-divided (val s j) (val v j) r (segment (cols P.A) j) (norm j lt))
              ∙ ap (λ l. num.mul (cell l r) (val v j)) (sym (made.column j lt)))
            ∙ ap (λ k. sum_below k (λ j. num.mul (cell (segment (cols R.A) j) r) (val v j)))
                (sym made.columns),
        ap₂ num.add (sym made.constant) (
            sum_below_congr exact.semiring n _ _ (λ j lt.
              ap (num.mul (val P.objective j)) (divided j lt)
              ∙ sym (exact.div_mul (val P.objective j) (val s j) (val v j) (norm j lt))
              ∙ ap (λ c. num.mul c (val v j)) (sym (made.cost j lt)))
            ∙ ap (λ k. sum_below k (λ j. num.mul (val R.objective j) (val v j)))
                (sym made.columns)),
      )
