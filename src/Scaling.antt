-- ===== src/Scaling.antt =====
-- cpp/src/dual_simplex/scaling.cpp: the columns of a problem are divided by their norms, and a
-- solution of the scaled problem is carried back. `sqrt` is std::sqrt; the largest norm, which is
-- only printed, is left out.
mod Columns
mod Unscale
mod Tests
use nvcuopt.Prelude.{ℕ, suc, List, resize, set, length, for_loop, Bool, true, false, if◌then◌else◌}
use nvcuopt.Prelude.Num.{Num}
use nvcuopt.Sparse.Matrix.{Csc, at, val}
use nvcuopt.Presolve.Problem.{LpProblem}

module _ {F : Type 0} ⦃num : Num F⦄ where
  -- The norm of column j, or 1 for a column of zeros.
  unfoldable pub column_norm : (F → F) → Csc F → ℕ → F
  column_norm sqrt A j =
      let sum =
        for_loop (at A.col_start j) (at A.col_start (suc j))
          (λ p sum. num.add sum (num.mul (val A.x p) (val A.x p))) num.nought in
      if num.lt num.nought sum then sqrt sum else num.one

  -- The loop over the columns that divides the values.
  unfoldable pub scale_values : ℕ → Csc F → List F → List F
  scale_values n A scales =
      for_loop 0 n
        (λ j.
          for_loop (at A.col_start j) (at A.col_start (suc j))
            (λ p x. set x p (num.div (val x p) (val scales j))))
        A.x

  -- v[j] = v[j] / scales[j] for the first n entries.
  unfoldable pub divide_each : ℕ → List F → List F → List F
  divide_each n scales v = for_loop 0 n (λ j w. set w j (num.div (val w j) (val scales j))) v

  -- v[j] = v[j] * scales[j] for the first n entries.
  unfoldable pub multiply_each : ℕ → List F → List F → List F
  multiply_each n scales v = for_loop 0 n (λ j w. set w j (num.mul (val w j) (val scales j))) v

  -- The scaled problem and column_scaling; `scale_columns` is the setting.
  unfoldable pub column_scaling : (F → F) → Bool → LpProblem F → List F → LpProblem F × List F
  unfolding column_norm scale_values divide_each multiply_each
  column_scaling sqrt false unscaled scales = (unscaled, resize unscaled.num_cols num.one scales)
  column_scaling sqrt true unscaled scales =
      let n = unscaled.num_cols in
      let A = unscaled.A in
      let s = for_loop 0 n (λ j t. set t j (column_norm sqrt A j)) (resize n num.nought scales) in
      (
        record unscaled {
          A = record A { x = scale_values n A s };
          objective = divide_each n s unscaled.objective;
          lower = multiply_each n s unscaled.lower;
          upper = multiply_each n s unscaled.upper;
        },
        s,
      )

  -- The results are unscaled_x and unscaled_z.
  unfoldable pub unscale_solution : List F → List F → List F → List F → List F → List F × List F
  unscale_solution scales scaled_x scaled_z unscaled_x unscaled_z =
      let n = length scaled_x in
      for_loop 0 n
        (λ j (x, z). (
          set x j (num.div (val scaled_x j) (val scales j)),
          set z j (num.div (val scaled_z j) (val scales j)),
        ))
        (resize n num.nought unscaled_x, resize n num.nought unscaled_z)
