-- ===== src/Triangle.antt =====
-- The solves with triangular matrices of cpp/src/dual_simplex/triangle_solve.cpp:
-- `lower_triangular_solve`, `lower_triangular_transpose_solve`, `upper_triangular_solve` and
-- `upper_triangular_transpose_solve`. The status that they return is always 0 and is left out.
pub mod Lower
pub mod LowerSolve
pub mod Subtract
pub mod LowerTranspose
pub mod Upper
pub mod UpperTranspose
pub mod UpperRound
pub mod UpperSolve
mod Tests
use nvcuopt.Prelude.{ℕ, suc, ◌-◌, List, if◌then◌else◌, set, for_loop, for_down}
use nvcuopt.Prelude.Num.{Num}
use nvcuopt.Sparse.Matrix.{Csc, at, val}

module _ {F : Type 0} ⦃num : Num F⦄ where
  -- x[L.i[p]] -= L.x[p] * x[j];
  unfoldable pub subtract_entry : Csc F → ℕ → ℕ → List F → List F
  subtract_entry L j p x =
      let i = at L.i p in set x i (num.sub (val x i) (num.mul (val L.x p) (val x j)))

  -- One round of the outer loop.
  unfoldable pub solve_column : Csc F → ℕ → List F → List F
  unfolding subtract_entry
  solve_column L j x =
      let col_start = at L.col_start j in
      let col_end = at L.col_start (suc j) in
      let divided = set x j (num.div (val x j) (val L.x col_start)) in
      let solved = for_loop (suc col_start) col_end (subtract_entry L j) divided in
      if num.eq (val x j) num.nought then x else solved

  unfoldable pub lower_triangular_solve : Csc F → List F → List F
  unfolding solve_column
  lower_triangular_solve L x = for_loop 0 L.n (solve_column L) x

  -- One round of the outer loop for an upper triangular matrix.
  unfoldable pub solve_upper_column : Csc F → ℕ → List F → List F
  unfolding subtract_entry
  solve_upper_column U j x =
      let col_start = at U.col_start j in
      let col_end = at U.col_start (suc j) - 1 in
      let divided = set x j (num.div (val x j) (val U.x col_end)) in
      let solved = for_loop col_start col_end (subtract_entry U j) divided in
      if num.eq (val x j) num.nought then x else solved

  unfoldable pub upper_triangular_solve : Csc F → List F → List F
  unfolding solve_upper_column
  upper_triangular_solve U x = for_down U.n (solve_upper_column U) x

  -- x[j] -= L.x[p] * x[L.i[p]];
  unfoldable pub subtract_product : Csc F → ℕ → ℕ → List F → List F
  subtract_product L j p x = set x j (num.sub (val x j) (num.mul (val L.x p) (val x (at L.i p))))

  -- One round of the outer loop of the transposed solve.
  unfoldable pub solve_row : Csc F → ℕ → List F → List F
  unfolding subtract_product
  solve_row L j x =
      let diagonal = at L.col_start j in
      let col_end = at L.col_start (suc j) in
      let y = for_loop (suc diagonal) col_end (subtract_product L j) x in
      set y j (num.div (val y j) (val L.x diagonal))

  unfoldable pub lower_triangular_transpose_solve : Csc F → List F → List F
  unfolding solve_row
  lower_triangular_transpose_solve L x = for_down L.n (solve_row L) x

  -- One round of the outer loop for an upper triangular matrix.
  unfoldable pub solve_upper_row : Csc F → ℕ → List F → List F
  unfolding subtract_product
  solve_upper_row U j x =
      let col_start = at U.col_start j in
      let col_end = at U.col_start (suc j) - 1 in
      let y = for_loop col_start col_end (subtract_product U j) x in
      set y j (num.div (val y j) (val U.x col_end))

  unfoldable pub upper_triangular_transpose_solve : Csc F → List F → List F
  unfolding solve_upper_row
  upper_triangular_transpose_solve U x = for_loop 0 U.n (solve_upper_row U) x
