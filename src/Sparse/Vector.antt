-- ===== src/Sparse/Vector.antt =====
-- `matrix_vector_multiply` and `matrix_transpose_vector_multiply` of
-- cpp/src/dual_simplex/sparse_matrix.cpp. The status that they return is always 0 and is left out.
pub mod Accumulate
pub mod Multiply
use nvcuopt.Prelude.{ℕ, suc, List, if◌then◌else◌, set, for_loop}
use nvcuopt.Prelude.Num.{Num}
use nvcuopt.Sparse.Matrix.{Csc, at, val}

module _ {F : Type 0} ⦃num : Num F⦄ where
  -- if (beta != 1.0) for (i = 0; i < n; ++i) y[i] *= beta;
  unfoldable pub scale_vector : ℕ → F → List F → List F
  scale_vector n beta y =
      if num.eq beta num.one then y else for_loop 0 n (λ i z. set z i (num.mul (val z i) beta)) y

  -- One round of the loop over the columns in `matrix_vector_multiply`.
  unfoldable pub add_column_times : Csc F → F → List F → ℕ → List F → List F
  add_column_times A alpha x j y =
      for_loop (at A.col_start j) (at A.col_start (suc j))
        (λ p z.
          let i = at A.i p in
          set z i (num.add (val z i) (num.mul (num.mul alpha (val A.x p)) (val x j))))
        y

  -- y <- alpha*A*x + beta*y
  unfoldable pub matrix_vector_multiply : Csc F → F → List F → F → List F → List F
  unfolding scale_vector add_column_times
  matrix_vector_multiply A alpha x beta y =
      for_loop 0 A.n (add_column_times A alpha x) (scale_vector A.m beta y)

  -- The product of column j of A with x.
  unfoldable pub column_dot : Csc F → List F → ℕ → F
  column_dot A x j =
      for_loop (at A.col_start j) (at A.col_start (suc j))
        (λ p dot. num.add dot (num.mul (val A.x p) (val x (at A.i p)))) num.nought

  -- y <- alpha*A'*x + beta*y
  unfoldable pub matrix_transpose_vector_multiply : Csc F → F → List F → F → List F → List F
  unfolding scale_vector column_dot
  matrix_transpose_vector_multiply A alpha x beta y =
      for_loop 0 A.n (λ j z. set z j (num.add (val z j) (num.mul alpha (column_dot A x j))))
        (scale_vector A.n beta y)
