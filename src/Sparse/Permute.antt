-- ===== src/Sparse/Permute.antt =====
-- `permute_rows` and `permute_rows_and_cols` of cpp/src/dual_simplex/sparse_matrix.cpp. The status
-- that they return is always 0 and is left out.
pub mod Columns
pub mod Coeffs
use nvcuopt.Prelude.{ℕ, suc, List, for_loop}
use nvcuopt.Prelude.Num.{Num}
use nvcuopt.Sparse.Matrix.{Csc, at, val, reallocate}
use nvcuopt.Sparse.Build.{Built, open_segment, push}

module _ {F : Type 0} ⦃num : Num F⦄ where
  -- The entries of column j of A, each row index sent through pinv.
  unfoldable pub permute_column : List ℕ → Csc F → ℕ → Built F → Built F
  unfolding push
  permute_column pinv A j =
      for_loop (at A.col_start j) (at A.col_start (suc j))
        λ p. push (at pinv (at A.i p)) (val A.x p)

  unfoldable pub permute_rows : Csc F → List ℕ → Csc F → Csc F
  unfolding reallocate open_segment permute_column
  permute_rows A pinv C =
      let D = reallocate (at A.col_start A.n) C in
      let start : Built F = record { nz = 0; starts = D.col_start; index = D.i; value = D.x } in
      let s = for_loop 0 A.n (λ j s. permute_column pinv A j (open_segment j s)) start in
      record D { col_start = (open_segment A.n s).starts; i = s.index; x = s.value }

  unfoldable pub permute_rows_and_cols : Csc F → List ℕ → List ℕ → Csc F → Csc F
  unfolding reallocate open_segment permute_column
  permute_rows_and_cols A pinv q C =
      let D = reallocate (at A.col_start A.n) C in
      let start : Built F = record { nz = 0; starts = D.col_start; index = D.i; value = D.x } in
      let s = for_loop 0 A.n (λ k s. permute_column pinv A (at q k) (open_segment k s)) start in
      record D { col_start = (open_segment A.n s).starts; i = s.index; x = s.value }
