-- ===== src/Sparse/Convert/Correct.antt =====
-- What the conversions of cpp/src/dual_simplex/sparse_matrix.cpp keep of a matrix.
use nvcuopt.Prelude.{ℕ, ◌<◌, ◌≡◌}
use nvcuopt.Prelude.Num.{Num}
use nvcuopt.Sparse.Matrix.{Csc, Csr}
use nvcuopt.Sparse.Layout.{cols, rows, IsLayout}
use nvcuopt.Sparse.Convert.{to_compressed_row, to_compressed_col, transpose}
use nvcuopt.Sparse.Convert.Grouped.{
  to_compressed_row-IsGrouped, to_compressed_col-IsGrouped, transpose-IsGrouped,
}
use nvcuopt.Sparse.Convert.Coeffs.{coeffs, IsGrouped-coeffs, IsGrouped-IsLayout}

module _ {F : Type 0} ⦃num : Num F⦄ where
  -- For a well-formed matrix in compressed columns, whatever the target held before,
  -- `to_compressed_row` gives a well-formed matrix in compressed rows, and row r holds at column j
  -- the values that column j held at row r, duplicates included and in their order.
  pub to_compressed_row-coeffs :
      (A : Csc F) (Arow : Csr F)
      → IsLayout A.n A.m (cols A)
      → IsLayout A.m A.n (rows (to_compressed_row A Arow))
        × ((r j : ℕ)
            → r < A.m
            → j < A.n
            → coeffs (rows (to_compressed_row A Arow)) r j ≡ coeffs (cols A) j r)
  to_compressed_row-coeffs A Arow h =
      let grouped = to_compressed_row-IsGrouped A Arow h in
      (IsGrouped-IsLayout A.n A.m (cols A) _ grouped, IsGrouped-coeffs A.n A.m (cols A) _ grouped)

  -- For a well-formed matrix in compressed rows, whatever the target held before,
  -- `to_compressed_col` gives a well-formed matrix in compressed columns, and column j holds at row
  -- r the values that row r held at column j, duplicates included and in their order.
  pub to_compressed_col-coeffs :
      (A : Csr F) (Acol : Csc F)
      → IsLayout A.m A.n (rows A)
      → IsLayout A.n A.m (cols (to_compressed_col A Acol))
        × ((j r : ℕ)
            → j < A.n
            → r < A.m
            → coeffs (cols (to_compressed_col A Acol)) j r ≡ coeffs (rows A) r j)
  to_compressed_col-coeffs A Acol h =
      let grouped = to_compressed_col-IsGrouped A Acol h in
      (IsGrouped-IsLayout A.m A.n (rows A) _ grouped, IsGrouped-coeffs A.m A.n (rows A) _ grouped)

  -- For a well-formed matrix, whatever the target held before, `transpose` gives a well-formed
  -- matrix whose column r holds at row j the values that column j held at row r, duplicates
  -- included and in their order.
  pub transpose-coeffs :
      (A AT : Csc F)
      → IsLayout A.n A.m (cols A)
      → IsLayout A.m A.n (cols (transpose A AT))
        × ((r j : ℕ) → r < A.m → j < A.n → coeffs (cols (transpose A AT)) r j ≡ coeffs (cols A) j r)
  transpose-coeffs A AT h =
      let grouped = transpose-IsGrouped A AT h in
      (IsGrouped-IsLayout A.n A.m (cols A) _ grouped, IsGrouped-coeffs A.n A.m (cols A) _ grouped)
