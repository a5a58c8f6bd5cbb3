-- ===== src/Sparse/Convert.antt =====
-- The conversions between triplets, columns and rows of cpp/src/dual_simplex/sparse_matrix.cpp:
-- `coo_to_csc`, `to_compressed_row`, `to_compressed_col`, `transpose` and `load_a_column`. The
-- status that each returns is always 0 and is left out; what a call writes through a reference is
-- its result.
pub mod Grouped
pub mod Coeffs
pub mod Correct
pub mod RoundTrip
use nvcuopt.Prelude.{
  ℕ, suc, ◌-◌, List, ltb, if◌then◌else◌, length, set, resize, replicate, for_loop,
}
use nvcuopt.Prelude.Num.{Num}
use nvcuopt.Sparse.Matrix.{Csc, Csr, at, val, Placed, place, count_keys, cumulative_sum, reallocate}

module _ {F : Type 0} ⦃num : Num F⦄ where
  unfoldable pub coo_to_csc : List ℕ → List ℕ → List F → Csc F → Csc F
  unfolding count_keys cumulative_sum place reallocate
  coo_to_csc Ai Aj Ax C =
      let A = if ltb C.nz_max (length Ai) then reallocate (length Ai) C else C in
      let nz = length Aj in
      let sums = cumulative_sum (count_keys nz Aj (replicate A.n 0)) A.col_start in
      let placed =
        for_loop 0 nz (λ k s. place (at Aj k) (at Ai k) (val Ax k) s)
          (record { workspace = sums.inout; index = A.i; value = A.x }) in
      record A { col_start = sums.output; i = placed.index; x = placed.value }

  -- The loops over the columns of A that place its entries by row.
  unfoldable pub place_columns : Csc F → Placed F → Placed F
  unfolding place
  place_columns A =
      for_loop 0 A.n λ j.
        for_loop (at A.col_start j) (at A.col_start (suc j)) λ p. place (at A.i p) j (val A.x p)

  unfoldable pub to_compressed_row : Csc F → Csr F → Csr F
  unfolding count_keys cumulative_sum place_columns
  to_compressed_row A Arow =
      let nz = at A.col_start A.n in
      let sums =
        cumulative_sum (count_keys nz A.i (replicate A.m 0)) (resize (suc A.m) 0 Arow.row_start) in
      let placed = place_columns A (record {
        workspace = sums.inout;
        index = resize nz 0 Arow.j;
        value = resize nz num.nought Arow.x;
      }) in
      record Arow { m = A.m; n = A.n; row_start = sums.output; j = placed.index; x = placed.value }

  -- The loops over the rows of A that place its entries by column.
  unfoldable pub place_rows : Csr F → Placed F → Placed F
  unfolding place
  place_rows A =
      for_loop 0 A.m λ i.
        for_loop (at A.row_start i) (at A.row_start (suc i)) λ p. place (at A.j p) i (val A.x p)

  unfoldable pub to_compressed_col : Csr F → Csc F → Csc F
  unfolding count_keys cumulative_sum place_rows
  to_compressed_col A Acol =
      let nz = at A.row_start A.m in
      let sums =
        cumulative_sum (count_keys nz A.j (replicate A.n 0)) (resize (suc A.n) 0 Acol.col_start) in
      let placed = place_rows A (record {
        workspace = sums.inout;
        index = resize nz 0 Acol.i;
        value = resize nz num.nought Acol.x;
      }) in
      record Acol { m = A.m; n = A.n; col_start = sums.output; i = placed.index; x = placed.value }

  unfoldable pub transpose : Csc F → Csc F → Csc F
  unfolding count_keys cumulative_sum place_columns reallocate
  transpose A AT =
      let nz = at A.col_start A.n in
      let B =
        reallocate nz
          (record AT { m = A.n; n = A.m; col_start = resize (suc A.m) 0 AT.col_start }) in
      let sums = cumulative_sum (count_keys nz A.i (replicate A.m 0)) B.col_start in
      let placed = place_columns A (record { workspace = sums.inout; index = B.i; value = B.x }) in
      record B { col_start = sums.output; i = placed.index; x = placed.value }

  -- The column j of A written into a dense vector, and the number of its entries.
  unfoldable pub load_a_column : Csc F → ℕ → List F → ℕ × List F
  load_a_column A j Aj =
      let col_start = at A.col_start j in
      let col_end = at A.col_start (suc j) in
      (col_end - col_start, for_loop col_start col_end (λ p w. set w (at A.i p) (val A.x p)) Aj)
