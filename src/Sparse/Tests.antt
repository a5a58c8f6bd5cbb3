-- ===== src/Sparse/Tests.antt =====
-- Runs of cpp/src/dual_simplex/sparse_matrix.cpp on small matrices.
use nvcuopt.Prelude.{ℕ, ◌<◌, ◌≤◌, ◌≡◌, refl, [], ◌∷◌, arith, suc, All, All-span}
use nvcuopt.Prelude.Num.{nat_num}
use nvcuopt.Sparse.Matrix.{Csc, Csr, at}
use nvcuopt.Sparse.Layout.{cols, rows, segment, IsLayout}
use nvcuopt.Sparse.Group.{IsGrouped}
use nvcuopt.Sparse.Norm.{column_sum, raise, norm1}
use nvcuopt.Sparse.Convert.{to_compressed_row, to_compressed_col, transpose, coo_to_csc}
use nvcuopt.Sparse.Convert.Grouped.{triplets, coo_to_csc-IsGrouped}
use nvcuopt.Sparse.Convert.Coeffs.{coeffs}
use nvcuopt.Sparse.Convert.Correct.{
  to_compressed_row-coeffs, to_compressed_col-coeffs, transpose-coeffs,
}
use nvcuopt.Sparse.Convert.RoundTrip.{
  IsSorted, to_compressed_col-to_compressed_row, transpose-transpose,
}

-- [ 10  0 12 ]
-- [  0 21  0 ], by columns.
abbrev sample : Csc ℕ
sample = record {
  nz_max = 3;
  m = 2;
  n = 3;
  col_start = 0 ∷ 1 ∷ 2 ∷ 3 ∷ [];
  i = 0 ∷ 1 ∷ 0 ∷ [];
  x = 10 ∷ 21 ∷ 12 ∷ [];
}

-- The same by rows.
abbrev sample_rows : Csr ℕ
sample_rows = record {
  nz_max = 3;
  m = 2;
  n = 3;
  row_start = 0 ∷ 2 ∷ 3 ∷ [];
  j = 0 ∷ 2 ∷ 1 ∷ [];
  x = 10 ∷ 12 ∷ 21 ∷ [];
}

abbrev empty_rows : Csr ℕ
empty_rows = record { nz_max = 3; m = 0; n = 0; row_start = []; j = 7 ∷ []; x = [] }

abbrev blank : Csc ℕ
blank = record { nz_max = 1; m = 2; n = 3; col_start = 0 ∷ 0 ∷ 0 ∷ 0 ∷ []; i = 0 ∷ []; x = 0 ∷ [] }

to_compressed_row_runs : to_compressed_row sample empty_rows ≡ sample_rows
unfolding to_compressed_row
to_compressed_row_runs = refl

to_compressed_col_runs : to_compressed_col sample_rows (record blank { nz_max = 3 }) ≡ sample
unfolding to_compressed_col
to_compressed_col_runs = refl

coo_to_csc_runs : coo_to_csc (0 ∷ 0 ∷ 1 ∷ []) (2 ∷ 0 ∷ 1 ∷ []) (12 ∷ 10 ∷ 21 ∷ []) blank ≡ sample
unfolding coo_to_csc
coo_to_csc_runs = refl

sample-IsLayout : IsLayout 3 2 (cols sample)
sample-IsLayout = record {
  starts_size = refl;
  first = refl;
  rising = λ j lt.
      All-span (λ k. at (cols sample).starts k ≤ at (cols sample).starts (suc k)) 0 3 (omega arith)
        j (omega arith) lt;
  index_room = omega arith;
  value_room = omega arith;
  bounded = λ j lt.
      All-span (λ k. All (λ e. e.0 < 2) (segment (cols sample) k)) 0 3 (omega arith) j (omega arith)
        lt;
}

sample_rows-IsLayout : IsLayout 2 3 (rows sample_rows)
unfolding to_compressed_row
sample_rows-IsLayout = (to_compressed_row-coeffs sample empty_rows sample-IsLayout).0

sample-IsSorted : (j : ℕ) → j < 3 → IsSorted (segment (cols sample) j)
sample-IsSorted j lt =
    All-span (λ k. IsSorted (segment (cols sample) k)) 0 3 (omega arith) j (omega arith) lt

coo_to_csc_example :
    IsGrouped 3
      (triplets (0 ∷ 0 ∷ 1 ∷ []) (2 ∷ 0 ∷ 1 ∷ []) (12 ∷ 10 ∷ 21 ∷ []))
      (cols (coo_to_csc (0 ∷ 0 ∷ 1 ∷ []) (2 ∷ 0 ∷ 1 ∷ []) (12 ∷ 10 ∷ 21 ∷ []) blank))
coo_to_csc_example =
    coo_to_csc-IsGrouped (0 ∷ 0 ∷ 1 ∷ []) (2 ∷ 0 ∷ 1 ∷ []) (12 ∷ 10 ∷ 21 ∷ []) blank refl
      (record { starts_size = refl; index_size = refl; value_size = refl }) (omega arith)

to_compressed_row_example :
    IsLayout 2 3 (rows (to_compressed_row sample empty_rows))
    × ((r j : ℕ)
        → r < 2
        → j < 3
        → coeffs (rows (to_compressed_row sample empty_rows)) r j ≡ coeffs (cols sample) j r)
to_compressed_row_example = to_compressed_row-coeffs sample empty_rows sample-IsLayout

to_compressed_col_example :
    IsLayout 3 2 (cols (to_compressed_col sample_rows blank))
    × ((j r : ℕ)
        → j < 3
        → r < 2
        → coeffs (cols (to_compressed_col sample_rows blank)) j r ≡ coeffs (rows sample_rows) r j)
to_compressed_col_example = to_compressed_col-coeffs sample_rows blank sample_rows-IsLayout

transpose_example :
    IsLayout 2 3 (cols (transpose sample blank))
    × ((r j : ℕ)
        → r < 2
        → j < 3
        → coeffs (cols (transpose sample blank)) r j ≡ coeffs (cols sample) j r)
transpose_example = transpose-coeffs sample blank sample-IsLayout

convert_twice_example :
    let C = to_compressed_col (to_compressed_row sample empty_rows) blank in
    ((j : ℕ) → j ≤ 3 → at C.col_start j ≡ at sample.col_start j)
    × ((j : ℕ) → j < 3 → segment (cols C) j ≡ segment (cols sample) j)
convert_twice_example =
    to_compressed_col-to_compressed_row sample blank empty_rows sample-IsLayout sample-IsSorted

transpose_twice_example :
    let T = transpose (transpose sample blank) blank in
    ((j : ℕ) → j ≤ 3 → at T.col_start j ≡ at sample.col_start j)
    × ((j : ℕ) → j < 3 → segment (cols T) j ≡ segment (cols sample) j)
transpose_twice_example = transpose-transpose sample blank blank sample-IsLayout sample-IsSorted

norm1_runs : norm1 (λ a. a) sample ≡ 21
unfolding norm1 raise column_sum
norm1_runs = refl
