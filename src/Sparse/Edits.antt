-- ===== src/Sparse/Edits.antt =====
-- Runs of the permutations and removals of cpp/src/dual_simplex/sparse_matrix.cpp.
use mathlib.Core.List.Perm
use nvcuopt.Prelude.{ℕ, suc, ◌<◌, ◌≤◌, ◌≡◌, refl, [], ◌∷◌, arith, All, All-span, map, span}
use nvcuopt.Prelude.Num.{nat_num}
use nvcuopt.Sparse.Matrix.{Csc, Csr, at}
use nvcuopt.Sparse.Layout.{cols, rows, segment, IsLayout}
use nvcuopt.Sparse.Convert.Coeffs.{coeffs}
use nvcuopt.Sparse.Permute.{permute_rows, permute_rows_and_cols}
use nvcuopt.Sparse.Permute.Coeffs.{IsInjective, permute_rows_and_cols-coeffs}
use nvcuopt.Sparse.Remove.{remove_columns, remove_column, remove_rows, remove_row}
use nvcuopt.Sparse.Remove.Columns.{remove_columns-segment}
use nvcuopt.Sparse.Remove.Rows.{remove_rows-segment}
use nvcuopt.Sparse.Remove.Row.{without_row, remove_row-segment}
use nvcuopt.Sparse.Remove.Column.{IsWithout, remove_column-segment}

-- [ 10  0 12 ]
-- [  0 21  0 ], by columns.
abbrev grid : Csc ℕ
grid = record {
  nz_max = 3;
  m = 2;
  n = 3;
  col_start = 0 ∷ 1 ∷ 2 ∷ 3 ∷ [];
  i = 0 ∷ 1 ∷ 0 ∷ [];
  x = 10 ∷ 21 ∷ 12 ∷ [];
}

-- The same by rows.
abbrev grid_rows : Csr ℕ
grid_rows = record {
  nz_max = 3;
  m = 2;
  n = 3;
  row_start = 0 ∷ 2 ∷ 3 ∷ [];
  j = 0 ∷ 2 ∷ 1 ∷ [];
  x = 10 ∷ 12 ∷ 21 ∷ [];
}

grid-IsLayout : IsLayout 3 2 (cols grid)
grid-IsLayout = record {
  starts_size = refl;
  first = refl;
  rising = λ j lt.
      All-span (λ k. at (cols grid).starts k ≤ at (cols grid).starts (suc k)) 0 3 (omega arith) j
        (omega arith) lt;
  index_room = omega arith;
  value_room = omega arith;
  bounded = λ j lt.
      All-span (λ k. All (λ e. e.0 < 2) (segment (cols grid) k)) 0 3 (omega arith) j (omega arith)
        lt;
}

grid_rows-IsLayout : IsLayout 2 3 (rows grid_rows)
grid_rows-IsLayout = record {
  starts_size = refl;
  first = refl;
  rising = λ j lt.
      All-span (λ k. at (rows grid_rows).starts k ≤ at (rows grid_rows).starts (suc k)) 0 2
        (omega arith) j (omega arith) lt;
  index_room = omega arith;
  value_room = omega arith;
  bounded = λ j lt.
      All-span (λ k. All (λ e. e.0 < 3) (segment (rows grid_rows) k)) 0 2 (omega arith) j
        (omega arith) lt;
}

swap_rows : IsInjective 2 (1 ∷ 0 ∷ [])
swap_rows i k im km e =
    All-span (λ b. at (1 ∷ 0 ∷ []) i ≡ at (1 ∷ 0 ∷ []) b → i ≡ b) 0 2
      (All-span (λ a. All (λ b. at (1 ∷ 0 ∷ []) a ≡ at (1 ∷ 0 ∷ []) b → a ≡ b) (span 0 2)) 0 2
        (omega arith) i (omega arith) im)
      k (omega arith) km e

permute_rows_runs : permute_rows grid (1 ∷ 0 ∷ []) grid ≡ record grid { i = 1 ∷ 0 ∷ 1 ∷ [] }
unfolding permute_rows
permute_rows_runs = refl

remove_columns_runs :
    remove_columns grid (0 ∷ 1 ∷ 0 ∷ [])
    ≡ record grid { n = 2; col_start = 0 ∷ 1 ∷ 2 ∷ []; i = 0 ∷ 0 ∷ []; x = 10 ∷ 12 ∷ [] }
unfolding remove_columns
remove_columns_runs = refl

remove_column_runs :
    remove_column grid 1
    ≡ record grid { col_start = 0 ∷ 1 ∷ 2 ∷ 3 ∷ []; i = 0 ∷ 0 ∷ 0 ∷ []; x = 10 ∷ 12 ∷ 12 ∷ [] }
unfolding remove_column
remove_column_runs = refl

remove_row_runs :
    remove_row grid 0
    ≡ record grid { col_start = 0 ∷ 0 ∷ 1 ∷ 1 ∷ []; i = 0 ∷ 1 ∷ 0 ∷ []; x = 21 ∷ 21 ∷ 12 ∷ [] }
unfolding remove_row
remove_row_runs = refl

remove_rows_runs :
    remove_rows grid_rows (1 ∷ 0 ∷ []) grid_rows
    ≡ record grid_rows { m = 1; row_start = 0 ∷ 1 ∷ []; j = 1 ∷ []; x = 21 ∷ [] }
unfolding remove_rows
remove_rows_runs = refl

permute_rows_and_cols_example :
    coeffs (cols (permute_rows_and_cols grid (1 ∷ 0 ∷ []) (1 ∷ 0 ∷ 2 ∷ []) grid)) 1 1
    ≡ coeffs (cols grid) 0 0
permute_rows_and_cols_example =
    permute_rows_and_cols-coeffs grid (1 ∷ 0 ∷ []) (1 ∷ 0 ∷ 2 ∷ []) grid grid-IsLayout refl
      swap_rows (Perm.swap 0 1 (2 ∷ [])) 1 0 (omega arith) (omega arith)

remove_columns_example :
    ((remove_columns grid (0 ∷ 1 ∷ 0 ∷ [])).n ≡ 2)
    × (map
          (segment (cols (remove_columns grid (0 ∷ 1 ∷ 0 ∷ []))))
          (span 0 (remove_columns grid (0 ∷ 1 ∷ 0 ∷ [])).n)
        ≡ map (segment (cols grid)) (0 ∷ 2 ∷ []))
remove_columns_example = remove_columns-segment grid (0 ∷ 1 ∷ 0 ∷ [])

remove_row_example :
    map (segment (cols (remove_row grid 0))) (span 0 3)
    ≡ map (λ j. without_row 0 (segment (cols grid) j)) (span 0 3)
remove_row_example = remove_row-segment grid 0 grid-IsLayout

remove_rows_example :
    ((remove_rows grid_rows (1 ∷ 0 ∷ []) grid_rows).m ≡ 1)
    × (map
          (segment (rows (remove_rows grid_rows (1 ∷ 0 ∷ []) grid_rows)))
          (span 0 (remove_rows grid_rows (1 ∷ 0 ∷ []) grid_rows).m)
        ≡ map (segment (rows grid_rows)) (1 ∷ []))
remove_rows_example = remove_rows-segment grid_rows grid_rows (1 ∷ 0 ∷ []) grid_rows-IsLayout

remove_column_example : IsWithout grid 1 (cols (remove_column grid 1))
remove_column_example = remove_column-segment grid 1 grid-IsLayout (omega arith)
