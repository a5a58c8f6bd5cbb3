-- ===== src/Sparse/Products.antt =====
-- Runs of `multiply`, `add` and the products with vectors of
-- cpp/src/dual_simplex/sparse_matrix.cpp.
use nvcuopt.Prelude.{ℕ, suc, ◌<◌, ◌≤◌, ◌≡◌, refl, [], ◌∷◌, arith, All, All-span}
use nvcuopt.Prelude.Num.{nat_num}
use nvcuopt.Sparse.Matrix.{Csc, at, val}
use nvcuopt.Sparse.Layout.{cols, segment, IsLayout}
use nvcuopt.Sparse.Algebra.{nat_num-IsSemiring, coefficient, sum_below}
use nvcuopt.Sparse.Product.{multiply, add}
use nvcuopt.Sparse.Product.Multiply.{product, multiply-segment}
use nvcuopt.Sparse.Product.Dense.{multiply-coefficient, add-coefficient}
use nvcuopt.Sparse.Vector.{matrix_vector_multiply, matrix_transpose_vector_multiply}
use nvcuopt.Sparse.Vector.Multiply.{
  matrix_vector_multiply-val, matrix_transpose_vector_multiply-val,
}

-- [ 1 2 ]
-- [ 0 3 ]
abbrev left : Csc ℕ
left = record {
  nz_max = 3;
  m = 2;
  n = 2;
  col_start = 0 ∷ 1 ∷ 3 ∷ [];
  i = 0 ∷ 1 ∷ 0 ∷ [];
  x = 1 ∷ 3 ∷ 2 ∷ [];
}

-- [ 0 4 ]
-- [ 5 6 ]
abbrev right : Csc ℕ
right = record {
  nz_max = 3;
  m = 2;
  n = 2;
  col_start = 0 ∷ 1 ∷ 3 ∷ [];
  i = 1 ∷ 0 ∷ 1 ∷ [];
  x = 5 ∷ 4 ∷ 6 ∷ [];
}

-- A target with the starts of two columns.
abbrev blank : Csc ℕ
blank = record { nz_max = 0; m = 2; n = 2; col_start = 9 ∷ 9 ∷ 9 ∷ []; i = []; x = [] }

left-IsLayout : IsLayout 2 2 (cols left)
left-IsLayout = record {
  starts_size = refl;
  first = refl;
  rising = λ j lt.
      All-span (λ k. at (cols left).starts k ≤ at (cols left).starts (suc k)) 0 2 (omega arith) j
        (omega arith) lt;
  index_room = omega arith;
  value_room = omega arith;
  bounded = λ j lt.
      All-span (λ k. All (λ e. e.0 < 2) (segment (cols left) k)) 0 2 (omega arith) j (omega arith)
        lt;
}

right-IsLayout : IsLayout 2 2 (cols right)
right-IsLayout = record {
  starts_size = refl;
  first = refl;
  rising = λ j lt.
      All-span (λ k. at (cols right).starts k ≤ at (cols right).starts (suc k)) 0 2 (omega arith) j
        (omega arith) lt;
  index_room = omega arith;
  value_room = omega arith;
  bounded = λ j lt.
      All-span (λ k. All (λ e. e.0 < 2) (segment (cols right) k)) 0 2 (omega arith) j (omega arith)
        lt;
}

multiply_runs : multiply left right blank ≡ record {
  nz_max = 4;
  m = 2;
  n = 2;
  col_start = 0 ∷ 2 ∷ 4 ∷ [];
  i = 1 ∷ 0 ∷ 0 ∷ 1 ∷ [];
  x = 15 ∷ 10 ∷ 16 ∷ 18 ∷ [];
}
unfolding multiply
multiply_runs = refl

add_runs : add left right 2 1 blank ≡ record {
  nz_max = 4;
  m = 2;
  n = 2;
  col_start = 0 ∷ 2 ∷ 4 ∷ [];
  i = 0 ∷ 1 ∷ 1 ∷ 0 ∷ [];
  x = 2 ∷ 5 ∷ 12 ∷ 8 ∷ [];
}
unfolding add
add_runs = refl

multiply-segment_example :
    IsLayout 2 2 (cols (multiply left right blank))
    × ((j : ℕ) → j < 2 → segment (cols (multiply left right blank)) j ≡ product left right j)
multiply-segment_example = multiply-segment left right blank left-IsLayout right-IsLayout refl

multiply-coefficient_example :
    coefficient (multiply left right blank) 0 1
    ≡ sum_below 2 (λ k. nat_num.mul (coefficient right k 1) (coefficient left 0 k))
multiply-coefficient_example =
    multiply-coefficient nat_num-IsSemiring left right blank left-IsLayout right-IsLayout refl 0 1
      (omega arith)

add-coefficient_example :
    coefficient (add left right 2 1 blank) 1 1
    ≡ nat_num.add (nat_num.mul 2 (coefficient left 1 1)) (nat_num.mul 1 (coefficient right 1 1))
add-coefficient_example =
    add-coefficient nat_num-IsSemiring left right 2 1 blank left-IsLayout right-IsLayout refl 1 1
      (omega arith)

matrix_vector_multiply_example :
    val (matrix_vector_multiply left 1 (10 ∷ 20 ∷ []) 3 (1 ∷ 2 ∷ [])) 0 ≡ 53
matrix_vector_multiply_example =
    matrix_vector_multiply-val nat_num-IsSemiring left 1 (10 ∷ 20 ∷ []) 3 (1 ∷ 2 ∷ []) left-IsLayout
      refl 0 (omega arith)

matrix_transpose_vector_multiply_example :
    val (matrix_transpose_vector_multiply left 1 (10 ∷ 20 ∷ []) 3 (1 ∷ 2 ∷ [])) 1 ≡ 86
matrix_transpose_vector_multiply_example =
    matrix_transpose_vector_multiply-val nat_num-IsSemiring left 1 (10 ∷ 20 ∷ []) 3 (1 ∷ 2 ∷ [])
      left-IsLayout refl 1 (omega arith)
