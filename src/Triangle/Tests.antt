-- ===== src/Triangle/Tests.antt =====
-- Runs of the triangular solves of cpp/src/dual_simplex/triangle_solve.cpp, on the numbers modulo 2.
use nvcuopt.Prelude.{
  ℕ, suc, ◌<◌, ◌≤◌, ◌≡◌, ◌≢◌, refl, [], ◌∷◌, arith, length, All, All-span, span, Bool, true, false,
  ◌&&◌, ◌-◌,
}
use nvcuopt.Sparse.Matrix.{Csc, at, val}
use nvcuopt.Sparse.Layout.{cols, segment, IsLayout}
use nvcuopt.Sparse.Algebra.{coefficient, sum_below}
use nvcuopt.Triangle.{
  lower_triangular_solve, lower_triangular_transpose_solve, upper_triangular_transpose_solve,
  upper_triangular_solve,
}
use nvcuopt.Triangle.UpperSolve.{upper_triangular_solve-solves}
use nvcuopt.Triangle.UpperTranspose.{upper_triangular_transpose_solve-solves}
use nvcuopt.Triangle.LowerTranspose.{lower_triangular_transpose_solve-solves}
use nvcuopt.Triangle.Upper.{IsUpper}
use nvcuopt.Prelude.Num.{mod_two}
use nvcuopt.Sparse.Algebra.{mod_two-IsSemiring}
use nvcuopt.Triangle.Lower.{IsField, IsLower}
use nvcuopt.Triangle.LowerSolve.{lower_triangular_solve-solves}

mod_two-IsField : IsField mod_two
mod_two-IsField = record {
  semiring = mod_two-IsSemiring;
  sub_add = λ a b. ground arith;
  mul_div = λ a b ne. ground arith;
}

-- [ 1 0 ]
-- [ 1 1 ]
abbrev lower : Csc Bool
lower = record {
  nz_max = 3;
  m = 2;
  n = 2;
  col_start = 0 ∷ 2 ∷ 3 ∷ [];
  i = 0 ∷ 1 ∷ 1 ∷ [];
  x = true ∷ true ∷ true ∷ [];
}

lower_triangular_solve_runs : lower_triangular_solve lower (true ∷ false ∷ []) ≡ true ∷ true ∷ []
unfolding lower_triangular_solve
lower_triangular_solve_runs = refl

lower-IsLayout : IsLayout 2 2 (cols lower)
lower-IsLayout = record {
  starts_size = refl;
  first = refl;
  rising = λ j lt.
      All-span (λ k. at (cols lower).starts k ≤ at (cols lower).starts (suc k)) 0 2 (omega arith) j
        (omega arith) lt;
  index_room = omega arith;
  value_room = omega arith;
  bounded = λ j lt.
      All-span (λ k. All (λ e. e.0 < 2) (segment (cols lower) k)) 0 2 (omega arith) j (omega arith)
        lt;
}

lower-IsLower : IsLower lower
lower-IsLower = record {
  layout = lower-IsLayout;
  nonempty = λ j lt.
      All-span (λ k. at lower.col_start k < at lower.col_start (suc k)) 0 2 (omega arith) j
        (omega arith) lt;
  diagonal = λ j lt.
      All-span (λ k. at lower.i (at lower.col_start k) ≡ k) 0 2 (refl, (refl, tt)) j (omega arith)
        lt;
  nonzero = λ j lt.
      All-span (λ k. val lower.x (at lower.col_start k) ≢ false) 0 2
        ((λ e. ground arith), ((λ e. ground arith), tt)) j (omega arith) lt;
  below = λ j p jn above under.
      let few =
        All-span (λ k. at lower.col_start (suc k) ≤ 3) 0 2 (omega arith) j (omega arith) jn in
      All-span (λ q. at lower.col_start j < q → q < at lower.col_start (suc j) → j < at lower.i q) 0
        3
        (All-span
          (λ k.
            All (λ q. at lower.col_start k < q → q < at lower.col_start (suc k) → k < at lower.i q)
              (span 0 3))
          0 2 (omega arith) j (omega arith) jn)
        p (omega arith) (omega arith) above under;
}

lower_triangular_solve_example :
    (length (lower_triangular_solve lower (true ∷ false ∷ [])) ≡ 2)
    × ((r : ℕ)
        → r < 2
        → sum_below 2
            (λ j. coefficient lower r j && val (lower_triangular_solve lower (true ∷ false ∷ [])) j)
          ≡ val (true ∷ false ∷ []) r)
lower_triangular_solve_example =
    lower_triangular_solve-solves mod_two-IsField lower (true ∷ false ∷ []) lower-IsLower refl

lower_triangular_transpose_solve_runs :
    lower_triangular_transpose_solve lower (true ∷ true ∷ []) ≡ false ∷ true ∷ []
unfolding lower_triangular_transpose_solve
lower_triangular_transpose_solve_runs = refl

lower_triangular_transpose_solve_example :
    (length (lower_triangular_transpose_solve lower (true ∷ true ∷ [])) ≡ 2)
    × ((j : ℕ)
        → j < 2
        → sum_below 2 (λ r.
          coefficient lower r j
          && val (lower_triangular_transpose_solve lower (true ∷ true ∷ [])) r)
          ≡ val (true ∷ true ∷ []) j)
lower_triangular_transpose_solve_example =
    lower_triangular_transpose_solve-solves mod_two-IsField lower (true ∷ true ∷ []) lower-IsLower
      refl

-- [ 1 1 ]
-- [ 0 1 ]
abbrev upper : Csc Bool
upper = record {
  nz_max = 3;
  m = 2;
  n = 2;
  col_start = 0 ∷ 1 ∷ 3 ∷ [];
  i = 0 ∷ 0 ∷ 1 ∷ [];
  x = true ∷ true ∷ true ∷ [];
}

upper_triangular_transpose_solve_runs :
    upper_triangular_transpose_solve upper (true ∷ false ∷ []) ≡ true ∷ true ∷ []
unfolding upper_triangular_transpose_solve
upper_triangular_transpose_solve_runs = refl

upper-IsLayout : IsLayout 2 2 (cols upper)
upper-IsLayout = record {
  starts_size = refl;
  first = refl;
  rising = λ j lt.
      All-span (λ k. at (cols upper).starts k ≤ at (cols upper).starts (suc k)) 0 2 (omega arith) j
        (omega arith) lt;
  index_room = omega arith;
  value_room = omega arith;
  bounded = λ j lt.
      All-span (λ k. All (λ e. e.0 < 2) (segment (cols upper) k)) 0 2 (omega arith) j (omega arith)
        lt;
}

upper-IsUpper : IsUpper upper
upper-IsUpper = record {
  layout = upper-IsLayout;
  nonempty = λ j lt.
      All-span (λ k. at upper.col_start k < at upper.col_start (suc k)) 0 2 (omega arith) j
        (omega arith) lt;
  diagonal = λ j lt.
      All-span (λ k. at upper.i (at upper.col_start (suc k) - 1) ≡ k) 0 2 (refl, (refl, tt)) j
        (omega arith) lt;
  nonzero = λ j lt.
      All-span (λ k. val upper.x (at upper.col_start (suc k) - 1) ≢ false) 0 2
        ((λ e. ground arith), ((λ e. ground arith), tt)) j (omega arith) lt;
  above = λ j p jn from under.
      let few =
        All-span (λ k. at upper.col_start (suc k) ≤ 3) 0 2 (omega arith) j (omega arith) jn in
      All-span
        (λ q. at upper.col_start j ≤ q → q < at upper.col_start (suc j) - 1 → at upper.i q < j) 0 3
        (All-span
          (λ k.
            All
              (λ q.
                at upper.col_start k ≤ q → q < at upper.col_start (suc k) - 1 → at upper.i q < k)
              (span 0 3))
          0 2 (omega arith) j (omega arith) jn)
        p (omega arith) (omega arith) from under;
}

upper_triangular_transpose_solve_example :
    (length (upper_triangular_transpose_solve upper (true ∷ false ∷ [])) ≡ 2)
    × ((j : ℕ)
        → j < 2
        → sum_below 2 (λ r.
          coefficient upper r j
          && val (upper_triangular_transpose_solve upper (true ∷ false ∷ [])) r)
          ≡ val (true ∷ false ∷ []) j)
upper_triangular_transpose_solve_example =
    upper_triangular_transpose_solve-solves mod_two-IsField upper (true ∷ false ∷ []) upper-IsUpper
      refl

upper_triangular_solve_runs : upper_triangular_solve upper (false ∷ true ∷ []) ≡ true ∷ true ∷ []
unfolding upper_triangular_solve
upper_triangular_solve_runs = refl

upper_triangular_solve_example :
    (length (upper_triangular_solve upper (false ∷ true ∷ [])) ≡ 2)
    × ((r : ℕ)
        → r < 2
        → sum_below 2
            (λ j. coefficient upper r j && val (upper_triangular_solve upper (false ∷ true ∷ [])) j)
          ≡ val (false ∷ true ∷ []) r)
upper_triangular_solve_example =
    upper_triangular_solve-solves mod_two-IsField upper (false ∷ true ∷ []) upper-IsUpper refl
