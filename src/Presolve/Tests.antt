-- ===== src/Presolve/Tests.antt =====
-- Runs of the functions of cpp/src/dual_simplex/presolve.cpp, on natural numbers and on the numbers
-- modulo 5.
use nvcuopt.Prelude.{
  ℕ, suc, ◌+◌, ◌-◌, ◌*◌, ◌/◌, ◌%◌, ◌<◌, ◌≤◌, ◌≡◌, refl, [], ◌∷◌, ◌++◌, some, none, map, arith, All,
  All-span, ltb, ◌==◌,
}
use nvcuopt.Prelude.Num.{Num, nat_num}
use nvcuopt.Sparse.Matrix.{Csc, Csr, at, val}
use nvcuopt.Sparse.Layout.{cols, rows, segment, IsLayout}
use nvcuopt.Sparse.Convert.{to_compressed_row, to_compressed_col}
use nvcuopt.Sparse.Remove.{remove_rows as remove_marked_rows, remove_columns}
use nvcuopt.Sparse.Convert.Coeffs.{coeffs}
use nvcuopt.Sparse.Algebra.{nat_num-IsSemiring}
use nvcuopt.Presolve.Problem.{LpProblem, PresolveInfo}
use nvcuopt.Presolve.Remove.{remove_rows}
use nvcuopt.Presolve.Convert.{
  Senses, convert_greater_to_less, convert_less_than_to_equal, add_artifical_variables,
  convert_user_problem,
}
use nvcuopt.Presolve.Crush.{presolve, uncrush_solution}
use nvcuopt.Presolve.Negate.{turned, lessened}
use nvcuopt.Presolve.Greater.{IsProblem, convert_greater_to_less-coeffs}
use nvcuopt.Presolve.Slacks.{Extends}
use nvcuopt.Presolve.Less.{less_slack, equalled, convert_less_than_to_equal-Extends}
use nvcuopt.Presolve.Artificial.{artificial, add_artifical_variables-Extends}
use nvcuopt.Presolve.EmptyRows.{remove_rows-violation}
use nvcuopt.Presolve.Uncrush.{IsPartition, Restores, uncrush_solution-Restores}
use nvcuopt.Presolve.Marking.{objective_at}
use nvcuopt.Presolve.Objective.{no_info, presolve-uncrush_solution}

abbrev mod_five : Num ℕ
mod_five = record {
  nought = 0;
  one = 1;
  add = λ a b. (a + b) % 5;
  sub = λ a b. (a + 5 - b) % 5;
  mul = λ a b. (a * b) % 5;
  div = λ a b. a / b;
  lt = ltb;
  eq = λ a b. a == b;
}

-- [ 1 0 2 ]
-- [ 0 0 0 ]
-- [ 3 0 4 ]
abbrev sparse_matrix : Csc ℕ
sparse_matrix = record {
  nz_max = 4;
  m = 3;
  n = 3;
  col_start = 0 ∷ 2 ∷ 2 ∷ 4 ∷ [];
  i = 0 ∷ 2 ∷ 0 ∷ 2 ∷ [];
  x = 1 ∷ 3 ∷ 2 ∷ 4 ∷ [];
}

abbrev sample : LpProblem ℕ
sample = record {
  num_rows = 3;
  num_cols = 3;
  objective = 5 ∷ 6 ∷ 7 ∷ [];
  A = sparse_matrix;
  rhs = 8 ∷ 0 ∷ 9 ∷ [];
  lower = 0 ∷ 2 ∷ 0 ∷ [];
  upper = 10 ∷ 11 ∷ 12 ∷ [];
  obj_constant = 100;
  obj_scale = 1;
}

abbrev by_rows : Csr ℕ
by_rows = record {
  nz_max = 4;
  m = 3;
  n = 3;
  row_start = 0 ∷ 2 ∷ 2 ∷ 4 ∷ [];
  j = 0 ∷ 2 ∷ 0 ∷ 2 ∷ [];
  x = 1 ∷ 2 ∷ 3 ∷ 4 ∷ [];
}

-- Row 1 must be 4 and has no entry.
abbrev infeasible : LpProblem ℕ
infeasible = record sample { rhs = 8 ∷ 4 ∷ 9 ∷ [] }

by_rows-IsLayout : IsLayout 3 3 (rows by_rows)
by_rows-IsLayout = record {
  starts_size = refl;
  first = refl;
  rising = λ j lt.
      All-span (λ k. at by_rows.row_start k ≤ at by_rows.row_start (suc k)) 0 3 (omega arith) j
        (omega arith) lt;
  index_room = omega arith;
  value_room = omega arith;
  bounded = λ j lt.
      All-span (λ k. All (λ e. e.0 < 3) (segment (rows by_rows) k)) 0 3 (omega arith) j
        (omega arith) lt;
}

violated_row_example : remove_rows infeasible by_rows (0 ∷ 1 ∷ 0 ∷ []) ≡ (2, infeasible)
violated_row_example =
    remove_rows-violation infeasible by_rows (0 ∷ 1 ∷ 0 ∷ []) by_rows-IsLayout refl

presolve_fails : presolve 1000 infeasible no_info ≡ none
unfolding presolve to_compressed_row
presolve_fails = refl

abbrev reduced : LpProblem ℕ
reduced = record {
  num_rows = 2;
  num_cols = 2;
  objective = 5 ∷ 7 ∷ [];
  A = record {
    nz_max = 4;
    m = 2;
    n = 2;
    col_start = 0 ∷ 2 ∷ 4 ∷ [];
    i = 0 ∷ 1 ∷ 0 ∷ 1 ∷ [];
    x = 1 ∷ 3 ∷ 2 ∷ 4 ∷ [];
  };
  rhs = 8 ∷ 9 ∷ [];
  lower = 0 ∷ 0 ∷ [];
  upper = 10 ∷ 12 ∷ [];
  obj_constant = 112;
  obj_scale = 1;
}

abbrev sample_info : PresolveInfo ℕ
sample_info = record {
  remaining_variables = 0 ∷ 2 ∷ [];
  removed_variables = 1 ∷ [];
  removed_values = 2 ∷ [];
  removed_reduced_costs = 6 ∷ [];
}

presolve_runs : presolve 1000 sample no_info ≡ some (reduced, sample_info)
unfolding presolve to_compressed_row to_compressed_col remove_marked_rows remove_columns
presolve_runs = refl

presolve_example :
    objective_at sample (val (uncrush_solution sample_info (3 ∷ 4 ∷ []) (0 ∷ 1 ∷ []) [] []).0)
    ≡ objective_at reduced (val (3 ∷ 4 ∷ []))
presolve_example =
    presolve-uncrush_solution nat_num-IsSemiring 1000 sample reduced sample_info (3 ∷ 4 ∷ [])
      (0 ∷ 1 ∷ []) [] [] presolve_runs

uncrush_solution_runs :
    uncrush_solution sample_info (3 ∷ 4 ∷ []) (0 ∷ 1 ∷ []) [] [] ≡ (3 ∷ 2 ∷ 4 ∷ [], 0 ∷ 6 ∷ 1 ∷ [])
unfolding uncrush_solution
uncrush_solution_runs = refl

sample_info-IsPartition : IsPartition sample_info.remaining_variables sample_info.removed_variables
sample_info-IsPartition = record {
  remaining_distinct = ((λ e. omega arith, tt), (tt, tt));
  removed_distinct = (tt, tt);
  disjoint = ((λ e. omega arith, tt), ((λ e. omega arith, tt), tt));
  remaining_below = omega arith;
  removed_below = omega arith;
}

uncrush_solution_example :
    let (ux, uz) = uncrush_solution sample_info (3 ∷ 4 ∷ []) (0 ∷ 1 ∷ []) [] [] in
    Restores sample_info (3 ∷ 4 ∷ []) (2 ∷ []) ux × Restores sample_info (0 ∷ 1 ∷ []) (6 ∷ []) uz
uncrush_solution_example =
    uncrush_solution-Restores sample_info (3 ∷ 4 ∷ []) (0 ∷ 1 ∷ []) [] [] sample_info-IsPartition
      (omega arith)

sparse_matrix-IsLayout : IsLayout 3 3 (cols sparse_matrix)
sparse_matrix-IsLayout = record {
  starts_size = refl;
  first = refl;
  rising = λ j lt.
      All-span (λ k. at sparse_matrix.col_start k ≤ at sparse_matrix.col_start (suc k)) 0 3
        (omega arith) j (omega arith) lt;
  index_room = omega arith;
  value_room = omega arith;
  bounded = λ j lt.
      All-span (λ k. All (λ e. e.0 < 3) (segment (cols sparse_matrix) k)) 0 3 (omega arith) j
        (omega arith) lt;
}

sample-IsProblem : IsProblem sample
sample-IsProblem = record {
  layout = sparse_matrix-IsLayout;
  columns = refl;
  matrix_rows = refl;
  sides = omega arith;
}

-- a >= row, an equation and a <= row
abbrev sample_senses : Senses
sample_senses = record {
  row_sense = b'G' ∷ b'E' ∷ b'L' ∷ [];
  less_rows = 1;
  equal_rows = 1;
  greater_rows = 1;
  equality_rows = 1 ∷ [];
}

add_artifical_variables_example :
    let (R, slacks) = add_artifical_variables sample (2 ∷ 1 ∷ []) (7 ∷ []) in
    Extends sample R (map artificial (2 ∷ 1 ∷ [])) × (slacks ≡ (7 ∷ []) ++ (3 ∷ 4 ∷ []))
add_artifical_variables_example =
    add_artifical_variables-Extends sample (2 ∷ 1 ∷ []) (7 ∷ []) sample-IsProblem
      (omega arith, (omega arith, tt))

convert_less_than_to_equal_example :
    let (R, c', slacks) = convert_less_than_to_equal 1000 sample_senses sample (7 ∷ []) in
    Extends sample R (map (less_slack 1000) (2 ∷ []))
    × (slacks ≡ (7 ∷ []) ++ (3 ∷ []))
    × (c'.less_rows ≡ 0)
    × ((r : ℕ) → r < 3 → at c'.row_sense r ≡ equalled (at sample_senses.row_sense r))
convert_less_than_to_equal_example =
    convert_less_than_to_equal-Extends 1000 sample_senses sample (7 ∷ []) sample-IsProblem
      (omega arith) refl

convert_user_problem_runs :
    (convert_user_problem 1000
      (λ a. a)
      (record {
        num_rows = 3;
        num_cols = 3;
        objective = 5 ∷ 6 ∷ 7 ∷ [];
        A = sparse_matrix;
        rhs = 8 ∷ 0 ∷ 9 ∷ [];
        row_sense = b'L' ∷ b'E' ∷ b'L' ∷ [];
        lower = 0 ∷ 2 ∷ 0 ∷ [];
        upper = 10 ∷ 11 ∷ 12 ∷ [];
        range_rows = 2 ∷ [];
        range_value = 4 ∷ [];
        num_range_rows = 1;
        obj_constant = 100;
        obj_scale = 1;
      })
      []).1
    ≡ 3 ∷ 4 ∷ 5 ∷ []
unfolding convert_user_problem
convert_user_problem_runs = refl

-- The first row, x0 + 2 * x2 >= 8, is turned round modulo 5.
convert_greater_to_less_runs :
    (convert_greater_to_less ⦃num = mod_five⦄ sample_senses sample).0.rhs ≡ 2 ∷ 0 ∷ 9 ∷ []
unfolding convert_greater_to_less
convert_greater_to_less_runs = refl

sample-IsProblem-mod_five : IsProblem ⦃num = mod_five⦄ sample
sample-IsProblem-mod_five = record {
  layout = record {
    starts_size = refl;
    first = refl;
    rising = sparse_matrix-IsLayout.rising;
    index_room = omega arith;
    value_room = omega arith;
    bounded = sparse_matrix-IsLayout.bounded;
  };
  columns = refl;
  matrix_rows = refl;
  sides = omega arith;
}

convert_greater_to_less_example :
    let (R, c') = convert_greater_to_less ⦃num = mod_five⦄ sample_senses sample in
    IsLayout ⦃num = mod_five⦄ 3 3 (cols R.A)
    × ((r j : ℕ)
        → r < 3
        → j < 3
        → coeffs ⦃num = mod_five⦄ (cols R.A) j r
          ≡ map
              (turned ⦃num = mod_five⦄ (at sample_senses.row_sense r))
              (coeffs ⦃num = mod_five⦄ (cols sparse_matrix) j r))
    × ((r : ℕ)
        → r < 3
        → val ⦃num = mod_five⦄ R.rhs r
          ≡ turned ⦃num = mod_five⦄
              (at sample_senses.row_sense r)
              (val ⦃num = mod_five⦄ (8 ∷ 0 ∷ 9 ∷ []) r))
    × ((r : ℕ) → r < 3 → at c'.row_sense r ≡ lessened (at sample_senses.row_sense r))
convert_greater_to_less_example =
    convert_greater_to_less-coeffs ⦃num = mod_five⦄ sample_senses sample sample-IsProblem-mod_five
      (omega arith)
