-- ===== src/Scaling/Tests.antt =====
-- Runs of cpp/src/dual_simplex/scaling.cpp.
use nvcuopt.Prelude.{
  ℕ, suc, ◌≤◌, ◌<◌, ◌≡◌, ◌≢◌, refl, [], ◌∷◌, Bool, true, false, arith, All, All-span, if◌then◌else◌,
  ◌==◌,
}
use nvcuopt.Prelude.Num.{nat_num, mod_two}
use nvcuopt.Sparse.Matrix.{Csc, at, val}
use nvcuopt.Sparse.Layout.{cols, segment, IsLayout}
use nvcuopt.Sparse.Algebra.{mod_two-IsSemiring}
use nvcuopt.Presolve.Problem.{LpProblem}
use nvcuopt.Presolve.Greater.{IsProblem}
use nvcuopt.Presolve.Activity.{activity}
use nvcuopt.Presolve.Marking.{objective_at}
use nvcuopt.Scaling.{
  column_norm, scale_values, divide_each, multiply_each, column_scaling, unscale_solution,
}
use nvcuopt.Scaling.Columns.{Scales, norm_of, column_scaling-Scales}
use nvcuopt.Scaling.Unscale.{IsExact, unscale_solution-column_scaling}

-- It knows two square roots.
abbrev root : ℕ → ℕ
root a = if a == 25 then 5 else 2

-- The columns (3, 4) and (2, 0).
abbrev columns : Csc ℕ
columns = record {
  nz_max = 3;
  m = 2;
  n = 2;
  col_start = 0 ∷ 2 ∷ 3 ∷ [];
  i = 0 ∷ 1 ∷ 0 ∷ [];
  x = 3 ∷ 4 ∷ 2 ∷ [];
}

abbrev problem : LpProblem ℕ
problem = record {
  num_rows = 2;
  num_cols = 2;
  objective = 10 ∷ 6 ∷ [];
  A = columns;
  rhs = 9 ∷ 9 ∷ [];
  lower = 0 ∷ 1 ∷ [];
  upper = 7 ∷ 8 ∷ [];
  obj_constant = 0;
  obj_scale = 1;
}

column_scaling_runs : column_scaling root true problem [] ≡ (
  record problem {
    A = record columns { x = 0 ∷ 0 ∷ 1 ∷ [] };
    objective = 2 ∷ 3 ∷ [];
    lower = 0 ∷ 2 ∷ [];
    upper = 35 ∷ 16 ∷ [];
  },
  5 ∷ 2 ∷ [],
)
unfolding column_scaling column_norm scale_values divide_each multiply_each
column_scaling_runs = refl

-- The second column has cost 6 and the entry 2. With the row's dual 1 its reduced cost is
-- 6 - 2 * 1 = 4, and that of the scaled column is 3 - 1 * 1 = 2; `unscale_solution` gives 1.
reduced_cost_runs :
    unscale_solution {F = ℕ} (5 ∷ 2 ∷ []) (0 ∷ 4 ∷ []) (0 ∷ 2 ∷ []) [] [] ≡ (0 ∷ 2 ∷ [], 0 ∷ 1 ∷ [])
unfolding unscale_solution
reduced_cost_runs = refl

columns-IsLayout : IsLayout 2 2 (cols columns)
columns-IsLayout = record {
  starts_size = refl;
  first = refl;
  rising = λ j lt.
      All-span (λ k. at columns.col_start k ≤ at columns.col_start (suc k)) 0 2
        (omega arith, (omega arith, tt)) j (omega arith) lt;
  index_room = omega arith;
  value_room = omega arith;
  bounded = λ j lt.
      All-span (λ k. All (λ e. e.0 < 2) (segment (cols columns) k)) 0 2
        ((omega arith, (omega arith, tt)), ((omega arith, tt), tt)) j (omega arith) lt;
}

problem-IsProblem : IsProblem problem
problem-IsProblem = record {
  layout = columns-IsLayout;
  columns = refl;
  matrix_rows = refl;
  sides = omega arith;
}

column_scaling_example :
    Scales
      (λ j. norm_of root (segment (cols columns) j))
      problem
      (column_scaling root true problem []).0
      (column_scaling root true problem []).1
column_scaling_example =
    column_scaling-Scales root problem [] problem-IsProblem (omega arith) (omega arith)
      (omega arith)

mod_two-IsExact : IsExact mod_two
mod_two-IsExact = record { semiring = mod_two-IsSemiring; div_mul = λ a s v ne. refl }

abbrev bits : Csc Bool
bits = record {
  nz_max = 3;
  m = 2;
  n = 2;
  col_start = 0 ∷ 2 ∷ 3 ∷ [];
  i = 0 ∷ 1 ∷ 0 ∷ [];
  x = true ∷ true ∷ true ∷ [];
}

abbrev bit_problem : LpProblem Bool
bit_problem = record {
  num_rows = 2;
  num_cols = 2;
  objective = true ∷ true ∷ [];
  A = bits;
  rhs = true ∷ false ∷ [];
  lower = false ∷ false ∷ [];
  upper = true ∷ true ∷ [];
  obj_constant = true;
  obj_scale = true;
}

bit_problem-IsProblem : IsProblem bit_problem
bit_problem-IsProblem = record {
  layout = record {
    starts_size = refl;
    first = refl;
    rising = columns-IsLayout.rising;
    index_room = omega arith;
    value_room = omega arith;
    bounded = λ j lt.
        All-span (λ k. All (λ e. e.0 < 2) (segment (cols bits) k)) 0 2
          ((omega arith, (omega arith, tt)), ((omega arith, tt), tt)) j (omega arith) lt;
  };
  columns = refl;
  matrix_rows = refl;
  sides = omega arith;
}

bits-norm : (j : ℕ) → j < 2 → column_norm {F = Bool} (λ a. a) bits j ≢ false
unfolding column_norm
bits-norm j lt =
    All-span (λ k. column_norm {F = Bool} (λ a. a) bits k ≢ false) 0 2
      (λ e. absurd (ground arith), (λ e. absurd (ground arith), tt)) j (omega arith) lt

unscale_solution_example :
    let (R, s) = column_scaling {F = Bool} (λ a. a) true bit_problem [] in
    let (x, z) = unscale_solution s (true ∷ false ∷ []) [] [] [] in
    ((r : ℕ) → activity bit_problem (val x) r ≡ activity R (val (true ∷ false ∷ [])) r)
    × (objective_at bit_problem (val x) ≡ objective_at R (val (true ∷ false ∷ [])))
unscale_solution_example =
    unscale_solution-column_scaling mod_two-IsExact (λ a. a) bit_problem [] (true ∷ false ∷ []) []
      [] [] bit_problem-IsProblem (omega arith) (omega arith) (omega arith) refl bits-norm
