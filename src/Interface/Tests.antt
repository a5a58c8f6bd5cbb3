-- ===== src/Interface/Tests.antt =====
-- Runs of the functions of cpp/src/linear_programming/cuopt_c.cpp on a small problem.
use nvcuopt.Prelude.{ℕ, ◌≡◌, refl, List, [], ◌∷◌, length, true, false, none, some, arith}
use nvcuopt.Prelude.Num.{nat_num}
use nvcuopt.Settings.{cuopt_success, cuopt_invalid_argument}
use nvcuopt.Interface.Problem.{
  ProblemCategory, OptimizationProblem, assign, assign_or_empty, set_row_types,
  set_constraint_bounds, set_csr_constraint_matrix, set_objective_coefficients,
  set_variable_lower_bounds, set_variable_upper_bounds, set_variable_types,
}
use nvcuopt.Interface.Create.{
  ℤ, is_maximize, is_null, some_null, entries, variable_types_host, fill_problem, hand_out,
  set_senses, new_problem, cuopt_create_problem, cuopt_create_ranged_problem,
}
use nvcuopt.Interface.Getters.{
  is_mip_category, copy_out, cuopt_get_constraint_sense, cuopt_get_constraint_right_hand_side,
  cuopt_get_constraint_lower_bounds, cuopt_get_constraint_upper_bounds,
}
use nvcuopt.Interface.Solution.{
  MipSolution, LpSolution, Solution, cuopt_solve, error_type_of, cuopt_get_dual_solution,
  cuopt_get_primal_solution,
}
use nvcuopt.Interface.Given.{Given, IsComplete, arguments}
use nvcuopt.Interface.ReadBack.{
  ReadsBack, cuopt_create_problem-ReadsBack, cuopt_create_ranged_problem-ReadsBack,
}

-- Maximize 5 x0 + 4 x1, where x0 is an integer, with 6 x0 + 4 x1 ≤ 24 and x0 + 2 x1 ≤ 6.
abbrev given : Given ℕ
given = record {
  num_constraints = 2;
  num_variables = 2;
  objective_sense = ℤ.negsuc 0;
  objective_offset = 0;
  objective_coefficients = 5 ∷ 4 ∷ [];
  row_offsets = 0 ∷ 2 ∷ 4 ∷ [];
  column_indices = 0 ∷ 1 ∷ 0 ∷ 1 ∷ [];
  coefficient_values = 6 ∷ 4 ∷ 1 ∷ 2 ∷ [];
  lower_bounds = 0 ∷ 0 ∷ [];
  upper_bounds = 9 ∷ 9 ∷ [];
  variable_types = b'I' ∷ b'C' ∷ [];
}

given-IsComplete : IsComplete given
given-IsComplete = record {
  has_variable = omega arith;
  coefficients = refl;
  offsets = refl;
  indices = refl;
  values = refl;
  lower = refl;
  upper = refl;
  types = refl;
}

abbrev senses : List ℕ
senses = b'L' ∷ b'L' ∷ []

abbrev right_hand_sides : List ℕ
right_hand_sides = 24 ∷ 6 ∷ []

-- Of no variables, where data() of an empty vector is null, the exception of set_variable_types
-- leaves the function.
no_variable_runs :
    cuopt_create_problem true
      (record (arguments given) {
        num_variables = 0;
        objective_coefficients = some [];
        lower_bounds = some [];
        upper_bounds = some [];
        variable_types = some [];
      })
      (some senses)
      (some right_hand_sides)
      (some none)
    ≡ none
unfolding cuopt_create_problem some_null is_null fill_problem entries variable_types_host
    is_maximize set_senses set_row_types set_constraint_bounds set_objective_coefficients
    set_csr_constraint_matrix set_variable_lower_bounds set_variable_upper_bounds set_variable_types
    assign assign_or_empty hand_out
no_variable_runs = refl

abbrev mip_solver : OptimizationProblem ℕ → ℕ → MipSolution ℕ
mip_solver p settings = record {
  termination_status = 1;
  error_type = 0;
  solution = 3 ∷ 1 ∷ [];
  objective = 19;
  total_solve_time = 2;
  mip_gap = 0;
  solution_bound = 20;
}

abbrev lp_solver : OptimizationProblem ℕ → ℕ → LpSolution ℕ
lp_solver p settings = record {
  termination_status = 1;
  error_type = 0;
  primal_solution = 3 ∷ 1 ∷ [];
  dual_solution = 1 ∷ 1 ∷ [];
  reduced_cost = 0 ∷ 0 ∷ [];
  objective_value = 21;
  solve_time = 5;
}

create_problem_example :
    (p : OptimizationProblem ℕ) × (cuopt_create_problem false
        (arguments given)
        (some senses)
        (some right_hand_sides)
        (some none)
      ≡ some (cuopt_success, some (some p)))
    × ReadsBack given (some p)
    × ((buffer : List ℕ)
        → length buffer ≡ 2
        → cuopt_get_constraint_sense (some p) (some buffer) ≡ (cuopt_success, some senses))
    × ((buffer : List ℕ)
        → length buffer ≡ 2
        → cuopt_get_constraint_right_hand_side (some p) (some buffer)
          ≡ (cuopt_success, some right_hand_sides))
create_problem_example =
    cuopt_create_problem-ReadsBack false given senses right_hand_sides none given-IsComplete refl
      refl

create_ranged_problem_example :
    (p : OptimizationProblem ℕ) × (cuopt_create_ranged_problem true
        (arguments given)
        (some (0 ∷ 1 ∷ []))
        (some right_hand_sides)
        (some none)
      ≡ some (cuopt_success, some (some p)))
    × ReadsBack given (some p)
    × ((buffer : List ℕ)
        → length buffer ≡ 2
        → cuopt_get_constraint_lower_bounds (some p) (some buffer)
          ≡ (cuopt_success, some (0 ∷ 1 ∷ [])))
    × ((buffer : List ℕ)
        → length buffer ≡ 2
        → cuopt_get_constraint_upper_bounds (some p) (some buffer)
          ≡ (cuopt_success, some right_hand_sides))
create_ranged_problem_example =
    cuopt_create_ranged_problem-ReadsBack true given (0 ∷ 1 ∷ []) right_hand_sides none
      given-IsComplete refl refl

abbrev mixed : OptimizationProblem ℕ
mixed = record new_problem { problem_category = ProblemCategory.mip }

-- A problem with an integer variable goes to solve_mip, and its solution has no dual values.
solve_runs : cuopt_solve mip_solver lp_solver (some mixed) (some 0) (some none) ≡ (
  error_type_of (Solution.of_mip (mip_solver mixed 0)),
  some (some (Solution.of_mip (mip_solver mixed 0))),
)
unfolding cuopt_solve error_type_of is_mip_category
solve_runs = refl

dual_of_mip_runs :
    cuopt_get_dual_solution (some (Solution.of_mip (mip_solver mixed 0))) (some (9 ∷ []))
    ≡ (cuopt_invalid_argument, some (9 ∷ []))
unfolding cuopt_get_dual_solution
dual_of_mip_runs = refl

primal_of_mip_runs :
    cuopt_get_primal_solution (some (Solution.of_mip (mip_solver mixed 0))) (some (9 ∷ 9 ∷ []))
    ≡ (cuopt_success, some (mip_solver mixed 0).solution)
unfolding cuopt_get_primal_solution copy_out
primal_of_mip_runs = refl
