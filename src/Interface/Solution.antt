-- ===== src/Interface/Solution.antt =====
-- cuOptSolve and the functions of cpp/src/linear_programming/cuopt_c.cpp that read a solution. The
-- solvers are arguments, and so is the number 1000, by which a time is divided.
use nvcuopt.Prelude.{ℕ, List, Option, none, some, if◌then◌else◌}
use nvcuopt.Prelude.Num.{Num}
use nvcuopt.Settings.{cuopt_success, cuopt_invalid_argument}
use nvcuopt.Interface.Problem.{OptimizationProblem}
use nvcuopt.Interface.Getters.{copy_out, with_handle, is_mip_category}

-- What the code reads of mip_solution_t.
pub record MipSolution (F : Type 0) : Type 0 where
  pub termination_status : ℕ
  pub error_type : ℕ
  pub solution : List F
  pub objective : F
  pub total_solve_time : F
  pub mip_gap : F
  pub solution_bound : F

-- What the code reads of optimization_problem_solution_t.
pub record LpSolution (F : Type 0) : Type 0 where
  pub termination_status : ℕ
  pub error_type : ℕ
  pub primal_solution : List F
  pub dual_solution : List F
  pub reduced_cost : List F
  pub objective_value : F
  pub solve_time : F

-- solution_and_stream_view_t: is_mip says which pointer is set.
pub data Solution (F : Type 0) : Type 0 where
  of_mip : MipSolution F → Solution F
  of_lp : LpSolution F → Solution F

unfoldable pub error_type_of : {F : Type 0} → Solution F → ℕ
error_type_of (Solution.of_mip s) = s.error_type
error_type_of (Solution.of_lp s) = s.error_type

module _ {F S : Type 0} where
  -- The result is the error type of the solution, and what solution_ptr points to.
  unfoldable pub cuopt_solve :
      (OptimizationProblem F → S → MipSolution F)
      → (OptimizationProblem F → S → LpSolution F)
      → Option (OptimizationProblem F)
      → Option S
      → Option (Option (Solution F))
      → ℕ × Option (Option (Solution F))
  unfolding error_type_of
  cuopt_solve solve_mip solve_lp (some p) (some settings) (some old) =
      let s =
        if is_mip_category p.problem_category
        then Solution.of_mip (solve_mip p settings)
        else Solution.of_lp (solve_lp p settings) in
      (error_type_of s, some (some s))
  cuopt_solve solve_mip solve_lp problem settings solution_ptr =
      (cuopt_invalid_argument, solution_ptr)

module _ {F : Type 0} where
  unfoldable pub cuopt_destroy_solution :
      Option (Option (Solution F)) → Option (Option (Solution F))
  cuopt_destroy_solution none = none
  cuopt_destroy_solution (some none) = some none
  cuopt_destroy_solution (some (some s)) = some none

  -- A getter with one branch for each kind of solution.
  abbrev pub by_kind {ℓ} :
      {A : Type ℓ}
      → (MipSolution F → A → ℕ × A)
      → (LpSolution F → A → ℕ × A)
      → Option (Solution F)
      → Option A
      → ℕ × Option A
  by_kind mip lp solution out =
      with_handle solution out
        (λ s old. elim s [ Solution.of_mip m ↦ mip m old | Solution.of_lp l ↦ lp l old ])

  unfoldable pub cuopt_get_termination_status : Option (Solution F) → Option ℕ → ℕ × Option ℕ
  cuopt_get_termination_status =
      by_kind (λ s old. (cuopt_success, s.termination_status))
        (λ s old. (cuopt_success, s.termination_status))

  unfoldable pub cuopt_get_error_status : Option (Solution F) → Option ℕ → ℕ × Option ℕ
  cuopt_get_error_status =
      by_kind (λ s old. (cuopt_success, s.error_type)) (λ s old. (cuopt_success, s.error_type))

  unfoldable pub cuopt_get_primal_solution :
      Option (Solution F) → Option (List F) → ℕ × Option (List F)
  cuopt_get_primal_solution =
      by_kind (λ s buffer. (cuopt_success, copy_out s.solution buffer))
        (λ s buffer. (cuopt_success, copy_out s.primal_solution buffer))

  unfoldable pub cuopt_get_objective_value : Option (Solution F) → Option F → ℕ × Option F
  cuopt_get_objective_value =
      by_kind (λ s old. (cuopt_success, s.objective)) (λ s old. (cuopt_success, s.objective_value))

  unfoldable pub cuopt_get_mip_gap : Option (Solution F) → Option F → ℕ × Option F
  cuopt_get_mip_gap =
      by_kind (λ s old. (cuopt_success, s.mip_gap)) (λ s old. (cuopt_invalid_argument, old))

  unfoldable pub cuopt_get_solution_bound : Option (Solution F) → Option F → ℕ × Option F
  cuopt_get_solution_bound =
      by_kind (λ s old. (cuopt_success, s.solution_bound)) (λ s old. (cuopt_invalid_argument, old))

  unfoldable pub cuopt_get_dual_solution :
      Option (Solution F) → Option (List F) → ℕ × Option (List F)
  cuopt_get_dual_solution =
      by_kind (λ s buffer. (cuopt_invalid_argument, buffer))
        (λ s buffer. (cuopt_success, copy_out s.dual_solution buffer))

  unfoldable pub cuopt_get_reduced_costs :
      Option (Solution F) → Option (List F) → ℕ × Option (List F)
  cuopt_get_reduced_costs =
      by_kind (λ s buffer. (cuopt_invalid_argument, buffer))
        (λ s buffer. (cuopt_success, copy_out s.reduced_cost buffer))

  unfoldable pub cuopt_get_solve_time :
      ⦃num : Num F⦄ → F → Option (Solution F) → Option F → ℕ × Option F
  cuopt_get_solve_time ⦃num⦄ thousand =
      by_kind (λ s old. (cuopt_success, s.total_solve_time))
        (λ s old. (cuopt_success, num.div s.solve_time thousand))
