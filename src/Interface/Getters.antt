-- ===== src/Interface/Getters.antt =====
-- The functions of cpp/src/linear_programming/cuopt_c.cpp that read a problem. The arguments are
-- the problem and what the out-pointers point to; the results are the code and what they point to.
use nvcuopt.Prelude.{
  ℕ, List, [], ◌∷◌, map, length, Bool, true, false, Option, none, some, if◌then◌else◌,
}
use nvcuopt.Settings.{cuopt_success, cuopt_invalid_argument}
use nvcuopt.Interface.Problem.{VarT, ProblemCategory, OptimizationProblem}
use nvcuopt.Interface.Create.{ℤ, cuopt_continuous, cuopt_integer}

-- raft::copy of a whole vector into the caller's buffer; what does not fit is lost.
unfoldable pub copy_out {ℓ} : {A : Type ℓ} → List A → List A → List A
copy_out [] buffer = buffer
copy_out (x ∷ xs) [] = []
copy_out (x ∷ xs) (y ∷ buffer) = x ∷ copy_out xs buffer

-- The two tests that each of these functions begins with.
abbrev pub with_handle {ℓ κ} :
    {P : Type ℓ} {A : Type κ} → Option P → Option A → (P → A → ℕ × A) → ℕ × Option A
with_handle none out body = (cuopt_invalid_argument, out)
with_handle (some p) none body = (cuopt_invalid_argument, none)
with_handle (some p) (some old) body = ((body p old).0, some (body p old).1)

unfoldable pub from_var_t : VarT → ℕ
from_var_t VarT.integer = cuopt_integer
from_var_t VarT.continuous = cuopt_continuous

-- problem_category == MIP || problem_category == IP
unfoldable pub is_mip_category : ProblemCategory → Bool
is_mip_category ProblemCategory.lp = false
is_mip_category ProblemCategory.mip = true
is_mip_category ProblemCategory.ip = true

module _ {F : Type 0} where
  unfoldable pub cuopt_get_num_constraints :
      Option (OptimizationProblem F) → Option ℕ → ℕ × Option ℕ
  cuopt_get_num_constraints problem out =
      with_handle problem out (λ p old. (cuopt_success, p.n_constraints))

  unfoldable pub cuopt_get_num_variables : Option (OptimizationProblem F) → Option ℕ → ℕ × Option ℕ
  cuopt_get_num_variables problem out = with_handle problem out (λ p old. (cuopt_success, p.n_vars))

  -- CUOPT_MAXIMIZE is -1 and CUOPT_MINIMIZE is 1.
  unfoldable pub cuopt_get_objective_sense :
      Option (OptimizationProblem F) → Option ℤ → ℕ × Option ℤ
  cuopt_get_objective_sense problem out =
      with_handle problem out (λ p old. (cuopt_success, if p.maximize then ℤ.negsuc 0 else ℤ.pos 1))

  unfoldable pub cuopt_get_objective_offset :
      Option (OptimizationProblem F) → Option F → ℕ × Option F
  cuopt_get_objective_offset problem out =
      with_handle problem out (λ p old. (cuopt_success, p.objective_offset))

  unfoldable pub cuopt_get_objective_coefficients :
      Option (OptimizationProblem F) → Option (List F) → ℕ × Option (List F)
  cuopt_get_objective_coefficients problem out =
      with_handle problem out (λ p buffer. (cuopt_success, copy_out p.c buffer))

  unfoldable pub cuopt_get_num_non_zeros : Option (OptimizationProblem F) → Option ℕ → ℕ × Option ℕ
  cuopt_get_num_non_zeros problem out =
      with_handle problem out (λ p old. (cuopt_success, length p.A))

  -- The buffers are those of the row offsets, the column indices and the coefficients.
  unfoldable pub cuopt_get_constraint_matrix :
      Option (OptimizationProblem F)
      → Option (List ℕ)
      → Option (List ℕ)
      → Option (List F)
      → ℕ × Option (List ℕ) × Option (List ℕ) × Option (List F)
  unfolding copy_out
  cuopt_get_constraint_matrix (some p) (some offsets) (some indices) (some values) = (
    cuopt_success,
    some (copy_out p.A_offsets offsets),
    some (copy_out p.A_indices indices),
    some (copy_out p.A values),
  )
  cuopt_get_constraint_matrix problem offsets indices values =
      (cuopt_invalid_argument, offsets, indices, values)

  unfoldable pub cuopt_get_constraint_sense :
      Option (OptimizationProblem F) → Option (List ℕ) → ℕ × Option (List ℕ)
  cuopt_get_constraint_sense problem out =
      with_handle problem out (λ p buffer. (cuopt_success, copy_out p.row_types buffer))

  unfoldable pub cuopt_get_constraint_right_hand_side :
      Option (OptimizationProblem F) → Option (List F) → ℕ × Option (List F)
  cuopt_get_constraint_right_hand_side problem out =
      with_handle problem out (λ p buffer. (cuopt_success, copy_out p.b buffer))

  unfoldable pub cuopt_get_constraint_lower_bounds :
      Option (OptimizationProblem F) → Option (List F) → ℕ × Option (List F)
  cuopt_get_constraint_lower_bounds problem out =
      with_handle problem out
        (λ p buffer. (cuopt_success, copy_out p.constraint_lower_bounds buffer))

  unfoldable pub cuopt_get_constraint_upper_bounds :
      Option (OptimizationProblem F) → Option (List F) → ℕ × Option (List F)
  cuopt_get_constraint_upper_bounds problem out =
      with_handle problem out
        (λ p buffer. (cuopt_success, copy_out p.constraint_upper_bounds buffer))

  unfoldable pub cuopt_get_variable_lower_bounds :
      Option (OptimizationProblem F) → Option (List F) → ℕ × Option (List F)
  cuopt_get_variable_lower_bounds problem out =
      with_handle problem out (λ p buffer. (cuopt_success, copy_out p.variable_lower_bounds buffer))

  unfoldable pub cuopt_get_variable_upper_bounds :
      Option (OptimizationProblem F) → Option (List F) → ℕ × Option (List F)
  cuopt_get_variable_upper_bounds problem out =
      with_handle problem out (λ p buffer. (cuopt_success, copy_out p.variable_upper_bounds buffer))

  unfoldable pub cuopt_get_variable_types :
      Option (OptimizationProblem F) → Option (List ℕ) → ℕ × Option (List ℕ)
  cuopt_get_variable_types problem out =
      with_handle problem out
        (λ p buffer. (cuopt_success, copy_out (map from_var_t p.variable_types) buffer))

  unfoldable pub cuopt_is_mip : Option (OptimizationProblem F) → Option ℕ → ℕ × Option ℕ
  cuopt_is_mip problem out =
      with_handle problem out
        (λ p old. (cuopt_success, if is_mip_category p.problem_category then 1 else 0))
