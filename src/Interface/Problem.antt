-- ===== src/Interface/Problem.antt =====
-- optimization_problem_t of cpp/src/linear_programming/optimization_problem.cu and of its header:
-- the setters that the C interface calls. Sizes are natural numbers. The names, the scaling factor
-- of the objective and the device handle are left out.
use nvcuopt.Prelude.{
  ℕ, zero, suc, List, [], ◌∷◌, resize, ◌>>=◌, Bool, ltb, ◌==◌, Option, none, some, if◌then◌else◌,
}
use nvcuopt.Prelude.Num.{Num}

pub data VarT : Type 0 where
  continuous : VarT
  integer : VarT

-- problem_category_t
pub data ProblemCategory : Type 0 where
  lp : ProblemCategory
  mip : ProblemCategory
  ip : ProblemCategory

-- b, c and A are b_, c_ and A_; the other fields have the code's names without the last `_`.
pub record OptimizationProblem (F : Type 0) : Type 0 where
  pub maximize : Bool
  pub n_vars : ℕ
  pub n_constraints : ℕ
  pub A : List F
  pub A_indices : List ℕ
  pub A_offsets : List ℕ
  pub b : List F
  pub c : List F
  pub objective_offset : F
  pub variable_lower_bounds : List F
  pub variable_upper_bounds : List F
  pub constraint_lower_bounds : List F
  pub constraint_upper_bounds : List F
  pub row_types : List ℕ
  pub variable_types : List VarT
  pub problem_category : ProblemCategory

-- thrust::count_if(..., val == var_t::INTEGER)
unfoldable pub count_integer : List VarT → ℕ
count_integer [] = 0
count_integer (VarT.integer ∷ ts) = suc (count_integer ts)
count_integer (VarT.continuous ∷ ts) = count_integer ts

-- The vector is resized to n, which is taken to have a result, and the first n entries behind the
-- pointer are copied; where fewer stand there the code reads past their end, which is undefined, and
-- the default follows here. With the null
-- pointer and n = 0 nothing is copied; with the null pointer otherwise, `cuopt_expects` throws.
unfoldable pub assign_or_empty {ℓ} : {A : Type ℓ} → A → Option (List A) → ℕ → Option (List A)
assign_or_empty d none zero = some []
assign_or_empty d none (suc n) = none
assign_or_empty d (some source) n = some (resize n d source)

-- The same, where the null pointer is refused whatever the size.
unfoldable pub assign {ℓ} : {A : Type ℓ} → A → Option (List A) → ℕ → Option (List A)
assign d none n = none
assign d (some source) n = some (resize n d source)

-- The category after `set_variable_types`; it stays where no variable is an integer.
unfoldable pub category_of : List VarT → ℕ → ProblemCategory → ProblemCategory
category_of types size old =
    let n_integer = count_integer types in
    if n_integer == size
    then ProblemCategory.ip
    else if ltb 0 n_integer
    then ProblemCategory.mip
    else old

-- `none` is cuopt::logic_error, thrown by `cuopt_expects`.
module _ {F : Type 0} ⦃num : Num F⦄ where
  unfoldable pub set_csr_constraint_matrix :
      Option (List F)
      → ℕ
      → Option (List ℕ)
      → ℕ
      → Option (List ℕ)
      → ℕ
      → OptimizationProblem F
      → Option (OptimizationProblem F)
  unfolding assign assign_or_empty
  set_csr_constraint_matrix A_values size_values A_indices size_indices A_offsets size_offsets p =
      do
        values ← assign_or_empty num.nought A_values size_values
        indices ← assign_or_empty 0 A_indices size_indices
        offsets ← assign 0 A_offsets size_offsets
        some (record p { A = values; A_indices = indices; A_offsets = offsets })

  unfoldable pub set_constraint_bounds :
      Option (List F) → ℕ → OptimizationProblem F → Option (OptimizationProblem F)
  unfolding assign
  set_constraint_bounds b size p = do
    values ← assign num.nought b size
    some (record p { b = values; n_constraints = size })

  unfoldable pub set_objective_coefficients :
      Option (List F) → ℕ → OptimizationProblem F → Option (OptimizationProblem F)
  unfolding assign
  set_objective_coefficients c size p = do
    values ← assign num.nought c size
    some (record p { c = values; n_vars = size })

  unfoldable pub set_variable_lower_bounds :
      Option (List F) → ℕ → OptimizationProblem F → Option (OptimizationProblem F)
  unfolding assign_or_empty
  set_variable_lower_bounds bounds size p = do
    values ← assign_or_empty num.nought bounds size
    some (record p { variable_lower_bounds = values; n_vars = size })

  unfoldable pub set_variable_upper_bounds :
      Option (List F) → ℕ → OptimizationProblem F → Option (OptimizationProblem F)
  unfolding assign_or_empty
  set_variable_upper_bounds bounds size p = do
    values ← assign_or_empty num.nought bounds size
    some (record p { variable_upper_bounds = values; n_vars = size })

  unfoldable pub set_constraint_lower_bounds :
      Option (List F) → ℕ → OptimizationProblem F → Option (OptimizationProblem F)
  unfolding assign_or_empty
  set_constraint_lower_bounds bounds size p = do
    values ← assign_or_empty num.nought bounds size
    some (record p { constraint_lower_bounds = values; n_constraints = size })

  unfoldable pub set_constraint_upper_bounds :
      Option (List F) → ℕ → OptimizationProblem F → Option (OptimizationProblem F)
  unfolding assign_or_empty
  set_constraint_upper_bounds bounds size p = do
    values ← assign_or_empty num.nought bounds size
    some (record p { constraint_upper_bounds = values; n_constraints = size })

unfoldable pub set_row_types :
    {F : Type 0} → Option (List ℕ) → ℕ → OptimizationProblem F → Option (OptimizationProblem F)
unfolding assign
set_row_types types size p = do
  values ← assign 0 types size
  some (record p { row_types = values; n_constraints = size })

unfoldable pub set_variable_types :
    {F : Type 0} → Option (List VarT) → ℕ → OptimizationProblem F → Option (OptimizationProblem F)
unfolding assign category_of
set_variable_types types size p = do
  values ← assign VarT.continuous types size
  some (record p {
    variable_types = values;
    problem_category = category_of values size p.problem_category;
  })
