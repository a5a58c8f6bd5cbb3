-- ===== src/Interface/Create.antt =====
-- cuOptCreateProblem, cuOptCreateRangedProblem and cuOptDestroyProblem of
-- cpp/src/linear_programming/cuopt_c.cpp. A pointer is an option, null is `none`; problem_ptr points
-- to a handle, which may itself be null.
use nvcuopt.Prelude.{
  ℕ, zero, suc, ◌+◌, List, [], map, span, Bool, true, false, ◌||◌, ◌==◌, Option, none, some,
  if◌then◌else◌, ◌>>=◌, get_or,
}
use nvcuopt.Prelude.Num.{Num}
use nvcuopt.Settings.{cuopt_success, cuopt_invalid_argument}
use nvcuopt.Interface.Problem.{
  VarT, ProblemCategory, OptimizationProblem, set_csr_constraint_matrix, set_constraint_bounds,
  set_objective_coefficients, set_variable_lower_bounds, set_variable_upper_bounds,
  set_constraint_lower_bounds, set_constraint_upper_bounds, set_row_types, set_variable_types,
}

-- cuopt_int_t with its sign; `negsuc n` is -(n + 1).
pub data ℤ : Type 0 where
  pos : ℕ → ℤ
  negsuc : ℕ → ℤ

-- objective_sense == CUOPT_MAXIMIZE, which is -1.
unfoldable pub is_maximize : ℤ → Bool
is_maximize (ℤ.pos n) = false
is_maximize (ℤ.negsuc zero) = true
is_maximize (ℤ.negsuc (suc n)) = false

-- CUOPT_CONTINUOUS and CUOPT_INTEGER
abbrev pub cuopt_continuous : ℕ
cuopt_continuous = 67

abbrev pub cuopt_integer : ℕ
cuopt_integer = 73

unfoldable pub to_var_t : ℕ → VarT
to_var_t c = if c == cuopt_continuous then VarT.continuous else VarT.integer

-- The arguments that the two functions share. In the code the sizes and the offsets are signed
-- numbers; here none is negative. A negative size makes a resize throw an exception that is not
-- caught.
pub record Arguments (F : Type 0) : Type 0 where
  pub num_constraints : ℕ
  pub num_variables : ℕ
  pub objective_sense : ℤ
  pub objective_offset : F
  pub objective_coefficients : Option (List F)
  pub row_offsets : Option (List ℕ)
  pub column_indices : Option (List ℕ)
  pub coefficient_values : Option (List F)
  pub lower_bounds : Option (List F)
  pub upper_bounds : Option (List F)
  pub variable_types : Option (List ℕ)

unfoldable pub is_null {ℓ} : {A : Type ℓ} → Option A → Bool
is_null none = true
is_null (some a) = false

-- What a non-null pointer points to.
unfoldable pub entries {ℓ} : {A : Type ℓ} → Option (List A) → List A
entries none = []
entries (some values) = values

-- `variable_types_host.data()`: of an empty vector it is the null pointer where `empty_is_null`
-- says so, which the language leaves open.
unfoldable pub variable_types_host : Bool → ℕ → List ℕ → Option (List VarT)
unfolding to_var_t
variable_types_host empty_is_null zero types = if empty_is_null then none else some []
variable_types_host empty_is_null (suc n) types =
    some (map (λ j. to_var_t (get_or types j 0)) (span 0 (suc n)))

module _ {F : Type 0} ⦃num : Num F⦄ where
  -- The test of both functions on the pointers that they share.
  unfoldable pub some_null : Arguments F → Bool
  unfolding is_null
  some_null a =
      is_null a.objective_coefficients
      || is_null a.row_offsets
      || is_null a.column_indices
      || is_null a.coefficient_values
      || is_null a.lower_bounds
      || is_null a.upper_bounds
      || is_null a.variable_types

  -- optimization_problem_t(handle)
  abbrev pub new_problem : OptimizationProblem F
  new_problem = record {
    maximize = false;
    n_vars = 0;
    n_constraints = 0;
    A = [];
    A_indices = [];
    A_offsets = [];
    b = [];
    c = [];
    objective_offset = num.nought;
    variable_lower_bounds = [];
    variable_upper_bounds = [];
    constraint_lower_bounds = [];
    constraint_upper_bounds = [];
    row_types = [];
    variable_types = [];
    problem_category = ProblemCategory.lp;
  }

  -- The try block of both functions; `set_rows` is the part between the matrix and the bounds of the
  -- variables, in which they differ.
  unfoldable pub fill_problem :
      Bool
      → (OptimizationProblem F → Option (OptimizationProblem F))
      → Arguments F
      → Option (OptimizationProblem F)
  unfolding entries variable_types_host is_maximize set_objective_coefficients
      set_csr_constraint_matrix set_variable_lower_bounds set_variable_upper_bounds
      set_variable_types
  fill_problem empty_is_null set_rows a = do
    let m = a.num_constraints
    let n = a.num_variables
    let start = record new_problem {
      maximize = is_maximize a.objective_sense;
      objective_offset = a.objective_offset;
    }
    p ← set_objective_coefficients a.objective_coefficients n start
    let nnz = get_or (entries a.row_offsets) m 0
    q ←
        set_csr_constraint_matrix a.coefficient_values nnz a.column_indices nnz a.row_offsets
          (m + 1) p
    r ← set_rows q
    s ← set_variable_lower_bounds a.lower_bounds n r
    t ← set_variable_upper_bounds a.upper_bounds n s
    set_variable_types (variable_types_host empty_is_null n (entries a.variable_types)) n t

  -- The handler takes only raft::exception, so `none`, a cuopt::logic_error, leaves the function.
  unfoldable pub hand_out :
      Option (OptimizationProblem F) → Option (ℕ × Option (Option (OptimizationProblem F)))
  hand_out none = none
  hand_out (some p) = some (cuopt_success, some (some p))

  -- The rows of cuOptCreateProblem.
  unfoldable pub set_senses :
      Option (List ℕ) → Option (List F) → ℕ → OptimizationProblem F → Option (OptimizationProblem F)
  unfolding set_row_types set_constraint_bounds
  set_senses constraint_sense rhs m p = do
    q ← set_row_types constraint_sense m p
    set_constraint_bounds rhs m q

  -- The rows of cuOptCreateRangedProblem.
  unfoldable pub set_ranges :
      Option (List F) → Option (List F) → ℕ → OptimizationProblem F → Option (OptimizationProblem F)
  unfolding set_constraint_lower_bounds set_constraint_upper_bounds
  set_ranges lower upper m p = do
    q ← set_constraint_lower_bounds lower m p
    set_constraint_upper_bounds upper m q

  unfoldable pub cuopt_create_problem :
      Bool
      → Arguments F
      → Option (List ℕ)
      → Option (List F)
      → Option (Option (OptimizationProblem F))
      → Option (ℕ × Option (Option (OptimizationProblem F)))
  unfolding is_null some_null fill_problem hand_out set_senses
  cuopt_create_problem empty_is_null a constraint_sense rhs problem_ptr =
      if is_null problem_ptr || some_null a || is_null constraint_sense || is_null rhs
      then some (cuopt_invalid_argument, problem_ptr)
      else hand_out
          (fill_problem empty_is_null (set_senses constraint_sense rhs a.num_constraints) a)

  unfoldable pub cuopt_create_ranged_problem :
      Bool
      → Arguments F
      → Option (List F)
      → Option (List F)
      → Option (Option (OptimizationProblem F))
      → Option (ℕ × Option (Option (OptimizationProblem F)))
  unfolding is_null some_null fill_problem hand_out set_ranges
  cuopt_create_ranged_problem empty_is_null a lower upper problem_ptr =
      if is_null problem_ptr || some_null a || is_null lower || is_null upper
      then some (cuopt_invalid_argument, problem_ptr)
      else hand_out (fill_problem empty_is_null (set_ranges lower upper a.num_constraints) a)

unfoldable pub cuopt_destroy_problem :
    {F : Type 0} → Option (Option (OptimizationProblem F)) → Option (Option (OptimizationProblem F))
cuopt_destroy_problem none = none
cuopt_destroy_problem (some none) = some none
cuopt_destroy_problem (some (some problem)) = some none
