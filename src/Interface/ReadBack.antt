-- ===== src/Interface/ReadBack.antt =====
-- The problem that cuOptCreateProblem of cpp/src/linear_programming/cuopt_c.cpp fills in, read back
-- by the functions that read a problem.
use nvcuopt.Prelude.{
  ℕ, ◌≡◌, refl, sym, ap, ◌∙◌, List, [], map, length, length-map, Bool, Option, some, get_or,
  if◌then◌else◌,
}
use nvcuopt.Prelude.Num.{Num}
use nvcuopt.Settings.{cuopt_success}
use nvcuopt.Interface.Problem.{
  OptimizationProblem, assign, assign_or_empty, set_row_types, set_constraint_bounds,
  set_constraint_lower_bounds, set_constraint_upper_bounds,
}
use nvcuopt.Interface.Create.{
  ℤ, is_maximize, is_null, some_null, hand_out, set_senses, set_ranges, cuopt_create_problem,
  cuopt_create_ranged_problem,
}
use nvcuopt.Interface.Getters.{
  cuopt_get_num_constraints, cuopt_get_num_variables, cuopt_get_objective_sense,
  cuopt_get_objective_offset, cuopt_get_objective_coefficients, cuopt_get_num_non_zeros,
  cuopt_get_constraint_matrix, cuopt_get_constraint_sense, cuopt_get_constraint_right_hand_side,
  cuopt_get_constraint_lower_bounds, cuopt_get_constraint_upper_bounds,
  cuopt_get_variable_lower_bounds, cuopt_get_variable_upper_bounds, cuopt_get_variable_types,
  cuopt_is_mip,
}
use nvcuopt.Interface.Types.{
  copy_out_all, type_read, has_integer, from_var_t-to_var_t, category_of-has_integer,
}
use nvcuopt.Interface.Given.{
  Given, IsComplete, arguments, begun, finished, resize_all, fill_problem-finished,
}

module _ {F : Type 0} where
  -- What the getters give, with buffers of the sizes that they need.
  pub record ReadsBack (g : Given F) (problem : Option (OptimizationProblem F)) : Type 0 where
    pub num_constraints :
        (old : ℕ)
        → cuopt_get_num_constraints problem (some old) ≡ (cuopt_success, some g.num_constraints)
    pub num_variables :
        (old : ℕ)
        → cuopt_get_num_variables problem (some old) ≡ (cuopt_success, some g.num_variables)
    pub objective_sense :
        (old : ℤ)
        → cuopt_get_objective_sense problem (some old)
          ≡ (cuopt_success, some (if is_maximize g.objective_sense then ℤ.negsuc 0 else ℤ.pos 1))
    pub objective_offset :
        (old : F)
        → cuopt_get_objective_offset problem (some old) ≡ (cuopt_success, some g.objective_offset)
    pub objective_coefficients :
        (buffer : List F)
        → length buffer ≡ length g.objective_coefficients
        → cuopt_get_objective_coefficients problem (some buffer)
          ≡ (cuopt_success, some g.objective_coefficients)
    pub num_non_zeros :
        (old : ℕ)
        → cuopt_get_num_non_zeros problem (some old)
          ≡ (cuopt_success, some (get_or g.row_offsets g.num_constraints 0))
    pub constraint_matrix :
        (offsets indices : List ℕ) (values : List F)
        → length offsets ≡ length g.row_offsets
        → length indices ≡ length g.column_indices
        → length values ≡ length g.coefficient_values
        → cuopt_get_constraint_matrix problem (some offsets) (some indices) (some values)
          ≡ (cuopt_success, some g.row_offsets, some g.column_indices, some g.coefficient_values)
    pub variable_lower_bounds :
        (buffer : List F)
        → length buffer ≡ length g.lower_bounds
        → cuopt_get_variable_lower_bounds problem (some buffer)
          ≡ (cuopt_success, some g.lower_bounds)
    pub variable_upper_bounds :
        (buffer : List F)
        → length buffer ≡ length g.upper_bounds
        → cuopt_get_variable_upper_bounds problem (some buffer)
          ≡ (cuopt_success, some g.upper_bounds)
    pub variable_types :
        (buffer : List ℕ)
        → length buffer ≡ length g.variable_types
        → cuopt_get_variable_types problem (some buffer)
          ≡ (cuopt_success, some (map type_read g.variable_types))
    pub is_mip :
        (old : ℕ)
        → cuopt_is_mip problem (some old)
          ≡ (cuopt_success, some (if has_integer g.variable_types then 1 else 0))

module _ {F : Type 0} ⦃num : Num F⦄ where
  -- The rows, in either form, between the two parts of the filling.
  abbrev rowed : Given F → List ℕ → List F → List F → List F → OptimizationProblem F
  rowed g types b lower upper = record (begun g) {
    n_constraints = g.num_constraints;
    row_types = types;
    b = b;
    constraint_lower_bounds = lower;
    constraint_upper_bounds = upper;
  }

  finished-ReadsBack :
      (g : Given F) (types : List ℕ) (b lower upper : List F)
      → IsComplete g
      → ReadsBack g (some (finished g (rowed g types b lower upper)))
  unfolding cuopt_get_num_constraints cuopt_get_num_variables cuopt_get_objective_sense
      cuopt_get_objective_offset cuopt_get_objective_coefficients cuopt_get_num_non_zeros
      cuopt_get_constraint_matrix cuopt_get_variable_lower_bounds cuopt_get_variable_upper_bounds
      cuopt_get_variable_types cuopt_is_mip
  finished-ReadsBack g types b lower upper h = record {
    num_constraints = λ old. refl;
    num_variables = λ old. refl;
    objective_sense = λ old. refl;
    objective_offset = λ old. refl;
    objective_coefficients = λ buffer e. rw (copy_out_all g.objective_coefficients buffer e) refl;
    num_non_zeros = λ old. rw h.values refl;
    constraint_matrix = λ offsets indices values eo ei ev.
        rw
          (
            copy_out_all g.row_offsets offsets eo,
            copy_out_all g.column_indices indices ei,
            copy_out_all g.coefficient_values values ev,
          )
          refl;
    variable_lower_bounds = λ buffer e. rw (copy_out_all g.lower_bounds buffer e) refl;
    variable_upper_bounds = λ buffer e. rw (copy_out_all g.upper_bounds buffer e) refl;
    variable_types = λ buffer e.
        rw
          (
            from_var_t-to_var_t g.variable_types,
            copy_out_all (map type_read g.variable_types) buffer
                (e ∙ sym (length-map type_read g.variable_types)),
          )
          refl;
    is_mip =
        λ old. rw (category_of-has_integer g.variable_types g.num_variables h.has_variable) refl;
  }

  -- For arrays of the sizes that it reads and at least one variable, cuOptCreateProblem succeeds,
  -- whatever the pointer to an empty vector is, and the getters give back what was passed: the
  -- sizes, the sense, the offset, the costs, the matrix, the senses and right-hand sides of the
  -- constraints and the bounds of the variables. Of a type they give back whether it was
  -- CUOPT_CONTINUOUS, and the problem is an integer or mixed one exactly if some type was not.
  pub cuopt_create_problem-ReadsBack :
      (empty_is_null : Bool) (g : Given F) (senses : List ℕ) (rhs : List F)
      (old : Option (OptimizationProblem F))
      → IsComplete g
      → length senses ≡ g.num_constraints
      → length rhs ≡ g.num_constraints
      → (p : OptimizationProblem F) × (cuopt_create_problem empty_is_null
            (arguments g)
            (some senses)
            (some rhs)
            (some old)
          ≡ some (cuopt_success, some (some p)))
        × ReadsBack g (some p)
        × ((buffer : List ℕ)
            → length buffer ≡ g.num_constraints
            → cuopt_get_constraint_sense (some p) (some buffer) ≡ (cuopt_success, some senses))
        × ((buffer : List F)
            → length buffer ≡ g.num_constraints
            → cuopt_get_constraint_right_hand_side (some p) (some buffer)
              ≡ (cuopt_success, some rhs))
  unfolding cuopt_create_problem some_null is_null hand_out cuopt_get_constraint_sense
      cuopt_get_constraint_right_hand_side set_senses set_row_types set_constraint_bounds assign
  cuopt_create_problem-ReadsBack empty_is_null g senses rhs old h es er = (
    finished g (rowed g senses rhs [] []),
    ap hand_out (
        fill_problem-finished empty_is_null (set_senses (some senses) (some rhs) g.num_constraints)
          g (rowed g senses rhs [] []) h
          (rw
            (
              resize_all g.num_constraints 0 senses es,
              resize_all g.num_constraints num.nought rhs er,
            )
            refl)),
    finished-ReadsBack g senses rhs [] [] h,
    λ buffer e. rw (copy_out_all senses buffer (e ∙ sym es)) refl,
    λ buffer e. rw (copy_out_all rhs buffer (e ∙ sym er)) refl,
  )

  -- For arrays of the sizes that it reads and at least one variable, cuOptCreateRangedProblem
  -- succeeds, whatever the pointer to an empty vector is, and the getters give back what was passed:
  -- the sizes, the sense, the offset, the costs, the matrix, the lower and upper bounds of the
  -- constraints and the bounds of the variables. Of a type they give back whether it was
  -- CUOPT_CONTINUOUS, and the problem is an integer or mixed one exactly if some type was not.
  pub cuopt_create_ranged_problem-ReadsBack :
      (empty_is_null : Bool) (g : Given F) (lower upper : List F)
      (old : Option (OptimizationProblem F))
      → IsComplete g
      → length lower ≡ g.num_constraints
      → length upper ≡ g.num_constraints
      → (p : OptimizationProblem F) × (cuopt_create_ranged_problem empty_is_null
            (arguments g)
            (some lower)
            (some upper)
            (some old)
          ≡ some (cuopt_success, some (some p)))
        × ReadsBack g (some p)
        × ((buffer : List F)
            → length buffer ≡ g.num_constraints
            → cuopt_get_constraint_lower_bounds (some p) (some buffer)
              ≡ (cuopt_success, some lower))
        × ((buffer : List F)
            → length buffer ≡ g.num_constraints
            → cuopt_get_constraint_upper_bounds (some p) (some buffer)
              ≡ (cuopt_success, some upper))
  unfolding cuopt_create_ranged_problem some_null is_null hand_out cuopt_get_constraint_lower_bounds
      cuopt_get_constraint_upper_bounds set_ranges set_constraint_lower_bounds
      set_constraint_upper_bounds assign_or_empty
  cuopt_create_ranged_problem-ReadsBack empty_is_null g lower upper old h el eu = (
    finished g (rowed g [] [] lower upper),
    ap hand_out (
        fill_problem-finished empty_is_null (set_ranges (some lower) (some upper) g.num_constraints)
          g (rowed g [] [] lower upper) h
          (rw
            (
              resize_all g.num_constraints num.nought lower el,
              resize_all g.num_constraints num.nought upper eu,
            )
            refl)),
    finished-ReadsBack g [] [] lower upper h,
    λ buffer e. rw (copy_out_all lower buffer (e ∙ sym el)) refl,
    λ buffer e. rw (copy_out_all upper buffer (e ∙ sym eu)) refl,
  )
