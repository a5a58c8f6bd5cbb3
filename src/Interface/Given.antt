-- ===== src/Interface/Given.antt =====
-- What cuOptCreateProblem and cuOptCreateRangedProblem of
-- cpp/src/linear_programming/cuopt_c.cpp store of arrays that have the sizes that they ask for.
use nvcuopt.Prelude.{
  ℕ, zero, suc, ◌+◌, ◌<◌, ◌≡◌, refl, sym, ap, ◌∙◌, List, [], ◌∷◌, map, length, length-map, span,
  map-get_or-span, resize, Bool, Option, some, get_or, arith,
}
use mathlib.Core.List.{map-map}
use nvcuopt.Prelude.Num.{Num}
use nvcuopt.Interface.Problem.{
  VarT, OptimizationProblem, category_of, assign, assign_or_empty, set_csr_constraint_matrix,
  set_objective_coefficients, set_variable_lower_bounds, set_variable_upper_bounds,
  set_variable_types,
}
use nvcuopt.Interface.Create.{
  ℤ, is_maximize, to_var_t, Arguments, entries, variable_types_host, new_problem, fill_problem,
}

-- The arrays that both functions take.
pub record Given (F : Type 0) : Type 0 where
  pub num_constraints : ℕ
  pub num_variables : ℕ
  pub objective_sense : ℤ
  pub objective_offset : F
  pub objective_coefficients : List F
  pub row_offsets : List ℕ
  pub column_indices : List ℕ
  pub coefficient_values : List F
  pub lower_bounds : List F
  pub upper_bounds : List F
  pub variable_types : List ℕ

-- Their sizes are those that the functions read, and there is a variable.
pub record IsComplete {F : Type 0} (g : Given F) : Type 0 where
  pub has_variable : 0 < g.num_variables
  pub coefficients : length g.objective_coefficients ≡ g.num_variables
  pub offsets : length g.row_offsets ≡ g.num_constraints + 1
  pub indices : length g.column_indices ≡ get_or g.row_offsets g.num_constraints 0
  pub values : length g.coefficient_values ≡ get_or g.row_offsets g.num_constraints 0
  pub lower : length g.lower_bounds ≡ g.num_variables
  pub upper : length g.upper_bounds ≡ g.num_variables
  pub types : length g.variable_types ≡ g.num_variables

pub resize_all {ℓ} : {A : Type ℓ} (n : ℕ) (d : A) (xs : List A) → length xs ≡ n → resize n d xs ≡ xs
resize_all zero d [] h = refl
resize_all zero d (x ∷ xs) h = absurd (omega arith)
resize_all (suc n) d [] h = absurd (omega arith)
resize_all (suc n) d (x ∷ xs) h = ap (◌∷◌ x) (resize_all n d xs (omega arith))

-- The loop over the variables converts every type.
pub variable_types_host-map :
    (empty_is_null : Bool) (n : ℕ) (types : List ℕ)
    → 0 < n
    → length types ≡ n
    → variable_types_host empty_is_null n types ≡ some (map to_var_t types)
unfolding variable_types_host
variable_types_host-map empty_is_null zero types pos size = absurd (omega arith)
variable_types_host-map empty_is_null (suc n) types pos size =
    ap (λ k. some (map (λ j. to_var_t (get_or types j 0)) (span 0 k))) (sym size)
    ∙ ap some (
        sym (map-map to_var_t (λ j. get_or types j 0) (span 0 (length types)))
        ∙ ap (map to_var_t) (map-get_or-span 0 types))

module _ {F : Type 0} ⦃num : Num F⦄ where
  abbrev pub arguments : Given F → Arguments F
  arguments g = record {
    num_constraints = g.num_constraints;
    num_variables = g.num_variables;
    objective_sense = g.objective_sense;
    objective_offset = g.objective_offset;
    objective_coefficients = some g.objective_coefficients;
    row_offsets = some g.row_offsets;
    column_indices = some g.column_indices;
    coefficient_values = some g.coefficient_values;
    lower_bounds = some g.lower_bounds;
    upper_bounds = some g.upper_bounds;
    variable_types = some g.variable_types;
  }

  -- The problem before the rows are set.
  abbrev pub begun : Given F → OptimizationProblem F
  begun g = record new_problem {
    maximize = is_maximize g.objective_sense;
    objective_offset = g.objective_offset;
    c = g.objective_coefficients;
    n_vars = g.num_variables;
    A = g.coefficient_values;
    A_indices = g.column_indices;
    A_offsets = g.row_offsets;
  }

  -- What is set after the rows.
  abbrev pub finished : Given F → OptimizationProblem F → OptimizationProblem F
  finished g p = record p {
    n_vars = g.num_variables;
    variable_lower_bounds = g.lower_bounds;
    variable_upper_bounds = g.upper_bounds;
    variable_types = map to_var_t g.variable_types;
    problem_category =
        category_of (map to_var_t g.variable_types) g.num_variables p.problem_category;
  }

  pub fill_problem-finished :
      (empty_is_null : Bool) (set_rows : OptimizationProblem F → Option (OptimizationProblem F))
      (g : Given F) (r : OptimizationProblem F)
      → IsComplete g
      → set_rows (begun g) ≡ some r
      → fill_problem empty_is_null set_rows (arguments g) ≡ some (finished g r)
  unfolding fill_problem entries set_objective_coefficients set_csr_constraint_matrix
      set_variable_lower_bounds set_variable_upper_bounds set_variable_types assign assign_or_empty
  fill_problem-finished empty_is_null set_rows g r h rows =
      let n = g.num_variables in
      let nnz = get_or g.row_offsets g.num_constraints 0 in
      rw
        (
          variable_types_host-map empty_is_null n g.variable_types h.has_variable h.types,
          resize_all n VarT.continuous (map to_var_t g.variable_types)
              (length-map to_var_t g.variable_types ∙ h.types),
          resize_all n num.nought g.objective_coefficients h.coefficients,
          resize_all nnz num.nought g.coefficient_values h.values,
          resize_all nnz 0 g.column_indices h.indices,
          resize_all (g.num_constraints + 1) 0 g.row_offsets h.offsets,
          resize_all n num.nought g.lower_bounds h.lower,
          resize_all n num.nought g.upper_bounds h.upper,
          rows,
        )
        refl
