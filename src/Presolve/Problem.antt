-- ===== src/Presolve/Problem.antt =====
-- user_problem_t of cpp/src/dual_simplex/user_problem.hpp, and lp_problem_t and presolve_info_t of
-- presolve.hpp. Names of problems, rows and columns and the types of variables are left out: the
-- modelled functions do not read them. A character is its code.
use nvcuopt.Prelude.{ℕ, List, [], ◌∷◌, ◌++◌}
use nvcuopt.Prelude.Num.{Num}
use nvcuopt.Sparse.Matrix.{Csc, Csr}

pub record UserProblem (F : Type 0) : Type 0 where
  pub num_rows : ℕ
  pub num_cols : ℕ
  pub objective : List F
  pub A : Csc F
  pub rhs : List F
  pub row_sense : List ℕ
  pub lower : List F
  pub upper : List F
  pub range_rows : List ℕ
  pub range_value : List F
  pub num_range_rows : ℕ
  pub obj_constant : F
  pub obj_scale : F

pub record LpProblem (F : Type 0) : Type 0 where
  pub num_rows : ℕ
  pub num_cols : ℕ
  pub objective : List F
  pub A : Csc F
  pub rhs : List F
  pub lower : List F
  pub upper : List F
  pub obj_constant : F
  pub obj_scale : F

pub record PresolveInfo (F : Type 0) : Type 0 where
  pub remaining_variables : List ℕ
  pub removed_variables : List ℕ
  pub removed_values : List F
  pub removed_reduced_costs : List F

-- `v.push_back(a)`
abbrev pub push_back {ℓ} : {A : Type ℓ} → A → List A → List A
push_back a v = v ++ (a ∷ [])

module _ {F : Type 0} where
  -- A default constructed csr_matrix_t.
  abbrev pub no_rows : Csr F
  no_rows = record { nz_max = 0; m = 0; n = 0; row_start = []; j = []; x = [] }

module _ {F : Type 0} ⦃num : Num F⦄ where
  abbrev pub minus_one : F
  minus_one = num.sub num.nought num.one

  -- -a
  abbrev pub negate : F → F
  negate a = num.mul a minus_one
