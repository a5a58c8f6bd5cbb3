-- ===== src/Presolve/Crush.antt =====
-- `presolve`, and the functions of cpp/src/dual_simplex/presolve.cpp that carry solutions from the
-- user's problem to the converted one and back. Residuals that are computed to be printed or
-- asserted, and change nothing, are left out; so is the search for dependent rows, which a constant
-- turns off.
use nvcuopt.Prelude.{
  ℕ, suc, ◌+◌, List, [], Option, some, none, ◌==◌, ltb, if◌then◌else◌, length, set, replicate,
  resize, for_loop, foldl,
}
use nvcuopt.Prelude.Num.{Num}
use nvcuopt.Sparse.Matrix.{at, val}
use nvcuopt.Sparse.Convert.{to_compressed_row}
use nvcuopt.Sparse.Vector.{matrix_vector_multiply}
use nvcuopt.Presolve.Problem.{UserProblem, LpProblem, PresolveInfo, no_rows, negate}
use nvcuopt.Presolve.Remove.{remove_empty_rows, remove_empty_cols}
use nvcuopt.Presolve.Convert.{convert_user_problem}

-- How many of the n segments are empty, by their starts.
unfoldable pub count_empty : ℕ → List ℕ → ℕ
count_empty n starts = for_loop 0 n (λ i c. if at starts (suc i) == at starts i then c + 1 else c) 0

module _ {F : Type 0} ⦃num : Num F⦄ where
  -- for (j = 0; j < n; j++) target[j] = source[j];
  unfoldable pub copy_first : ℕ → List F → List F → List F
  copy_first n source target = for_loop 0 n (λ j t. set t j (val source j)) target

  -- std::max and std::min
  abbrev pub max_of : F → F → F
  max_of a b = if num.lt a b then b else a

  abbrev pub min_of : F → F → F
  min_of a b = if num.lt b a then b else a

  -- The residual A*x of the two functions that follow.
  abbrev pub row_activity : LpProblem F → List F → List F
  row_activity problem solution =
      matrix_vector_multiply problem.A num.one solution num.nought
        (replicate problem.num_rows num.nought)

  -- One round of the loop over the slacks in `crush_primal_solution`.
  unfoldable pub crush_slack : LpProblem F → List F → ℕ → List F → List F
  crush_slack problem primal_residual j solution =
      let col_start = at problem.A.col_start j in
      let i = at problem.A.i col_start in
      let beta = val problem.rhs i in
      let alpha = val problem.A.x col_start in
      let slack_computed = num.div (num.sub beta (val primal_residual i)) alpha in
      set solution j (max_of (val problem.lower j) (min_of slack_computed (val problem.upper j)))

  unfoldable pub crush_primal_solution :
      UserProblem F → LpProblem F → List F → List ℕ → List F → List F
  unfolding copy_first crush_slack
  crush_primal_solution user_problem problem user_solution new_slacks solution =
      let filled =
        copy_first user_problem.num_cols user_solution
          (resize problem.num_cols num.nought solution) in
      let primal_residual = row_activity problem filled in
      foldl (λ t j. crush_slack problem primal_residual j t) filled new_slacks

  -- The slacks are given by row. That they differ from the computed ones would only be printed.
  unfoldable pub crush_primal_solution_with_slack :
      UserProblem F → LpProblem F → List F → List F → List ℕ → List F → List F
  unfolding copy_first
  crush_primal_solution_with_slack user_problem problem user_solution user_slack new_slacks
        solution =
      let filled =
        copy_first user_problem.num_cols user_solution
          (resize problem.num_cols num.nought solution) in
      foldl (λ t j. set t j (val user_slack (at problem.A.i (at problem.A.col_start j)))) filled
        new_slacks

  -- One round of the loop over the slacks in `crush_dual_solution`.
  unfoldable pub crush_dual_slack : LpProblem F → List F → ℕ → List F → List F
  crush_dual_slack problem y j z =
      set z j (negate (val y (at problem.A.i (at problem.A.col_start j))))

  -- The results are y and z.
  unfoldable pub crush_dual_solution :
      UserProblem F → LpProblem F → List ℕ → List F → List F → List F → List F → List F × List F
  unfolding copy_first crush_dual_slack
  crush_dual_solution user_problem problem new_slacks user_y user_z y z =
      let y' = copy_first user_problem.num_rows user_y (resize problem.num_rows num.nought y) in
      let z' = copy_first user_problem.num_cols user_z (resize problem.num_cols num.nought z) in
      (y', foldl (λ t j. crush_dual_slack problem y' j t) z' new_slacks)

  -- The converted problem, and the vectors x, y and z of the converted solution; `inf` is INFINITY
  -- and `abs` std::abs.
  unfoldable pub convert_user_lp_with_guess :
      F
      → (F → F)
      → UserProblem F
      → List F × List F × List F
      → List F
      → List F × List F × List F
      → LpProblem F × List F × List F × List F
  unfolding convert_user_problem crush_primal_solution_with_slack crush_dual_solution
  convert_user_lp_with_guess inf abs user_problem (x, y, z) initial_slack (cx, cy, cz) =
      let (problem, new_slacks) = convert_user_problem inf abs user_problem [] in
      let (y', z') = crush_dual_solution user_problem problem new_slacks y z cy cz in
      (
        problem,
        crush_primal_solution_with_slack user_problem problem x initial_slack new_slacks cx,
        y',
        z',
      )

  -- The first entries of the solution.
  unfoldable pub uncrush_primal_solution : UserProblem F → List F → List F → List F
  unfolding copy_first
  uncrush_primal_solution user_problem solution user_solution =
      let n = user_problem.num_cols in copy_first n solution (resize n num.nought user_solution)

  -- One round of the loops of `uncrush_solution`, on the counter k, x and z.
  unfoldable pub uncrush_variable : List F → List F → ℕ → ℕ × List F × List F → ℕ × List F × List F
  uncrush_variable xs zs j (k, x, z) = (k + 1, set x j (val xs k), set z j (val zs k))

  -- The results are x and z.
  unfoldable pub uncrush_solution :
      PresolveInfo F → List F → List F → List F → List F → List F × List F
  unfolding uncrush_variable
  uncrush_solution info crushed_x crushed_z uncrushed_x uncrushed_z =
      let n = length info.removed_variables + length info.remaining_variables in
      let (_, x, z) =
        foldl (λ s j. uncrush_variable crushed_x crushed_z j s)
          (0, resize n num.nought uncrushed_x, resize n num.nought uncrushed_z)
          info.remaining_variables in
      let (_, x', z') =
        foldl (λ s j. uncrush_variable info.removed_values info.removed_reduced_costs j s) (0, x, z)
          info.removed_variables in
      if length info.removed_variables == 0 then (crushed_x, crushed_z) else (x', z')

  -- None is -1: the problem is infeasible. `inf` is INFINITY.
  unfoldable pub presolve : F → LpProblem F → PresolveInfo F → Option (LpProblem F × PresolveInfo F)
  unfolding count_empty remove_empty_rows remove_empty_cols
  presolve inf original presolve_info =
      let Arow = to_compressed_row original.A no_rows in
      let num_empty_rows = count_empty original.num_rows Arow.row_start in
      let (status, problem) =
        if ltb 0 num_empty_rows then remove_empty_rows original else (0, original) in
      let num_empty_cols = count_empty problem.num_cols problem.A.col_start in
      let (problem', _, info) =
        if ltb 0 num_empty_cols
        then remove_empty_cols inf problem num_empty_cols presolve_info
        else (problem, num_empty_cols, presolve_info) in
      if status == 0 then some (problem', info) else none
