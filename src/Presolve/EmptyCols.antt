-- ===== src/Presolve/EmptyCols.antt =====
-- `remove_empty_cols` of cpp/src/dual_simplex/presolve.cpp: which columns go, and that the objective
-- stays what it was, for values with the laws of a semiring (numbers without rounding).
use nvcuopt.Prelude.{
  ℕ, ◌<◌, ◌≡◌, sym, ap, ap₂, ◌∙◌, ◌++◌, map, arith, ◌==◌, true, false, inl, inr, Bool-cases,
  if◌then◌else◌, length, length-map, length-span, length-replicate, replicate, span, list_ext,
  for_loop, for_loop-zero,
}
use nvcuopt.Prelude.Num.{Num}
use nvcuopt.Sparse.Matrix.{at, val}
use nvcuopt.Sparse.Remove.Columns.{unmarked}
use nvcuopt.Sparse.Algebra.{IsSemiring, sum_below, sum_below-add, sum_below_congr, add_nought}
use nvcuopt.Presolve.Problem.{LpProblem, PresolveInfo, negate}
use nvcuopt.Presolve.Remove.{
  EmptyCols, KeptCols, mark_empty_col, keep_unmarked_col, remove_empty_cols,
}
use nvcuopt.Presolve.Compact.{write_from_all, sum_below-unmarked, marked, get_or-map, write_from}
use nvcuopt.Presolve.Marking.{empty_col, empties, at-empties, best_bound, objective_at, first_loop}
use nvcuopt.Presolve.KeptCols.{keep_run_lem}

module _ {F : Type 0} ⦃num : Num F⦄ (laws : IsSemiring num) where
  -- The terms of the empty columns and of the others make up the whole sum.
  sum_parts :
      (problem : LpProblem F) (x : ℕ → F)
      → ((j : ℕ) → j < problem.num_cols → empty_col problem j ≡ true → x j ≡ best_bound problem j)
      → let E = empties problem in
        let c = val problem.objective in
        num.add
          (sum_below problem.num_cols
            (λ j. if at E j == 0 then num.nought else num.mul (c j) (best_bound problem j)))
          (sum_below problem.num_cols
            (λ j. if at E j == 0 then num.mul (c j) (x j) else num.nought))
        ≡ sum_below problem.num_cols (λ j. num.mul (c j) (x j))
  sum_parts problem x best =
      let E = empties problem in
      let c = val problem.objective in
      let n = problem.num_cols in
      sym (sum_below-add laws n _ _)
      ∙ sum_below_congr laws n _ _ (λ j lt. elim (Bool-cases (empty_col problem j)) [
        | inl hit ↦
            let mark = at-empties problem j lt ∙ ap (λ b. if b then 1 else 0) hit in
            let goes : at E j == 0 ≡ false = ground arith in
            rw goes (add_nought laws _ ∙ ap (num.mul (c j)) (sym (best j lt hit)))
        | inr miss ↦
            let mark = at-empties problem j lt ∙ ap (λ b. if b then 1 else 0) miss in
            let stays : at E j == 0 ≡ true = ground arith in rw stays (laws.nought_add _)
      ])

  -- `remove_empty_cols` leaves the columns with an entry, lists them behind the remaining variables
  -- and the others behind the removed ones, and keeps the objective: at every point where the
  -- removed variables are at the bound that their cost prefers, the objective of the reduced
  -- problem at the remaining variables is that of the problem.
  pub remove_empty_cols-objective_at :
      (inf : F) (problem : LpProblem F) (num_empty_cols : ℕ) (info : PresolveInfo F)
      → let (R, _, info') = remove_empty_cols inf problem num_empty_cols info in
        let js = unmarked (empties problem) 0 problem.num_cols in
        let gone = marked (empties problem) 0 problem.num_cols in
        (R.num_cols ≡ length js)
        × (info'.remaining_variables ≡ info.remaining_variables ++ js)
        × (info'.removed_variables ≡ info.removed_variables ++ gone)
        × (info'.removed_values ≡ info.removed_values ++ map (best_bound problem) gone)
        × ((x : ℕ → F)
            → ((j : ℕ)
                → j < problem.num_cols
                → empty_col problem j ≡ true
                → x j ≡ best_bound problem j)
            → objective_at R (λ k. x (at js k)) ≡ objective_at problem x)
  unfolding remove_empty_cols
  remove_empty_cols-objective_at inf problem num_empty_cols info =
      let n = problem.num_cols in
      let E = empties problem in
      let js = unmarked E 0 n in
      let c = val problem.objective in
      let start : EmptyCols F = record {
        col_marker = replicate n 0;
        info = info;
        obj_constant = problem.obj_constant;
        new_cols = 0;
      } in
      let s = for_loop 0 n (mark_empty_col problem) start in
      let inv = first_loop laws problem info in
      let size : length E ≡ n = length-map _ (span 0 n) ∙ length-span 0 n in
      let marker : s.col_marker ≡ E =
        list_ext 0 s.col_marker E (inv.size ∙ sym size)
          (λ j lt. inv.marks j (omega (arith, inv.size))) in
      let o = replicate s.new_cols num.nought in
      let (eo, _, _, er) =
        keep_run_lem problem s.col_marker 0 n o (replicate s.new_cols (negate inf))
          (replicate s.new_cols inf) s.info.remaining_variables 0 num_empty_cols in
      let objective =
        ap (λ (t : KeptCols F). t.objective)
          (for_loop-zero n (keep_unmarked_col problem s.col_marker) _)
        ∙ eo
        ∙ ap (λ m. write_from 0 (map c (unmarked m 0 n)) o) marker
        ∙ write_from_all (map c js) o
            (length-replicate s.new_cols num.nought ∙ inv.count ∙ sym (length-map c js)) in
      (
        inv.count,
        ap (λ (t : KeptCols F). t.remaining_variables)
              (for_loop-zero n (keep_unmarked_col problem s.col_marker) _)
            ∙ er
            ∙ ap₂ ◌++◌ inv.remaining (ap (λ m. unmarked m 0 n) marker),
        inv.removed,
        inv.values,
        λ x best.
            ap₂ num.add inv.constant (
              ap
                (λ k. sum_below k (λ k.
                  num.mul (val (remove_empty_cols inf problem num_empty_cols info).0.objective k)
                    (x (at js k))))
                inv.count
              ∙ sum_below_congr laws (length js) _ _ (λ k lt.
                ap (λ a. num.mul a (x (at js k)))
                  (ap (λ v. val v k) objective ∙ get_or-map c js k num.nought 0 lt))
              ∙ sum_below-unmarked laws E (λ j. num.mul (c j) (x j)) n)
            ∙ laws.add_assoc _ _ _
            ∙ ap (num.add problem.obj_constant) (sum_parts problem x best),
      )
