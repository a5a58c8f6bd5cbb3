-- ===== src/Presolve/Activity.antt =====
-- What the columns that cpp/src/dual_simplex/presolve.cpp adds mean for the rows, for values that obey
-- the laws of a semiring (numbers without rounding).
use nvcuopt.Prelude.{
  ℕ, zero, suc, ◌+◌, ◌≤◌, ◌<◌, ◌≡◌, refl, sym, ap, ap₂, ◌∙◌, List, map, arith, ◌==◌, inl, inr,
  Bool-cases, if◌then◌else◌, length, length-map, All,
}
use nvcuopt.Prelude.Num.{Num}
use nvcuopt.Sparse.Matrix.{at}
use nvcuopt.Sparse.Algebra.{
  IsSemiring, cell, coefficient, sum_below, sum_below_congr, sum_below_nought, add_nought,
}
use nvcuopt.Presolve.Problem.{LpProblem}
use nvcuopt.Presolve.Convert.{Senses, convert_less_than_to_equal, add_artifical_variables}
use nvcuopt.Presolve.Compact.{get_or-map}
use nvcuopt.Presolve.Grow.{Slack, blank_slack, slack_at}
use nvcuopt.Presolve.Greater.{IsProblem}
use nvcuopt.Presolve.Slacks.{Extends}
use nvcuopt.Presolve.Artificial.{artificial, add_artifical_variables-Extends}
use nvcuopt.Presolve.Less.{less_list, less_slack, convert_less_than_to_equal-Extends}

module _ {F : Type 0} ⦃num : Num F⦄ where
  -- Row r of the matrix times x.
  abbrev pub activity : LpProblem F → (ℕ → F) → ℕ → F
  activity P x r = sum_below P.num_cols (λ j. num.mul (coefficient P.A r j) (x j))

module _ {F : Type 0} ⦃num : Num F⦄ (laws : IsSemiring num) where
  sum_below-plus :
      (n k : ℕ) (h : ℕ → F)
      → sum_below (n + k) h ≡ num.add (sum_below n h) (sum_below k (λ t. h (n + t)))
  sum_below-plus n zero h =
      ap (λ i. sum_below i h) (omega arith) ∙ sym (add_nought laws (sum_below n h))
  sum_below-plus n (suc k) h =
      let e : n + suc k ≡ suc (n + k) = omega arith in
      ap (λ i. sum_below i h) e
      ∙ ap (λ a. num.add a (h (n + k))) (sum_below-plus n k h)
      ∙ laws.add_assoc (sum_below n h) (sum_below k (λ t. h (n + t))) (h (n + k))

  -- The new columns add their values to the row in which their entry is.
  Extends-activity :
      (P R : LpProblem F) (ss : List (Slack F)) (x : ℕ → F) (r : ℕ)
      → Extends P R ss
      → activity R x r
        ≡ num.add (activity P x r) (
            sum_below (length ss) (λ t.
              if (slack_at ss t).row == r
              then num.mul (slack_at ss t).coefficient (x (P.num_cols + t))
              else num.nought))
  Extends-activity P R ss x r h =
      let n = P.num_cols in
      let term : ℕ → F = λ j. num.mul (coefficient R.A r j) (x j) in
      ap (λ k. sum_below k term) h.columns
      ∙ sum_below-plus n (length ss) term
      ∙ ap₂ num.add
          (sum_below_congr laws n _ _
            (λ j lt. ap (λ l. num.mul (cell l r) (x j)) (h.old_segment j lt)))
          (sum_below_congr laws (length ss) _ _ (λ t lt.
            ap (λ l. num.mul (cell l r) (x (n + t))) (h.new_segment t lt)
            ∙ elim (Bool-cases ((slack_at ss t).row == r)) [
              | inl hit ↦
                  rw hit
                    (ap (λ a. num.mul a (x (n + t))) (add_nought laws (slack_at ss t).coefficient))
              | inr miss ↦ rw miss (laws.nought_mul (x (n + t)))
            ]))

  -- For values that obey the laws of a semiring and a well-formed problem, the equations after `convert_less_than_to_equal` have on the left
  -- what the rows had, and in the rows with sense 'L' the new variables of these rows.
  pub convert_less_than_to_equal-activity :
      (inf : F) (c : Senses) (P : LpProblem F) (new_slacks : List ℕ) (x : ℕ → F) (r : ℕ)
      → IsProblem P
      → P.num_rows ≤ length c.row_sense
      → c.less_rows ≡ length (less_list c.row_sense 0 P.num_rows)
      → let (R, _, _) = convert_less_than_to_equal inf c P new_slacks in
        let js = less_list c.row_sense 0 P.num_rows in
        activity R x r
        ≡ num.add (activity P x r) (
            sum_below
              (length js)
              (λ t. if at js t == r then num.mul num.one (x (P.num_cols + t)) else num.nought))
  convert_less_than_to_equal-activity inf c P slacks x r h room count =
      let js = less_list c.row_sense 0 P.num_rows in
      let ss = map (less_slack inf) js in
      let term : ℕ → Slack F → F =
        λ t s. if s.row == r then num.mul s.coefficient (x (P.num_cols + t)) else num.nought in
      Extends-activity P _ ss x r (convert_less_than_to_equal-Extends inf c P slacks h room count).0
      ∙ ap (num.add (activity P x r)) (
          ap (λ k. sum_below k (λ t. term t (slack_at ss t))) (length-map (less_slack inf) js)
          ∙ sum_below_congr laws (length js) _ _
              (λ t lt. ap (term t) (get_or-map (less_slack inf) js t blank_slack 0 lt)))

  -- For values that obey the laws of a semiring, a well-formed problem and a list of rows of it,
  -- `add_artifical_variables` changes no equation: wherever the new
  -- variables are 0, which is what their bounds ask, each row has the value that it had.
  pub add_artifical_variables-activity :
      (P : LpProblem F) (equality_rows new_slacks : List ℕ) (x : ℕ → F) (r : ℕ)
      → IsProblem P
      → All (λ i. i < P.num_rows) equality_rows
      → ((t : ℕ) → t < length equality_rows → x (P.num_cols + t) ≡ num.nought)
      → activity (add_artifical_variables P equality_rows new_slacks).0 x r ≡ activity P x r
  add_artifical_variables-activity P js slacks x r h below zeros =
      let ss = map artificial js in
      Extends-activity P _ ss x r (add_artifical_variables-Extends P js slacks h below).0
      ∙ ap (num.add (activity P x r)) (
          sum_below_nought laws (length ss) _ (λ t lt.
            elim (Bool-cases ((slack_at ss t).row == r)) [
              | inl hit ↦ rw hit (
                  ap (num.mul (slack_at ss t).coefficient)
                    (zeros t (omega (arith, length-map artificial js)))
                  ∙ laws.mul_nought (slack_at ss t).coefficient)
              | inr miss ↦ rw miss refl
            ]))
      ∙ add_nought laws (activity P x r)
