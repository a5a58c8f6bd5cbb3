-- ===== src/Presolve/Artificial.antt =====
-- `add_artifical_variables` of cpp/src/dual_simplex/presolve.cpp, and what it shares with the other
-- functions that add columns.
use mathlib.Core.List.{foldl-map}
use nvcuopt.Prelude.{
  ℕ, ◌+◌, ◌<◌, ◌≡◌, refl, sym, subst, ap, ◌∙◌, List, [], ◌++◌, map, arith, length, length-map,
  get_or-All, span, All,
}
use nvcuopt.Prelude.Num.{Num}
use nvcuopt.Sparse.Matrix.{at}
use nvcuopt.Presolve.Problem.{LpProblem}
use nvcuopt.Presolve.Convert.{
  Growing, make_room, add_slack, finish_columns, add_artifical_variables,
}
use nvcuopt.Presolve.Compact.{get_or-map}
use nvcuopt.Presolve.Grow.{
  Slack, blank_slack, slack_at, add_slacks, Grown, make_room-Grown, add_slacks-Grown,
}
use nvcuopt.Presolve.Greater.{IsProblem}
use nvcuopt.Presolve.Slacks.{Extends, grown-Extends}

module _ {F : Type 0} ⦃num : Num F⦄ where
  -- An artificial variable.
  abbrev pub artificial : ℕ → Slack F
  artificial i = record { row = i; coefficient = num.one; low = num.nought; up = num.nought }

  -- What holds of the rows of a list holds of the slacks made of it.
  pub slack_rows :
      (f : ℕ → Slack F) (js : List ℕ) (m : ℕ)
      → ((i : ℕ) → (f i).row ≡ i)
      → All (λ r. r < m) js
      → (t : ℕ) → t < length (map f js)
      → (slack_at (map f js) t).row < m
  slack_rows f js m e below t lt =
      let lt' : t < length js = omega (arith, length-map f js) in
      let same = ap (λ (s : Slack F). s.row) (get_or-map f js t blank_slack 0 lt') ∙ e (at js t) in
      omega (arith, get_or-All (λ r. r < m) 0 js below t lt')

  -- The problem with the columns ss added, and the list of these.
  pub slacks_added :
      (P : LpProblem F) (slacks : List ℕ) (ss : List (Slack F)) (k : ℕ)
      → IsProblem P
      → k ≡ length ss
      → ((t : ℕ) → t < length ss → (slack_at ss t).row < P.num_rows)
      → let s = add_slacks ss (make_room k P slacks) in
        Extends P (finish_columns (P.num_cols + k) s) ss
        × (s.new_slacks ≡ slacks ++ span P.num_cols k)
  slacks_added P slacks ss k h e rows =
      let grown : Grown P slacks ss (length ss) (length ss)
          (add_slacks ss (make_room (length ss) P slacks)) =
        subst
          (λ i. Grown P slacks ss (length ss) i (add_slacks ss (make_room (length ss) P slacks)))
          (omega arith)
          (add_slacks-Grown P slacks [] ss (length ss) (make_room (length ss) P slacks)
            (omega arith) (make_room-Grown P slacks ss (length ss))) in
      rw e (grown-Extends P slacks ss _ h grown rows, grown.listed)

  -- For a well-formed problem and a list of rows of it, `add_artifical_variables` adds for each of the given rows, in their
  -- order, a column with the entry 1 in this row, both bounds 0 and no cost, leaves the rest of the
  -- problem as it was, and lists the new columns.
  pub add_artifical_variables-Extends :
      (P : LpProblem F) (equality_rows new_slacks : List ℕ)
      → IsProblem P
      → All (λ r. r < P.num_rows) equality_rows
      → let (R, slacks) = add_artifical_variables P equality_rows new_slacks in
        Extends P R (map artificial equality_rows)
        × (slacks ≡ new_slacks ++ span P.num_cols (length equality_rows))
  unfolding add_artifical_variables
  add_artifical_variables-Extends P js slacks h below =
      let k = length js in
      let loop =
        foldl-map artificial
          (λ (t : Growing F) (e : Slack F). add_slack e.row e.coefficient e.low e.up t) js
          (make_room k P slacks) in
      rw (← loop) (
        slacks_added P slacks (map artificial js) k h (sym (length-map artificial js))
          (slack_rows artificial js P.num_rows (λ i. refl) below))
