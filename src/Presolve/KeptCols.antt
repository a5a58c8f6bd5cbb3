-- ===== src/Presolve/KeptCols.antt =====
-- The loop of `remove_empty_cols` in cpp/src/dual_simplex/presolve.cpp that copies the columns that
-- remain.
use mathlib.Core.List.{append_assoc, append-nil}
use nvcuopt.Prelude.{
  ℕ, zero, suc, ◌-◌, ◌≡◌, refl, sym, ap, ◌∙◌, List, [], ◌∷◌, ◌++◌, map, foldl, arith, ◌==◌, true,
  false, inl, inr, Bool-cases, set, span,
}
use nvcuopt.Prelude.Num.{Num}
use nvcuopt.Sparse.Matrix.{at, val}
use nvcuopt.Sparse.Remove.Columns.{unmarked}
use nvcuopt.Presolve.Problem.{LpProblem, push_back}
use nvcuopt.Presolve.Remove.{KeptCols, keep_unmarked_col}
use nvcuopt.Presolve.Compact.{write_from}

module _ {F : Type 0} ⦃num : Num F⦄ where
  abbrev state : List F → List F → List F → List ℕ → ℕ → ℕ → KeptCols F
  state o l u r k c = record {
    objective = o;
    lower = l;
    upper = u;
    remaining_variables = r;
    new_j = k;
    counter = c;
  }

  keep_col_kept :
      (problem : LpProblem F) (marker : List ℕ) (j : ℕ) (o l u : List F) (r : List ℕ) (k c : ℕ)
      → at marker j == 0 ≡ true
      → keep_unmarked_col problem marker j (state o l u r k c)
        ≡ state
            (set o k (val problem.objective j))
            (set l k (val problem.lower j))
            (set u k (val problem.upper j))
            (push_back j r)
            (suc k)
            c
  unfolding keep_unmarked_col
  keep_col_kept problem marker j o l u r k c stays = rw stays (
      ap
        (λ i.
          state (set o k (val problem.objective j)) (set l k (val problem.lower j))
            (set u k (val problem.upper j)) (push_back j r) i c)
        (omega arith))

  keep_col_dropped :
      (problem : LpProblem F) (marker : List ℕ) (j : ℕ) (o l u : List F) (r : List ℕ) (k c : ℕ)
      → at marker j == 0 ≡ false
      → keep_unmarked_col problem marker j (state o l u r k c) ≡ state o l u r k (c - 1)
  unfolding keep_unmarked_col
  keep_col_dropped problem marker j o l u r k c goes = rw goes

  abbrev pub keep_run : LpProblem F → List ℕ → ℕ → ℕ → KeptCols F → KeptCols F
  keep_run problem marker lo n s = foldl (λ t j. keep_unmarked_col problem marker j t) s (span lo n)

  -- The columns whose mark is 0 are written one after the other, and listed.
  pub keep_run_lem :
      (problem : LpProblem F) (marker : List ℕ) (lo n : ℕ) (o l u : List F) (r : List ℕ) (k c : ℕ)
      → let js = unmarked marker lo n in
        let t = keep_run problem marker lo n (state o l u r k c) in
        (t.objective ≡ write_from k (map (val problem.objective) js) o)
        × (t.lower ≡ write_from k (map (val problem.lower) js) l)
        × (t.upper ≡ write_from k (map (val problem.upper) js) u)
        × (t.remaining_variables ≡ r ++ js)
  keep_run_lem problem marker lo zero o l u r k c = (refl, refl, refl, sym (append-nil r))
  keep_run_lem problem marker lo (suc n) o l u r k c = elim (Bool-cases (at marker lo == 0)) [
    | inl stays ↦
        let (eo, el, eu, er) =
          keep_run_lem problem marker (suc lo) n (set o k (val problem.objective lo))
            (set l k (val problem.lower lo)) (set u k (val problem.upper lo)) (push_back lo r)
            (suc k) c in
        let step =
          ap (keep_run problem marker (suc lo) n)
            (keep_col_kept problem marker lo o l u r k c stays) in
        rw stays (
          ap (λ (t : KeptCols F). t.objective) step ∙ eo,
          ap (λ (t : KeptCols F). t.lower) step ∙ el,
          ap (λ (t : KeptCols F). t.upper) step ∙ eu,
          ap (λ (t : KeptCols F). t.remaining_variables) step
              ∙ er
              ∙ append_assoc r (lo ∷ []) (unmarked marker (suc lo) n),
        )
    | inr goes ↦
        let (eo, el, eu, er) = keep_run_lem problem marker (suc lo) n o l u r k (c - 1) in
        let step =
          ap (keep_run problem marker (suc lo) n)
            (keep_col_dropped problem marker lo o l u r k c goes) in
        rw goes (
          ap (λ (t : KeptCols F). t.objective) step ∙ eo,
          ap (λ (t : KeptCols F). t.lower) step ∙ el,
          ap (λ (t : KeptCols F). t.upper) step ∙ eu,
          ap (λ (t : KeptCols F). t.remaining_variables) step ∙ er,
        )
  ]
