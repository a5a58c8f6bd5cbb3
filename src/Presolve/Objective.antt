-- ===== src/Presolve/Objective.antt =====
-- `presolve` of cpp/src/dual_simplex/presolve.cpp keeps the objective: a solution of the reduced
-- problem has the objective that its uncrushed version has in the original problem.
use nvcuopt.Prelude.{
  ℕ, suc, ◌+◌, ◌<◌, ◌≡◌, refl, sym, subst, ap, ap₂, ◌∙◌, List, [], ◌∷◌, ◌++◌, arith, ◌==◌, ltb,
  Bool, inl, inr, Bool-cases, some, none, length, length-append, if◌then◌else◌, for_loop_inv, true,
  false,
}
use nvcuopt.Prelude.Num.{Num}
use nvcuopt.Sparse.Matrix.{Csr, at, val}
use nvcuopt.Sparse.Convert.{to_compressed_row}
use nvcuopt.Sparse.Remove.Columns.{unmarked}
use nvcuopt.Sparse.Algebra.{IsSemiring, sum_below, sum_below_congr}
use nvcuopt.Presolve.Problem.{LpProblem, PresolveInfo, no_rows}
use nvcuopt.Presolve.Remove.{remove_rows, remove_empty_rows, remove_empty_cols}
use nvcuopt.Presolve.Crush.{count_empty, uncrush_solution, presolve}
use nvcuopt.Presolve.Compact.{marked, marked_last, get_or-map}
use nvcuopt.Presolve.Marking.{empty_col, empties, at-empties, best_bound, objective_at}
use nvcuopt.Presolve.EmptyCols.{remove_empty_cols-objective_at}
use nvcuopt.Presolve.Uncrush.{IsPartition, uncrush_solution-Restores}
use nvcuopt.Presolve.Partition.{marked-IsPartition, marked_index}

some_injective {ℓ} : {A : Type ℓ} (a b : A) → some a ≡ some b → a ≡ b
some_injective a b e = cc

none-ne-some {ℓ} : {A : Type ℓ} (a : A) → none ≡ some a → ⊥
none-ne-some a e = cc

module _ {F : Type 0} where
  -- A presolve_info_t before presolve.
  abbrev pub no_info : PresolveInfo F
  no_info = record {
    remaining_variables = [];
    removed_variables = [];
    removed_values = [];
    removed_reduced_costs = [];
  }

  abbrev SameObjective : LpProblem F → LpProblem F → Type 0
  SameObjective P Q =
      (P.num_cols ≡ Q.num_cols) × (P.objective ≡ Q.objective) × (P.obj_constant ≡ Q.obj_constant)

module _ {F : Type 0} ⦃num : Num F⦄ where
  -- The number of empty columns that `presolve` counts.
  count_empty-marked :
      (problem : LpProblem F)
      → count_empty problem.num_cols problem.A.col_start
        ≡ length (marked (empties problem) 0 problem.num_cols)
  unfolding count_empty
  count_empty-marked problem =
      let E = empties problem in
      for_loop_inv (λ k c. c ≡ length (marked E 0 k))
        (λ i c. if at problem.A.col_start (suc i) == at problem.A.col_start i then c + 1 else c) 0
        problem.num_cols (omega arith)
        (λ k c _ lt inv.
          let last = marked_last E 0 k k (omega arith) in
          elim (Bool-cases (empty_col problem k)) [
            | inl hit ↦
                let mark = at-empties problem k lt ∙ ap (λ b. if b then 1 else 0) hit in
                let goes : at E k == 0 ≡ false = ground arith in
                rw hit (
                  omega (
                    arith,
                    inv,
                    ap length
                        (last ∙ ap (λ (b : Bool). marked E 0 k ++ (if b then [] else k ∷ [])) goes),
                    length-append (marked E 0 k) (k ∷ []),
                  ))
            | inr miss ↦
                let mark = at-empties problem k lt ∙ ap (λ b. if b then 1 else 0) miss in
                let stays : at E k == 0 ≡ true = ground arith in
                rw miss (
                  omega (
                    arith,
                    inv,
                    ap length (
                        last ∙ ap (λ (b : Bool). marked E 0 k ++ (if b then [] else k ∷ [])) stays),
                    length-append {A = ℕ} (marked E 0 k) [],
                  ))
          ])
        0 refl

  remove_rows-SameObjective :
      (problem : LpProblem F) (Arow : Csr F) (marker : List ℕ)
      → SameObjective (remove_rows problem Arow marker).1 problem
  unfolding remove_rows
  remove_rows-SameObjective problem Arow marker = ground arith

  objective_at-congr :
      (P Q : LpProblem F) (x : ℕ → F) → SameObjective P Q → objective_at P x ≡ objective_at Q x
  objective_at-congr P Q x (en, eo, ec) = ap₂ num.add ec (
      ap (λ n. sum_below n (λ j. num.mul (val P.objective j) (x j))) en
      ∙ ap (λ c. sum_below Q.num_cols (λ j. num.mul (val c j) (x j))) eo)

  present_rows :
      (original : LpProblem F) (b : Bool)
      → SameObjective (if b then remove_empty_rows original else (0, original)).1 original
  unfolding remove_empty_rows
  present_rows original true = remove_rows-SameObjective original _ _
  present_rows original false = (refl, refl, refl)

  uncrush_nothing : (x' z' x z : List F) → (uncrush_solution no_info x' z' x z).0 ≡ x'
  unfolding uncrush_solution
  uncrush_nothing x' z' x z = refl

module _ {F : Type 0} ⦃num : Num F⦄ (laws : IsSemiring num) where
  -- With an empty column.
  remove_empty_cols-uncrush :
      (inf : F) (problem : LpProblem F) (k : ℕ) (x' z' x z : List F)
      → 0 < length (marked (empties problem) 0 problem.num_cols)
      → let (R, _, info) = remove_empty_cols inf problem k no_info in
        objective_at problem (val (uncrush_solution info x' z' x z).0) ≡ objective_at R (val x')
  remove_empty_cols-uncrush inf problem k x' z' x z nonempty =
      let n = problem.num_cols in
      let E = empties problem in
      let js = unmarked E 0 n in
      let gone = marked E 0 n in
      let result = remove_empty_cols inf problem k no_info in
      let R = result.0 in
      let info = result.2 in
      let (en, er, eg, ev, same) = remove_empty_cols-objective_at laws inf problem k no_info in
      let partition : IsPartition info.remaining_variables info.removed_variables =
        subst (λ v. IsPartition v info.removed_variables) (sym er)
          (subst (IsPartition js) (sym eg) (marked-IsPartition E n)) in
      let ((size, stay, go), _) =
        uncrush_solution-Restores info x' z' x z partition (rw eg nonempty) in
      let X = (uncrush_solution info x' z' x z).0 in
      let at_best : (j : ℕ) → j < n → empty_col problem j ≡ true → val X j ≡ best_bound problem j =
        λ j lt hit.
          let mark = at-empties problem j lt ∙ ap (λ b. if b then 1 else 0) hit in
          let goes : at E j == 0 ≡ false = ground arith in
          let (i, below, found) = marked_index E 0 n j (omega arith) (omega arith) goes in
          ap (val X) (sym found ∙ ap (λ v. at v i) (sym eg))
          ∙ go i (omega (arith, ap length eg))
          ∙ ap (λ v. val v i) ev
          ∙ get_or-map (best_bound problem) gone i num.nought 0 below
          ∙ ap (best_bound problem) found in
      sym (same (val X) at_best)
      ∙ ap (num.add R.obj_constant) (
          sum_below_congr laws R.num_cols _ _ (λ i lt.
            ap (num.mul (val R.objective i))
              (ap (λ v. val X (at v i)) (sym er) ∙ stay i (omega (arith, en, ap length er)))))

  reduce_cols :
      (inf : F) (problem : LpProblem F) (x' z' x z : List F)
      → let c = count_empty problem.num_cols problem.A.col_start in
        let (R, _, info) =
          if ltb 0 c then remove_empty_cols inf problem c no_info else (problem, c, no_info) in
        objective_at problem (val (uncrush_solution info x' z' x z).0) ≡ objective_at R (val x')
  reduce_cols inf problem x' z' x z =
      let c = count_empty problem.num_cols problem.A.col_start in
      elim (Bool-cases (ltb 0 c)) [
        | inl hit ↦
            let nonempty : 0 < c = ground arith in
            rw hit (
              remove_empty_cols-uncrush inf problem c x' z' x z
                (subst (λ k. 0 < k) (count_empty-marked problem) nonempty))
        | inr miss ↦ rw miss (ap (λ v. objective_at problem (val v)) (uncrush_nothing x' z' x z))
      ]

  -- For values that obey the laws of a semiring (numbers without rounding), and a presolve_info that
  -- was empty: when `presolve` does not find the problem infeasible, then for all values of the
  -- variables of the reduced problem, whatever the targets of `uncrush_solution` held, the objective
  -- of the uncrushed values in the original problem is that of the given values in the reduced
  -- problem.
  pub presolve-uncrush_solution :
      (inf : F) (original R : LpProblem F) (info : PresolveInfo F) (x' z' x z : List F)
      → presolve inf original no_info ≡ some (R, info)
      → objective_at original (val (uncrush_solution info x' z' x z).0) ≡ objective_at R (val x')
  unfolding presolve
  presolve-uncrush_solution inf original R info x' z' x z e =
      let Arow = to_compressed_row original.A no_rows in
      let nr = count_empty original.num_rows Arow.row_start in
      let rows : ℕ × LpProblem F = if ltb 0 nr then remove_empty_rows original else (0, original) in
      let problem = rows.1 in
      let c = count_empty problem.num_cols problem.A.col_start in
      let (P, _, I) =
        if ltb 0 c then remove_empty_cols inf problem c no_info else (problem, c, no_info) in
      let Keeps : LpProblem F × PresolveInfo F → Type 0 = λ t.
        objective_at original (val (uncrush_solution t.1 x' z' x z).0)
        ≡ objective_at t.0 (val x') in
      let X = (uncrush_solution I x' z' x z).0 in
      let reduced : Keeps (P, I) =
        sym (objective_at-congr problem original (val X) (present_rows original (ltb 0 nr)))
        ∙ reduce_cols inf problem x' z' x z in
      elim (Bool-cases (rows.0 == 0)) [
        | inl fine ↦ subst Keeps (some_injective (P, I) (R, info) (rw fine at e)) reduced
        | inr failed ↦ absurd (none-ne-some (R, info) (rw failed at e))
      ]
