-- ===== src/Presolve/Marking.antt =====
-- The first loop of `remove_empty_cols` in cpp/src/dual_simplex/presolve.cpp, which marks the columns
-- without an entry, lists them, and adds their costs to the constant.
use mathlib.Core.List.{append_assoc, append-nil, map-append}
use nvcuopt.Prelude.{
  ℕ, suc, ◌<◌, ◌≡◌, refl, sym, subst, ap, ◌∙◌, List, [], ◌∷◌, ◌++◌, map, arith, ◌==◌, true, false,
  Bool, inl, inr, Bool-cases, if◌then◌else◌, length, length-append, length-set, length-replicate,
  replicate, get_or-set_self, get_or-set_ne, set, span, for_loop, for_loop_inv,
}
use nvcuopt.Prelude.Num.{Num}
use nvcuopt.Sparse.Matrix.{at, val}
use nvcuopt.Sparse.Remove.Columns.{unmarked}
use nvcuopt.Sparse.Algebra.{IsSemiring, sum_below, add_nought}
use nvcuopt.Presolve.Problem.{LpProblem, PresolveInfo, push_back}
use nvcuopt.Presolve.Remove.{EmptyCols, mark_empty_col, nonnegative}
use nvcuopt.Presolve.Compact.{unmarked_last, marked, marked_last, get_or-map-span}

module _ {F : Type 0} where
  abbrev pub empty_col : LpProblem F → ℕ → Bool
  empty_col problem j = at problem.A.col_start (suc j) == at problem.A.col_start j

  -- The columns without an entry, by marks.
  abbrev pub empties : LpProblem F → List ℕ
  empties problem = map (λ j. if empty_col problem j then 1 else 0) (span 0 problem.num_cols)

module _ {F : Type 0} ⦃num : Num F⦄ where
  -- The value of a variable that no row mentions: the bound that its cost prefers.
  abbrev pub best_bound : LpProblem F → ℕ → F
  best_bound problem j =
      if nonnegative (val problem.objective j) then val problem.lower j else val problem.upper j

  -- obj_constant plus the costs times the values of x.
  abbrev pub objective_at : LpProblem F → (ℕ → F) → F
  objective_at problem x =
      num.add problem.obj_constant
        (sum_below problem.num_cols (λ j. num.mul (val problem.objective j) (x j)))

  mark_empty_col_hit :
      (problem : LpProblem F) (j : ℕ) (s : EmptyCols F)
      → empty_col problem j ≡ true
      → let t = mark_empty_col problem j s in
        (t.col_marker ≡ set s.col_marker j 1)
        × (t.new_cols ≡ s.new_cols)
        × (t.obj_constant
            ≡ num.add s.obj_constant (num.mul (val problem.objective j) (best_bound problem j)))
        × (t.info.remaining_variables ≡ s.info.remaining_variables)
        × (t.info.removed_variables ≡ push_back j s.info.removed_variables)
        × (t.info.removed_values ≡ push_back (best_bound problem j) s.info.removed_values)
  unfolding mark_empty_col
  mark_empty_col_hit problem j s hit = rw hit (refl, refl, refl, refl, refl, refl)

  mark_empty_col_miss :
      (problem : LpProblem F) (j : ℕ) (s : EmptyCols F)
      → empty_col problem j ≡ false
      → let t = mark_empty_col problem j s in
        (t.col_marker ≡ set s.col_marker j 0)
        × (t.new_cols ≡ suc s.new_cols)
        × (t.obj_constant ≡ s.obj_constant)
        × (t.info ≡ s.info)
  unfolding mark_empty_col
  mark_empty_col_miss problem j s miss = rw miss (refl, omega arith, refl, refl)

  -- What the first loop has done when it comes to column k.
  pub record Marking (problem : LpProblem F) (info : PresolveInfo F) (k : ℕ) (s : EmptyCols F)
      : Type 0 where
    pub size : length s.col_marker ≡ problem.num_cols
    pub marks : (j : ℕ) → j < k → at s.col_marker j ≡ at (empties problem) j
    pub count : s.new_cols ≡ length (unmarked (empties problem) 0 k)
    pub constant :
        s.obj_constant
        ≡ num.add problem.obj_constant (
            sum_below k (λ j.
              if at (empties problem) j == 0
              then num.nought
              else num.mul (val problem.objective j) (best_bound problem j)))
    pub remaining : s.info.remaining_variables ≡ info.remaining_variables
    pub removed : s.info.removed_variables ≡ info.removed_variables ++ marked (empties problem) 0 k
    pub values :
        s.info.removed_values
        ≡ info.removed_values ++ map (best_bound problem) (marked (empties problem) 0 k)

  pub at-empties :
      (problem : LpProblem F) (j : ℕ)
      → j < problem.num_cols
      → at (empties problem) j ≡ (if empty_col problem j then 1 else 0)
  at-empties problem j lt =
      get_or-map-span (λ j. if empty_col problem j then 1 else 0) 0 0 problem.num_cols j j lt
        (omega arith)

  -- The marks after column k has got its own.
  marks-set :
      (problem : LpProblem F) (marker : List ℕ) (k v : ℕ)
      → length marker ≡ problem.num_cols
      → k < problem.num_cols
      → v ≡ at (empties problem) k
      → ((j : ℕ) → j < k → at marker j ≡ at (empties problem) j)
      → (j : ℕ) → j < suc k
      → at (set marker k v) j ≡ at (empties problem) j
  marks-set problem marker k v size lt e old j low = elim (Bool-cases (k == j)) [
    | inl hit ↦
        let same : k ≡ j = ground arith in
        subst (λ i. at (set marker k v) i ≡ at (empties problem) i) same
          (get_or-set_self marker k v 0 (omega arith) ∙ e)
    | inr miss ↦ get_or-set_ne marker k j v 0 (ground arith) ∙ old j (ground arith)
  ]

module _ {F : Type 0} ⦃num : Num F⦄ (laws : IsSemiring num) where
  Marking-hit :
      (problem : LpProblem F) (info : PresolveInfo F) (k : ℕ) (s : EmptyCols F)
      → k < problem.num_cols
      → empty_col problem k ≡ true
      → Marking problem info k s
      → Marking problem info (suc k) (mark_empty_col problem k s)
  Marking-hit problem info k s lt hit inv =
      let E = empties problem in
      let (em, ec, eo, er, ev, ex) = mark_empty_col_hit problem k s hit in
      let mark : at E k ≡ 1 = at-empties problem k lt ∙ ap (λ b. if b then 1 else 0) hit in
      let goes : at E k == 0 ≡ false = ground arith in
      let best = best_bound problem in
      let more : marked E 0 (suc k) ≡ marked E 0 k ++ k ∷ [] =
        marked_last E 0 k k (omega arith)
        ∙ ap (λ (b : Bool). marked E 0 k ++ (if b then [] else k ∷ [])) goes in
      record {
        size = ap length em ∙ length-set s.col_marker k 1 ∙ inv.size;
        marks = λ j low.
            ap (λ m. at m j) em
            ∙ marks-set problem s.col_marker k 1 inv.size lt (sym mark) inv.marks j low;
        count =
            ec
            ∙ inv.count
            ∙ ap length (
                sym (append-nil (unmarked E 0 k))
                ∙ sym (
                    unmarked_last E 0 k k (omega arith)
                    ∙ ap (λ (b : Bool). unmarked E 0 k ++ (if b then k ∷ [] else [])) goes));
        constant =
            eo
            ∙ ap (λ a. num.add a (num.mul (val problem.objective k) (best k))) inv.constant
            ∙ laws.add_assoc _ _ _
            ∙ ap
                (λ (b : Bool). num.add problem.obj_constant (
                  num.add
                    (sum_below k (λ j.
                      if at E j == 0
                      then num.nought
                      else num.mul (val problem.objective j) (best j)))
                    (if b then num.nought else num.mul (val problem.objective k) (best k))))
                (sym goes);
        remaining = er ∙ inv.remaining;
        removed =
            ev
            ∙ ap (push_back k) inv.removed
            ∙ append_assoc info.removed_variables (marked E 0 k) (k ∷ [])
            ∙ ap (◌++◌ info.removed_variables) (sym more);
        values =
            ex
            ∙ ap (push_back (best k)) inv.values
            ∙ append_assoc info.removed_values (map best (marked E 0 k)) (best k ∷ [])
            ∙ ap (◌++◌ info.removed_values)
                (sym (ap (map best) more ∙ map-append best (marked E 0 k) (k ∷ [])));
      }

  Marking-miss :
      (problem : LpProblem F) (info : PresolveInfo F) (k : ℕ) (s : EmptyCols F)
      → k < problem.num_cols
      → empty_col problem k ≡ false
      → Marking problem info k s
      → Marking problem info (suc k) (mark_empty_col problem k s)
  Marking-miss problem info k s lt miss inv =
      let E = empties problem in
      let (em, ec, eo, ei) = mark_empty_col_miss problem k s miss in
      let mark : at E k ≡ 0 = at-empties problem k lt ∙ ap (λ b. if b then 1 else 0) miss in
      let stays : at E k == 0 ≡ true = ground arith in
      let best = best_bound problem in
      let same : marked E 0 (suc k) ≡ marked E 0 k =
        marked_last E 0 k k (omega arith)
        ∙ ap (λ (b : Bool). marked E 0 k ++ (if b then [] else k ∷ [])) stays
        ∙ append-nil (marked E 0 k) in
      let more : unmarked E 0 (suc k) ≡ unmarked E 0 k ++ k ∷ [] =
        unmarked_last E 0 k k (omega arith)
        ∙ ap (λ (b : Bool). unmarked E 0 k ++ (if b then k ∷ [] else [])) stays in
      record {
        size = ap length em ∙ length-set s.col_marker k 0 ∙ inv.size;
        marks = λ j low.
            ap (λ m. at m j) em
            ∙ marks-set problem s.col_marker k 0 inv.size lt (sym mark) inv.marks j low;
        count =
            omega (arith, ec, inv.count, ap length more, length-append (unmarked E 0 k) (k ∷ []));
        constant =
            eo
            ∙ inv.constant
            ∙ ap (num.add problem.obj_constant) (
                sym (add_nought laws _)
                ∙ ap
                    (λ (b : Bool).
                      num.add
                        (sum_below k (λ j.
                          if at E j == 0
                          then num.nought
                          else num.mul (val problem.objective j) (best j)))
                        (if b then num.nought else num.mul (val problem.objective k) (best k)))
                    (sym stays));
        remaining = ap (λ (i : PresolveInfo F). i.remaining_variables) ei ∙ inv.remaining;
        removed =
            ap (λ (i : PresolveInfo F). i.removed_variables) ei
            ∙ inv.removed
            ∙ ap (◌++◌ info.removed_variables) (sym same);
        values =
            ap (λ (i : PresolveInfo F). i.removed_values) ei
            ∙ inv.values
            ∙ ap (λ ks. info.removed_values ++ map best ks) (sym same);
      }

  pub first_loop :
      (problem : LpProblem F) (info : PresolveInfo F)
      → Marking problem info problem.num_cols (
          for_loop 0 problem.num_cols (mark_empty_col problem) (record {
            col_marker = replicate problem.num_cols 0;
            info = info;
            obj_constant = problem.obj_constant;
            new_cols = 0;
          }))
  first_loop problem info =
      for_loop_inv (Marking problem info) (mark_empty_col problem) 0 problem.num_cols (omega arith)
        (λ k s _ lt inv. elim (Bool-cases (empty_col problem k)) [
          | inl hit ↦ Marking-hit problem info k s lt hit inv
          | inr miss ↦ Marking-miss problem info k s lt miss inv
        ])
        _
        (record {
          size = length-replicate problem.num_cols 0;
          marks = λ j lt. absurd (omega arith);
          count = refl;
          constant = sym (add_nought laws problem.obj_constant);
          remaining = refl;
          removed = sym (append-nil info.removed_variables);
          values = sym (append-nil info.removed_values);
        })
