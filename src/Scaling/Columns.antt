-- ===== src/Scaling/Columns.antt =====
-- The loops of `column_scaling` in cpp/src/dual_simplex/scaling.cpp.
use mathlib.Core.List.{map-map, foldl-map}
use nvcuopt.Prelude.{
  ℕ, suc, ◌-◌, ◌≤◌, ◌<◌, ◌≡◌, refl, sym, subst, ap, ◌∙◌, List, map, foldl, span, if◌then◌else◌,
  map-span_congr, arith, ◌==◌, inl, inr, Bool-cases, length, length-resize, resize, for_loop_inv,
  true,
}
use nvcuopt.Prelude.Num.{Num}
use nvcuopt.Sparse.Matrix.{Csc, at, val}
use nvcuopt.Sparse.Layout.{cols, segment, entry, width, IsLayout}
use nvcuopt.Presolve.Problem.{LpProblem}
use nvcuopt.Presolve.Negate.{start_le}
use nvcuopt.Presolve.Greater.{IsProblem}
use nvcuopt.Scaling.{column_norm, scale_values, divide_each, multiply_each, column_scaling}
use nvcuopt.Vectors.Update.{update_range, update_range-Updated}

module _ {F : Type 0} ⦃num : Num F⦄ where
  -- What is done when the loop over the values comes to column k.
  record Divided (A : Csc F) (s : List F) (k : ℕ) (x : List F) : Type 0 where
    size : length x ≡ length A.x
    done :
        (j p : ℕ)
        → j < k
        → at A.col_start j ≤ p
        → p < at A.col_start (suc j)
        → val x p ≡ num.div (val A.x p) (val s j)
    later : (p : ℕ) → at A.col_start k ≤ p → val x p ≡ val A.x p

  divide_column :
      (n m : ℕ) (A : Csc F) (s x : List F) (k : ℕ)
      → IsLayout n m (cols A)
      → k < n
      → Divided A s k x
      → Divided A s (suc k) (
          update_range num.nought
            (λ p a. num.div a (val s k))
            (at A.col_start k)
            (at A.col_start (suc k))
            x)
  divide_column n m A s x k h lt inv =
      let end_le = start_le n m (cols A) h (suc k) (n - suc k) n (omega arith) (omega arith) in
      let up =
        update_range-Updated num.nought (λ p a. num.div a (val s k)) (at A.col_start k)
          (at A.col_start (suc k)) x (h.rising k lt) (omega (arith, h.value_room, inv.size)) in
      record {
        size = up.size ∙ inv.size;
        done = λ j p low from under. elim (Bool-cases (k == j)) [
          | inl hit ↦
              let e : k ≡ j = ground arith in
              up.done p (subst (λ i. at A.col_start i ≤ p) (sym e) from)
                (subst (λ i. p < at A.col_start (suc i)) (sym e) under)
              ∙ ap (λ a. num.div a (val s k))
                  (inv.later p (subst (λ i. at A.col_start i ≤ p) (sym e) from))
              ∙ ap (λ i. num.div (val A.x p) (val s i)) e
          | inr miss ↦
              let below : j < k = ground arith in
              let reach =
                start_le n m (cols A) h (suc j) (k - suc j) k (omega arith) (omega arith) in
              up.before p (omega arith) ∙ inv.done j p below from under
        ];
        later = λ p from. let rise = h.rising k lt in up.after p from ∙ inv.later p (omega arith);
      }

  scale_values-Divided :
      (n m : ℕ) (A : Csc F) (s : List F)
      → IsLayout n m (cols A)
      → Divided A s n (scale_values n A s)
  unfolding scale_values
  scale_values-Divided n m A s h =
      for_loop_inv (Divided A s) _ 0 n (omega arith)
        (λ k x from lt inv. divide_column n m A s x k h lt inv) A.x
        (record { size = refl; done = λ j p low. absurd (omega arith); later = λ p from. refl })

  -- The columns of the scaled matrix.
  abbrev pub divided_entry : F → ℕ × F → ℕ × F
  divided_entry s e = (e.0, num.div e.1 s)

  segment-scaled :
      (n m : ℕ) (A : Csc F) (s : List F) (j : ℕ)
      → IsLayout n m (cols A)
      → j < n
      → segment (cols (record A { x = scale_values n A s })) j
        ≡ map (divided_entry (val s j)) (segment (cols A) j)
  segment-scaled n m A s j h lt =
      let divided = scale_values-Divided n m A s h in
      let up = h.rising j lt in
      map-span_congr _ _ (at A.col_start j) (width (cols A) j)
        (λ p from under. ap (λ (v : F). (at A.i p, v)) (divided.done j p lt from (omega arith)))
      ∙ sym (map-map (divided_entry (val s j)) (entry (cols A)) _)

  -- The sum of the squares of entries, added in their order.
  abbrev pub square_sum : List (ℕ × F) → F
  square_sum l = foldl (λ sum e. num.add sum (num.mul e.1 e.1)) num.nought l

  -- The root of the sum of the squares where that sum is above 0, and 1 where it is not.
  abbrev pub norm_of : (F → F) → List (ℕ × F) → F
  norm_of sqrt l = if num.lt num.nought (square_sum l) then sqrt (square_sum l) else num.one

  pub column_norm-norm_of :
      (sqrt : F → F) (A : Csc F) (j : ℕ) → column_norm sqrt A j ≡ norm_of sqrt (segment (cols A) j)
  unfolding column_norm
  column_norm-norm_of sqrt A j =
      ap (λ a. if num.lt num.nought a then sqrt a else num.one)
        (sym (
          foldl-map (entry (cols A)) (λ a (e : ℕ × F). num.add a (num.mul e.1 e.1))
            (span (at A.col_start j) (width (cols A) j)) num.nought))

  -- R is P scaled by s, where s has `norm` for each column.
  pub record Scales (norm : ℕ → F) (P R : LpProblem F) (s : List F) : Type 0 where
    pub rows : R.num_rows ≡ P.num_rows
    pub columns : R.num_cols ≡ P.num_cols
    pub constant : R.obj_constant ≡ P.obj_constant
    pub factor : R.obj_scale ≡ P.obj_scale
    pub size : length s ≡ P.num_cols
    pub sides : R.rhs ≡ P.rhs
    pub scale : (j : ℕ) → j < P.num_cols → val s j ≡ norm j
    pub column :
        (j : ℕ)
        → j < P.num_cols
        → segment (cols R.A) j ≡ map (divided_entry (val s j)) (segment (cols P.A) j)
    pub cost : (j : ℕ) → j < P.num_cols → val R.objective j ≡ num.div (val P.objective j) (val s j)
    pub low : (j : ℕ) → j < P.num_cols → val R.lower j ≡ num.mul (val P.lower j) (val s j)
    pub high : (j : ℕ) → j < P.num_cols → val R.upper j ≡ num.mul (val P.upper j) (val s j)

  -- With scale_columns on, for a well-formed problem with costs and bounds for all its columns:
  -- `column_scaling` gives each column a scale, which is the square root of the sum of the squares of
  -- its entries where that sum is above 0, and else 1. It divides the entries of the column and its
  -- cost by the scale, multiplies its bounds by it, and leaves the numbers of rows and columns, the
  -- right-hand sides and the constant and the scale of the objective.
  pub column_scaling-Scales :
      (sqrt : F → F) (P : LpProblem F) (scales : List F)
      → IsProblem P
      → P.num_cols ≤ length P.objective
      → P.num_cols ≤ length P.lower
      → P.num_cols ≤ length P.upper
      → let (R, s) = column_scaling sqrt true P scales in
        Scales (λ j. norm_of sqrt (segment (cols P.A) j)) P R s
  unfolding column_scaling divide_each multiply_each
  column_scaling-Scales sqrt P scales h costs lows highs =
      let n = P.num_cols in
      let s0 = resize n num.nought scales in
      let norms =
        update_range-Updated num.nought (λ j a. column_norm sqrt P.A j) 0 n s0 (omega arith)
          (omega (arith, length-resize n num.nought scales)) in
      let s = update_range num.nought (λ j a. column_norm sqrt P.A j) 0 n s0 in
      record {
        rows = refl;
        columns = refl;
        constant = refl;
        factor = refl;
        size = norms.size ∙ length-resize n num.nought scales;
        sides = refl;
        scale = λ j lt. norms.done j (omega arith) lt ∙ column_norm-norm_of sqrt P.A j;
        column = λ j lt. segment-scaled n P.num_rows P.A s j h.layout lt;
        cost = λ j lt.
            (update_range-Updated num.nought (λ j a. num.div a (val s j)) 0 n P.objective
                (omega arith) costs).done
              j (omega arith) lt;
        low = λ j lt.
            (update_range-Updated num.nought (λ j a. num.mul a (val s j)) 0 n P.lower (omega arith)
                lows).done
              j (omega arith) lt;
        high = λ j lt.
            (update_range-Updated num.nought (λ j a. num.mul a (val s j)) 0 n P.upper (omega arith)
                highs).done
              j (omega arith) lt;
      }
