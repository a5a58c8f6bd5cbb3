-- ===== src/Presolve/Greater.antt =====
-- `convert_greater_to_less` of cpp/src/dual_simplex/presolve.cpp changes the sign of the rows with
-- sense 'G' and of their right-hand sides.
use mathlib.Core.List.{map-map}
use nvcuopt.Prelude.{
  ℕ, suc, ◌≤◌, ◌<◌, ◌≡◌, refl, sym, subst, ap, ◌∙◌, List, [], ◌∷◌, map, arith, length,
  map-span_congr, All, for_loop,
}
use nvcuopt.Prelude.Num.{Num}
use nvcuopt.Sparse.Matrix.{Csc, Csr, at, val}
use nvcuopt.Sparse.Layout.{cols, rows, segment, entry, width, IsLayout}
use nvcuopt.Sparse.Convert.{to_compressed_row, to_compressed_col}
use nvcuopt.Sparse.Convert.Coeffs.{coeffs, values}
use nvcuopt.Sparse.Convert.Correct.{to_compressed_row-coeffs, to_compressed_col-coeffs}
use nvcuopt.Presolve.Problem.{LpProblem, no_rows}
use nvcuopt.Presolve.Convert.{Senses, negate_greater_row, convert_greater_to_less}
use nvcuopt.Presolve.Negate.{lessened, turned, HasRoom}
use nvcuopt.Presolve.Turn.{negated}

module _ {F : Type 0} ⦃num : Num F⦄ where
  -- The row and column numbers of the matrix are those of the problem, which it fits.
  pub record IsProblem (problem : LpProblem F) : Type 0 where
    pub layout : IsLayout problem.num_cols problem.num_rows (cols problem.A)
    pub columns : problem.A.n ≡ problem.num_cols
    pub matrix_rows : problem.A.m ≡ problem.num_rows
    pub sides : problem.num_rows ≤ length problem.rhs

  to_compressed_row_shape :
      (A : Csc F) (B : Csr F)
      → ((to_compressed_row A B).m ≡ A.m) × ((to_compressed_row A B).n ≡ A.n)
  unfolding to_compressed_row
  to_compressed_row_shape A B = (refl, refl)

  abbrev turned_entry : ℕ → ℕ × F → ℕ × F
  turned_entry sense e = (e.0, turned sense e.1)

  values-turned :
      (sense j : ℕ) (l : List (ℕ × F))
      → values j (map (turned_entry sense) l) ≡ map (turned sense) (values j l)
  values-turned sense j [] = refl
  values-turned sense j ((c, v) ∷ l) = ground (arith, values-turned sense j l)

  turned-All :
      (n sense : ℕ) (l : List (ℕ × F))
      → All (λ e. e.0 < n) l
      → All (λ e. e.0 < n) (map (turned_entry sense) l)
  turned-All n sense [] h = tt
  turned-All n sense (e ∷ l) h = (h.0, turned-All n sense l h.1)

  -- A row of the matrix with the new values.
  segment-turned :
      (A : Csr F) (x : List F) (r sense : ℕ)
      → at A.row_start r ≤ at A.row_start (suc r)
      → ((p : ℕ)
          → at A.row_start r ≤ p
          → p < at A.row_start (suc r)
          → val x p ≡ turned sense (val A.x p))
      → segment (rows (record A { x = x })) r ≡ map (turned_entry sense) (segment (rows A) r)
  segment-turned A x r sense up same =
      map-span_congr _ _ (at A.row_start r) (width (rows A) r)
        (λ p from under. ap (λ (v : F). (at A.j p, v)) (same p from (omega arith)))
      ∙ sym (map-map (turned_entry sense) (entry (rows A)) _)

  -- For a well-formed problem and as many senses as rows, `convert_greater_to_less` leaves a
  -- well-formed matrix, whose coefficients in a row with sense 'G' are those of the problem times
  -- -1, duplicates included and in their order, and those of the other rows are unchanged. The
  -- right-hand sides change in the same way, and the senses 'G' become 'L'.
  pub convert_greater_to_less-coeffs :
      (c : Senses) (problem : LpProblem F)
      → IsProblem problem
      → problem.num_rows ≤ length c.row_sense
      → let (R, c') = convert_greater_to_less c problem in
        let n = problem.num_cols in
        let m = problem.num_rows in
        IsLayout n m (cols R.A)
        × ((r j : ℕ)
            → r < m
            → j < n
            → coeffs (cols R.A) j r ≡ map (turned (at c.row_sense r)) (coeffs (cols problem.A) j r))
        × ((r : ℕ) → r < m → val R.rhs r ≡ turned (at c.row_sense r) (val problem.rhs r))
        × ((r : ℕ) → r < m → at c'.row_sense r ≡ lessened (at c.row_sense r))
  unfolding convert_greater_to_less
  convert_greater_to_less-coeffs c problem h senses =
      let n = problem.num_cols in
      let m = problem.num_rows in
      let A = problem.A in
      let Arow = to_compressed_row A no_rows in
      let (em, en) = to_compressed_row_shape A no_rows in
      let rows_m : Arow.m ≡ m = em ∙ h.matrix_rows in
      let rows_n : Arow.n ≡ n = en ∙ h.columns in
      let input : IsLayout A.n A.m (cols A) =
        subst (λ k. IsLayout k A.m (cols A)) (sym h.columns)
          (subst (λ k. IsLayout n k (cols A)) (sym h.matrix_rows) h.layout) in
      let (by_row, same) = to_compressed_row-coeffs A no_rows input in
      let by_row' : IsLayout m Arow.n (rows Arow) =
        subst (λ k. IsLayout m k (rows Arow)) (sym en)
          (subst (λ k. IsLayout k A.n (rows Arow)) h.matrix_rows by_row) in
      let room : HasRoom Arow Arow.x problem.rhs c m = record {
        layout = by_row';
        values = by_row'.value_room;
        sides = h.sides;
        senses = senses;
      } in
      let t = for_loop 0 m (negate_greater_row Arow) (Arow.x, problem.rhs, c) in
      let done = negated Arow Arow.x problem.rhs c m room in
      let B = record Arow { x = t.0 } in
      let row : (r : ℕ)
          → r < m
          → segment (rows B) r ≡ map (turned_entry (at c.row_sense r)) (segment (rows Arow) r) =
        λ r lt.
          segment-turned Arow t.0 r (at c.row_sense r) (by_row'.rising r lt)
            (λ p from under. done.x_done r p lt from under) in
      let turned_rows : IsLayout m Arow.n (rows B) = record {
        starts_size = by_row'.starts_size;
        first = by_row'.first;
        rising = by_row'.rising;
        index_room = by_row'.index_room;
        value_room = omega (arith, by_row'.value_room, done.x_size);
        bounded = λ r lt.
            subst (All (λ e. e.0 < Arow.n)) (sym (row r lt))
              (turned-All Arow.n (at c.row_sense r) (segment (rows Arow) r) (by_row'.bounded r lt));
      } in
      let turned_rows' : IsLayout B.m B.n (rows B) =
        subst (λ k. IsLayout k Arow.n (rows B)) (sym rows_m) turned_rows in
      let (by_col, back) = to_compressed_col-coeffs B A turned_rows' in
      (
        subst (λ k. IsLayout k m (cols (to_compressed_col B A))) rows_n
            (subst (λ k. IsLayout Arow.n k (cols (to_compressed_col B A))) rows_m by_col),
        λ r j rm jn.
            back j r (omega (arith, rows_n)) (omega (arith, rows_m))
            ∙ ap (values j) (row r rm)
            ∙ values-turned (at c.row_sense r) j (segment (rows Arow) r)
            ∙ ap (map (turned (at c.row_sense r)))
                (same r j (omega (arith, h.matrix_rows)) (omega (arith, h.columns))),
        done.rhs_done,
        done.sense_done,
      )
