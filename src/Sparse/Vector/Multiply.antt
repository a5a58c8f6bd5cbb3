-- ===== src/Sparse/Vector/Multiply.antt =====
-- The products of a matrix and a vector of cpp/src/dual_simplex/sparse_matrix.cpp against the textbook
-- sums, for values that obey the laws of a semiring.
use nvcuopt.Prelude.{
  ℕ, ◌≤◌, ◌<◌, ◌≡◌, refl, sym, ap, ap₂, ◌∙◌, List, [], ◌∷◌, map, foldl, arith, ◌==◌, inl, inr,
  Bool-cases, if◌then◌else◌, length, length-set, get_or-set, set, span, All, for_loop, for_loop_inv,
  ltb,
}
use mathlib.Core.List.{foldl-map, map-map}
use nvcuopt.Prelude.Num.{Num}
use nvcuopt.Sparse.Matrix.{Csc, at, val}
use nvcuopt.Sparse.Layout.{cols, segment, entry, width, IsLayout}
use nvcuopt.Sparse.Convert.Coeffs.{values}
use nvcuopt.Sparse.Algebra.{
  IsSemiring, cell, coefficient, sum_below, weigh, weigh-sum_below, add_nought,
}
use nvcuopt.Sparse.Vector.{
  scale_vector, add_column_times, matrix_vector_multiply, column_dot,
  matrix_transpose_vector_multiply,
}
use nvcuopt.Sparse.Vector.Accumulate.{
  accumulate, length-accumulate, val-accumulate, accumulate_loop,
}

module _ {F : Type 0} ⦃num : Num F⦄ (laws : IsSemiring num) where
  foldl-cell :
      (r : ℕ) (a : F) (l : List (ℕ × F)) → foldl num.add a (values r l) ≡ num.add a (cell l r)
  foldl-cell r a [] = sym (add_nought laws a)
  foldl-cell r a ((c, v) ∷ l) = elim (Bool-cases (c == r)) [
    | inl hit ↦ rw hit (foldl-cell r (num.add a v) l ∙ laws.add_assoc a v (cell l r))
    | inr miss ↦ rw miss (foldl-cell r a l)
  ]

  -- The places below n times beta.
  scaled_below :
      (n : ℕ) (beta : F) (y : List F)
      → n ≤ length y
      → let z = for_loop 0 n (λ i z. set z i (num.mul (val z i) beta)) y in
        (length z ≡ length y)
        × ((r : ℕ) → val z r ≡ (if ltb r n then num.mul (val y r) beta else val y r))
  scaled_below n beta y le =
      for_loop_inv
        (λ j z.
          (length z ≡ length y)
          × ((r : ℕ) → val z r ≡ (if ltb r j then num.mul (val y r) beta else val y r)))
        (λ i z. set z i (num.mul (val z i) beta)) 0 n (omega arith)
        (λ j z _ lt h. (
          length-set z j (num.mul (val z j) beta) ∙ h.0,
          λ r.
              ground
                (arith, get_or-set z j r (num.mul (val z j) beta) num.nought, h.0, h.1 r, h.1 j),
        ))
        y (refl, λ r. ground arith)

  scale_vector-val :
      (n : ℕ) (beta : F) (y : List F)
      → n ≤ length y
      → (length (scale_vector n beta y) ≡ length y)
        × ((r : ℕ) → r < n → val (scale_vector n beta y) r ≡ num.mul (val y r) beta)
  unfolding scale_vector
  scale_vector-val n beta y le = elim (Bool-cases (num.eq beta num.one)) [
    | inl unit ↦
        let e : beta ≡ num.one = laws.eq_sound beta num.one unit in
        rw unit (refl, λ r lt. rw e (sym (laws.mul_one (val y r))))
    | inr other ↦
        let (size, all) = scaled_below n beta y le in rw other (size, λ r lt. all r ∙ ground arith)
  ]

  -- The entries of column j times a number.
  abbrev times : Csc F → F → F → ℕ → List (ℕ × F)
  times A alpha b j = map (λ e. (e.0, num.mul (num.mul alpha e.1) b)) (segment (cols A) j)

  cell-times :
      (A : Csc F) (alpha b : F) (r : ℕ) (l : List (ℕ × F))
      → cell (map (λ e. (e.0, num.mul (num.mul alpha e.1) b)) l) r
        ≡ num.mul (num.mul alpha (cell l r)) b
  cell-times A alpha b r [] =
      sym (ap (λ a. num.mul a b) (laws.mul_nought alpha) ∙ laws.nought_mul b)
  cell-times A alpha b r ((c, v) ∷ l) = elim (Bool-cases (c == r)) [
    | inl hit ↦ rw hit (
        ap (num.add (num.mul (num.mul alpha v) b)) (cell-times A alpha b r l)
        ∙ sym (laws.add_mul (num.mul alpha v) (num.mul alpha (cell l r)) b)
        ∙ ap (λ a. num.mul a b) (sym (laws.mul_add alpha v (cell l r))))
    | inr miss ↦ rw miss (cell-times A alpha b r l)
  ]

  All-times :
      (m : ℕ) (alpha b : F) (l : List (ℕ × F))
      → All (λ e. e.0 < m) l
      → All (λ (e : ℕ × F). e.0 < m) (map (λ e. (e.0, num.mul (num.mul alpha e.1) b)) l)
  All-times m alpha b [] h = tt
  All-times m alpha b (e ∷ l) h = (h.0, All-times m alpha b l h.1)

  add_column_times_lem :
      (A : Csc F) (alpha : F) (x : List F) (j : ℕ) (y : List F)
      → add_column_times A alpha x j y ≡ accumulate (times A alpha (val x j) j) y
  unfolding add_column_times
  add_column_times_lem A alpha x j y =
      let ps = span (at A.col_start j) (width (cols A) j) in
      accumulate_loop (λ p. (at A.i p, num.mul (num.mul alpha (val A.x p)) (val x j))) _ ps y
        (λ p z. refl)
      ∙ ap (λ l. accumulate l y)
          (sym (
            map-map (λ (e : ℕ × F). (e.0, num.mul (num.mul alpha e.1) (val x j))) (entry (cols A))
              ps))

  -- One round adds one term of the sum to each place.
  add_column_times-val :
      (A : Csc F) (alpha : F) (x : List F) (j : ℕ) (y : List F)
      → IsLayout A.n A.m (cols A)
      → j < A.n
      → length y ≡ A.m
      → (length (add_column_times A alpha x j y) ≡ A.m)
        × ((r : ℕ)
            → val (add_column_times A alpha x j y) r
              ≡ num.add (val y r) (num.mul (num.mul alpha (coefficient A r j)) (val x j)))
  add_column_times-val A alpha x j y h lt size =
      let l = segment (cols A) j in
      rw (add_column_times_lem A alpha x j y) (
        length-accumulate (times A alpha (val x j) j) y ∙ size,
        λ r.
            val-accumulate r (times A alpha (val x j) j) y
              (rw size (All-times A.m alpha (val x j) l (h.bounded j lt)))
            ∙ foldl-cell r (val y r) (times A alpha (val x j) j)
            ∙ ap (num.add (val y r)) (cell-times A alpha (val x j) r l),
      )

  -- For a well-formed m × n matrix A, a vector y with m places and values that obey the laws of a
  -- semiring, `matrix_vector_multiply` leaves in y[r] the old y[r] times beta, plus the sum over j of
  -- alpha times the coefficient of A in row r and column j times x[j].
  pub matrix_vector_multiply-val :
      (A : Csc F) (alpha : F) (x : List F) (beta : F) (y : List F)
      → IsLayout A.n A.m (cols A)
      → length y ≡ A.m
      → (r : ℕ) → r < A.m
      → val (matrix_vector_multiply A alpha x beta y) r
        ≡ num.add
            (num.mul (val y r) beta)
            (sum_below A.n (λ j. num.mul (num.mul alpha (coefficient A r j)) (val x j)))
  unfolding matrix_vector_multiply
  matrix_vector_multiply-val A alpha x beta y h size r lt =
      let (scaled_size, scaled_val) = scale_vector-val A.m beta y (omega arith) in
      let y0 = scale_vector A.m beta y in
      let term = λ (j : ℕ). num.mul (num.mul alpha (coefficient A r j)) (val x j) in
      let end =
        for_loop_inv (λ j z. (length z ≡ A.m) × (val z r ≡ num.add (val y0 r) (sum_below j term)))
          (add_column_times A alpha x) 0 A.n (omega arith)
          (λ j z _ below inv.
            let (len, round) = add_column_times-val A alpha x j z h below inv.0 in
            (
              len,
              round r
                  ∙ ap (λ a. num.add a (term j)) inv.1
                  ∙ laws.add_assoc (val y0 r) (sum_below j term) (term j),
            ))
          y0 (scaled_size ∙ size, sym (add_nought laws (val y0 r))) in
      end.1 ∙ ap (λ a. num.add a (sum_below A.n term)) (scaled_val r lt)

  column_dot-weigh :
      (g : ℕ → F) (l : List (ℕ × F)) (a : F)
      → foldl (λ dot e. num.add dot (num.mul e.1 (g e.0))) a l ≡ num.add a (weigh g l)
  column_dot-weigh g [] a = sym (add_nought laws a)
  column_dot-weigh g ((c, v) ∷ l) a =
      column_dot-weigh g l (num.add a (num.mul v (g c)))
      ∙ laws.add_assoc a (num.mul v (g c)) (weigh g l)

  column_dot-sum_below :
      (A : Csc F) (x : List F) (j : ℕ)
      → IsLayout A.n A.m (cols A)
      → j < A.n
      → column_dot A x j ≡ sum_below A.m (λ r. num.mul (coefficient A r j) (val x r))
  unfolding column_dot
  column_dot-sum_below A x j h lt =
      let l = segment (cols A) j in
      let ps = span (at A.col_start j) (width (cols A) j) in
      sym (
        foldl-map (entry (cols A)) (λ (dot : F) (e : ℕ × F). num.add dot (num.mul e.1 (val x e.0)))
          ps num.nought)
      ∙ column_dot-weigh (val x) l num.nought
      ∙ laws.nought_add (weigh (val x) l)
      ∙ weigh-sum_below laws (val x) A.m l (h.bounded j lt)

  -- For a well-formed m × n matrix A, a vector y with n places and values that obey the laws of a
  -- semiring, `matrix_transpose_vector_multiply` leaves in y[j] the old y[j] times beta, plus alpha
  -- times the sum over r of the coefficient of A in row r and column j times x[r].
  pub matrix_transpose_vector_multiply-val :
      (A : Csc F) (alpha : F) (x : List F) (beta : F) (y : List F)
      → IsLayout A.n A.m (cols A)
      → length y ≡ A.n
      → (j : ℕ) → j < A.n
      → val (matrix_transpose_vector_multiply A alpha x beta y) j
        ≡ num.add
            (num.mul (val y j) beta)
            (num.mul alpha (sum_below A.m (λ r. num.mul (coefficient A r j) (val x r))))
  unfolding matrix_transpose_vector_multiply
  matrix_transpose_vector_multiply-val A alpha x beta y h size j lt =
      let (scaled_size, scaled_val) = scale_vector-val A.n beta y (omega arith) in
      let y0 = scale_vector A.n beta y in
      let term = λ (k : ℕ). num.mul alpha (column_dot A x k) in
      let end =
        for_loop_inv
          (λ k z.
            (length z ≡ A.n)
            × ((i : ℕ) → val z i ≡ (if ltb i k then num.add (val y0 i) (term i) else val y0 i)))
          (λ k z. set z k (num.add (val z k) (term k))) 0 A.n (omega arith)
          (λ k z _ below inv. (
            length-set z k (num.add (val z k) (term k)) ∙ inv.0,
            λ i. ground (
              arith,
              get_or-set z k i (num.add (val z k) (term k)) num.nought,
              inv.0,
              inv.1 i,
              inv.1 k,
            ),
          ))
          y0 (scaled_size ∙ size, λ i. ground arith) in
      let here : val (matrix_transpose_vector_multiply A alpha x beta y) j
          ≡ num.add (val y0 j) (term j) =
        end.1 j ∙ ground arith in
      here ∙ ap₂ num.add (scaled_val j lt) (ap (num.mul alpha) (column_dot-sum_below A x j h lt))
