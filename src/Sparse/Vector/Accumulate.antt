-- ===== src/Sparse/Vector/Accumulate.antt =====
-- The loops of cpp/src/dual_simplex/sparse_matrix.cpp that add to a dense vector, `scatter_dense`
-- among them.
use mathlib.Core.List.{foldl-map, map-map}
use nvcuopt.Prelude.{
  ℕ, ◌≤◌, ◌<◌, ◌≡◌, refl, sym, ap, ◌∙◌, List, [], ◌∷◌, map, foldl, arith, ◌==◌, inl, inr,
  Bool-cases, length, length-set, get_or-set, get_or-set_ne, set, span, All, get_or-set_self,
}
use nvcuopt.Prelude.Num.{Num}
use nvcuopt.Sparse.Matrix.{Csc, at, val}
use nvcuopt.Sparse.Layout.{cols, segment, entry, width, IsLayout}
use nvcuopt.Sparse.Convert.Coeffs.{values, coeffs}
use nvcuopt.Sparse.Convert.{load_a_column}
use nvcuopt.Sparse.Product.{scatter_dense}
use nvcuopt.Sparse.Product.Collect.{scaled, All-scaled}
use nvcuopt.Sparse.Remove.Columns.{length-segment}

module _ {F : Type 0} ⦃num : Num F⦄ where
  -- y[e.0] += e.1, for each entry e.
  abbrev pub accumulate : List (ℕ × F) → List F → List F
  accumulate [] y = y
  accumulate ((c, v) ∷ l) y = accumulate l (set y c (num.add (val y c) v))

  pub length-accumulate : (l : List (ℕ × F)) (y : List F) → length (accumulate l y) ≡ length y
  length-accumulate [] y = refl
  length-accumulate ((c, v) ∷ l) y =
      length-accumulate l (set y c (num.add (val y c) v)) ∙ length-set y c (num.add (val y c) v)

  -- Each place gets its values in turn.
  pub val-accumulate :
      (r : ℕ) (l : List (ℕ × F)) (y : List F)
      → All (λ e. e.0 < length y) l
      → val (accumulate l y) r ≡ foldl num.add (val y r) (values r l)
  val-accumulate r [] y h = refl
  val-accumulate r ((c, v) ∷ l) y h =
      let y' = set y c (num.add (val y c) v) in
      let size : length y' ≡ length y = length-set y c (num.add (val y c) v) in
      let later = val-accumulate r l y' (rw size h.1) in
      elim (Bool-cases (c == r)) [
        | inl hit ↦
            let e : c ≡ r = ground arith in
            rw hit (
              later
              ∙ ap (λ a. foldl num.add a (values r l))
                  (rw e
                    (get_or-set_self y r (num.add (val y r) v) num.nought (omega (arith, h.0, e)))))
        | inr miss ↦ rw miss (
            later
            ∙ ap (λ a. foldl num.add a (values r l))
                (get_or-set_ne y c r (num.add (val y c) v) num.nought (ground arith)))
      ]

  -- A loop over a column that adds an entry each time.
  pub accumulate_loop :
      (f : ℕ → ℕ × F) (body : ℕ → List F → List F) (ps : List ℕ) (y : List F)
      → ((p : ℕ) (z : List F) → body p z ≡ set z (f p).0 (num.add (val z (f p).0) (f p).1))
      → foldl (λ z p. body p z) y ps ≡ accumulate (map f ps) y
  accumulate_loop f body [] y h = refl
  accumulate_loop f body (p ∷ ps) y h =
      accumulate_loop f body ps (body p y) h ∙ ap (accumulate (map f ps)) (h p y)

  values-scaled :
      (r : ℕ) (b : F) (l : List (ℕ × F)) → values r (scaled b l) ≡ map (num.mul b) (values r l)
  values-scaled r b [] = refl
  values-scaled r b ((c, v) ∷ l) = ground (arith, values-scaled r b l)

  All-weaken : (m k : ℕ) (l : List (ℕ × F)) → m ≤ k → All (λ e. e.0 < m) l → All (λ e. e.0 < k) l
  All-weaken m k [] le h = tt
  All-weaken m k (e ∷ l) le h = (omega (arith, h.0), All-weaken m k l le h.1)

  scatter_dense_lem :
      (A : Csc F) (j : ℕ) (alpha : F) (x : List F)
      → scatter_dense A j alpha x ≡ accumulate (scaled alpha (segment (cols A) j)) x
  unfolding scatter_dense
  scatter_dense_lem A j alpha x =
      let ps = span (at A.col_start j) (width (cols A) j) in
      accumulate_loop (λ p. (at A.i p, num.mul alpha (val A.x p))) _ ps x (λ p z. refl)
      ∙ ap (λ l. accumulate l x)
          (sym (map-map (λ (e : ℕ × F). (e.0, num.mul alpha e.1)) (entry (cols A)) ps))

  -- For a well-formed m × n matrix A, a column j of it and a vector x with at least m places,
  -- `scatter_dense` adds to x[r] alpha times each of the values that A holds in column j at row r,
  -- in their order.
  pub scatter_dense-val :
      (A : Csc F) (j : ℕ) (alpha : F) (x : List F)
      → IsLayout A.n A.m (cols A)
      → j < A.n
      → A.m ≤ length x
      → (r : ℕ)
      → val (scatter_dense A j alpha x) r
        ≡ foldl num.add (val x r) (map (num.mul alpha) (coeffs (cols A) j r))
  scatter_dense-val A j alpha x h lt le r =
      let l = segment (cols A) j in
      ap (λ y. val y r) (scatter_dense_lem A j alpha x)
      ∙ val-accumulate r (scaled alpha l) x
          (All-weaken A.m (length x) (scaled alpha l) le (All-scaled A.m alpha l (h.bounded j lt)))
      ∙ ap (foldl num.add (val x r)) (values-scaled r alpha l)

  -- y[e.0] = e.1, for each entry e.
  abbrev pub overwrite : List (ℕ × F) → List F → List F
  overwrite l y = foldl (λ z e. set z e.0 e.1) y l

  pub val-overwrite :
      (r : ℕ) (l : List (ℕ × F)) (y : List F)
      → All (λ e. e.0 < length y) l
      → val (overwrite l y) r ≡ foldl (λ _ v. v) (val y r) (values r l)
  val-overwrite r [] y h = refl
  val-overwrite r ((c, v) ∷ l) y h =
      let size : length (set y c v) ≡ length y = length-set y c v in
      let later = val-overwrite r l (set y c v) (rw size h.1) in
      elim (Bool-cases (c == r)) [
        | inl hit ↦ rw hit (
            later
            ∙ ap (λ a. foldl (λ _ v. v) a (values r l))
                (ground (arith, get_or-set y c r v num.nought)))
        | inr miss ↦ rw miss (
            later
            ∙ ap (λ a. foldl (λ _ v. v) a (values r l))
                (get_or-set_ne y c r v num.nought (ground arith)))
      ]

  -- For a well-formed m × n matrix A, a column j of it and a vector w with at least m places,
  -- `load_a_column` returns the number of entries of the column, and writes into w[r] the last of the
  -- values that A holds in column j at row r; the places of other rows stay as they were.
  pub load_a_column-val :
      (A : Csc F) (j : ℕ) (w : List F)
      → IsLayout A.n A.m (cols A)
      → j < A.n
      → A.m ≤ length w
      → ((load_a_column A j w).0 ≡ length (segment (cols A) j))
        × ((r : ℕ)
            → val (load_a_column A j w).1 r ≡ foldl (λ _ v. v) (val w r) (coeffs (cols A) j r))
  unfolding load_a_column
  load_a_column-val A j w h lt le =
      let l = segment (cols A) j in
      let ps = span (at A.col_start j) (width (cols A) j) in
      let written = foldl-map (entry (cols A)) (λ (z : List F) (e : ℕ × F). set z e.0 e.1) ps w in
      (
        sym (length-segment (cols A) j),
        λ r.
            ap (λ y. val y r) (sym written)
            ∙ val-overwrite r l w (All-weaken A.m (length w) l le (h.bounded j lt)),
      )
