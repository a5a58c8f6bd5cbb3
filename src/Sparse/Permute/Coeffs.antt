-- ===== src/Sparse/Permute/Coeffs.antt =====
-- The permutations of cpp/src/dual_simplex/sparse_matrix.cpp move values and change none.
use mathlib.Core.List.{Perm}
use nvcuopt.Prelude.{
  ℕ, suc, ◌<◌, ◌≡◌, refl, ap, ◌∙◌, List, [], ◌∷◌, map, arith, length, span, All, map-span_pointwise,
}
use nvcuopt.Prelude.Num.{Num}
use nvcuopt.Sparse.Matrix.{Csc, at}
use nvcuopt.Sparse.Layout.{cols, segment, IsLayout}
use nvcuopt.Sparse.Convert.Coeffs.{values, coeffs}
use nvcuopt.Sparse.Permute.{permute_rows, permute_rows_and_cols}
use nvcuopt.Sparse.Permute.Columns.{
  renamed, permute_rows-segment, permute_rows_and_cols-segment, at-perm_lt,
}

-- No two indices below m have one image.
abbrev pub IsInjective : ℕ → List ℕ → Type 0
IsInjective m pinv = (i k : ℕ) → i < m → k < m → at pinv i ≡ at pinv k → i ≡ k

module _ {F : Type 0} where
  values-renamed :
      (m : ℕ) (pinv : List ℕ) (i : ℕ) (l : List (ℕ × F))
      → IsInjective m pinv
      → i < m
      → All (λ e. e.0 < m) l
      → values (at pinv i) (map (λ e. (at pinv e.0, e.1)) l) ≡ values i l
  values-renamed m pinv i [] inj lt h = refl
  values-renamed m pinv i ((c, v) ∷ l) inj lt h =
      ground (arith, inj c i, values-renamed m pinv i l inj lt h.1)

module _ {F : Type 0} ⦃num : Num F⦄ where
  -- For a well-formed m × n matrix A, a target with n + 1 starts and an injective pinv, the result
  -- of `permute_rows` holds in column j at row pinv[i] the values that A holds in column j at row i.
  pub permute_rows-coeffs :
      (A : Csc F) (pinv : List ℕ) (C : Csc F)
      → IsLayout A.n A.m (cols A)
      → length C.col_start ≡ suc A.n
      → IsInjective A.m pinv
      → (j i : ℕ) → j < A.n
      → i < A.m
      → coeffs (cols (permute_rows A pinv C)) j (at pinv i) ≡ coeffs (cols A) j i
  permute_rows-coeffs A pinv C h size inj j i jn im =
      ap (values (at pinv i)) (
        map-span_pointwise _ (renamed pinv A) 0 A.n (permute_rows-segment A pinv C h size) j
          (omega arith) (omega arith))
      ∙ values-renamed A.m pinv i (segment (cols A) j) inj im (h.bounded j jn)

  -- For a well-formed m × n matrix A, a target with n + 1 starts, an injective pinv and a permutation
  -- q of the columns, the result of `permute_rows_and_cols` holds in column k at row pinv[i] the
  -- values that A holds in column q[k] at row i.
  pub permute_rows_and_cols-coeffs :
      (A : Csc F) (pinv q : List ℕ) (C : Csc F)
      → IsLayout A.n A.m (cols A)
      → length C.col_start ≡ suc A.n
      → IsInjective A.m pinv
      → Perm q (span 0 A.n)
      → (k i : ℕ) → k < A.n
      → i < A.m
      → coeffs (cols (permute_rows_and_cols A pinv q C)) k (at pinv i) ≡ coeffs (cols A) (at q k) i
  permute_rows_and_cols-coeffs A pinv q C h size inj perm k i kn im =
      ap (values (at pinv i)) (
        map-span_pointwise _ (λ t. renamed pinv A (at q t)) 0 A.n
          (permute_rows_and_cols-segment A pinv q C h size perm) k (omega arith) (omega arith))
      ∙ values-renamed A.m pinv i (segment (cols A) (at q k)) inj im
          (h.bounded (at q k) (at-perm_lt A.n q perm k kn))
