-- ===== src/Sparse/Convert/RoundTrip.antt =====
-- The conversions of cpp/src/dual_simplex/sparse_matrix.cpp applied twice.
use nvcuopt.Prelude.{
  ℕ, zero, suc, ◌+◌, ◌≤◌, ◌<◌, ◌≡◌, refl, sym, ap, ap₂, ◌∙◌, List, [], ◌∷◌, ◌++◌, map, arith,
  length, length-map, length-span, span, All,
}
use nvcuopt.Prelude.Num.{Num}
use nvcuopt.Sparse.Matrix.{Csc, Csr, at, val}
use nvcuopt.Sparse.Bucket.{bucket, keys, count, length-bucket}
use nvcuopt.Sparse.Layout.{Layout, cols, entry, segment, keyed_segment, keyed_from, width, IsLayout}
use nvcuopt.Sparse.Group.{IsGrouped}
use nvcuopt.Sparse.Convert.{to_compressed_row, to_compressed_col, transpose}
use nvcuopt.Sparse.Convert.Grouped.{
  to_compressed_row-IsGrouped, to_compressed_col-IsGrouped, transpose-IsGrouped,
}
use nvcuopt.Sparse.Convert.Coeffs.{
  values, coeffs, bucket-append, IsGrouped-coeffs, IsGrouped-IsLayout,
}

module _ {F : Type 0} where
  -- The indices do not fall along the list.
  abbrev pub IsSorted : List (ℕ × F) → Type 0
  IsSorted [] = Unit {0}
  IsSorted (e ∷ l) = All (λ f. e.0 ≤ f.0) l × IsSorted l

  -- The entries of a list with index lo, then those with index lo + 1, and so on.
  abbrev by_index : List (ℕ × F) → ℕ → ℕ → List (ℕ × F)
  by_index l lo zero = []
  by_index l lo (suc k) = map (λ v. (lo, v)) (values lo l) ++ by_index l (suc lo) k

  by_index-nil : (lo k : ℕ) → by_index [] lo k ≡ []
  by_index-nil lo zero = refl
  by_index-nil lo (suc k) = by_index-nil (suc lo) k

  -- An entry below the range is not seen.
  by_index-below :
      (c : ℕ) (v : F) (l : List (ℕ × F)) (lo k : ℕ)
      → c < lo
      → by_index ((c, v) ∷ l) lo k ≡ by_index l lo k
  by_index-below c v l lo zero lt = refl
  by_index-below c v l lo (suc k) lt = ground (arith, by_index-below c v l (suc lo) k)

  values-above : (l : List (ℕ × F)) (lo c : ℕ) → All (λ f. c ≤ f.0) l → lo < c → values lo l ≡ []
  values-above [] lo c h lt = refl
  values-above ((d, v) ∷ l) lo c h lt = ground (arith, values-above l lo c h.1)

  by_index-first :
      (c : ℕ) (v : F) (l : List (ℕ × F)) (lo k : ℕ)
      → All (λ f. c ≤ f.0) l
      → lo ≤ c
      → c < lo + k
      → by_index ((c, v) ∷ l) lo k ≡ (c, v) ∷ by_index l lo k
  by_index-first c v l lo zero h le lt = absurd (omega arith)
  by_index-first c v l lo (suc k) h le lt = ground (
    arith,
    values-above l lo c h,
    by_index-first c v l (suc lo) k h,
    by_index-below c v l (suc lo) k,
  )

  by_index-sorted :
      (l : List (ℕ × F)) (m : ℕ) → IsSorted l → All (λ e. e.0 < m) l → by_index l 0 m ≡ l
  by_index-sorted [] m s b = by_index-nil 0 m
  by_index-sorted ((c, v) ∷ l) m s b =
      by_index-first c v l 0 m s.0 (omega arith) (omega arith)
      ∙ ap (◌∷◌ (c, v)) (by_index-sorted l m s.1 b.1)

module _ {F : Type 0} ⦃num : Num F⦄ where
  bucket-keyed :
      (R : Layout F) (j r : ℕ) (ps : List ℕ)
      → bucket j (map (λ p. (at R.index p, r, val R.value p)) ps)
        ≡ map (λ v. (r, v)) (values j (map (entry R) ps))
  bucket-keyed R j r [] = refl
  bucket-keyed R j r (p ∷ ps) = ground (arith, bucket-keyed R j r ps)

  bucket-keyed_from :
      (R : Layout F) (j : ℕ) (l : List (ℕ × F)) (lo k hi : ℕ)
      → lo + k ≡ hi
      → ((r : ℕ) → r < hi → coeffs R r j ≡ values r l)
      → bucket j (keyed_from R lo k) ≡ by_index l lo k
  bucket-keyed_from R j l lo zero hi e same = refl
  bucket-keyed_from R j l lo (suc k) hi e same =
      bucket-append j (keyed_segment R lo) (keyed_from R (suc lo) k)
      ∙ ap₂ ◌++◌
          (bucket-keyed R j lo (span (at R.starts lo) (width R lo))
            ∙ ap (map (λ v. (lo, v))) (same lo (omega arith)))
          (bucket-keyed_from R j l (suc lo) k hi (omega arith) same)

  module _ (n m : ℕ) (L R S : Layout F) (h : IsLayout n m L)
      (sorted : (j : ℕ) → j < n → IsSorted (segment L j)) (there : IsGrouped m (keyed_from L 0 n) R)
      (back : IsGrouped n (keyed_from R 0 m) S) where
    segment_back : (j : ℕ) → j < n → segment S j ≡ segment L j
    segment_back j lt =
        back.segments j lt
        ∙ bucket-keyed_from R j (segment L j) 0 m m (omega arith)
            (λ r rm. IsGrouped-coeffs n m L R there r j rm lt)
        ∙ by_index-sorted (segment L j) m (sorted j lt) (h.bounded j lt)

    width_back : (j : ℕ) → j < n → count j (keys (keyed_from R 0 m)) ≡ width L j
    width_back j lt =
        sym (length-bucket j (keyed_from R 0 m))
        ∙ ap length (sym (back.segments j lt) ∙ segment_back j lt)
        ∙ length-map (entry L) (span (at L.starts j) (width L j))
        ∙ length-span (at L.starts j) (width L j)

    starts_back : (j : ℕ) → j ≤ n → at S.starts j ≡ at L.starts j
    starts_back zero le = omega (arith, back.first, h.first)
    starts_back (suc j) le = omega (
      arith,
      starts_back j (omega arith),
      back.next j (omega arith),
      width_back j (omega arith),
      h.rising j (omega arith),
    )

  -- For a well-formed matrix whose columns are sorted by row, converting to rows and back gives the
  -- same starts and the same columns.
  pub to_compressed_col-to_compressed_row :
      (A B : Csc F) (Arow : Csr F)
      → IsLayout A.n A.m (cols A)
      → ((j : ℕ) → j < A.n → IsSorted (segment (cols A) j))
      → let C = to_compressed_col (to_compressed_row A Arow) B in
        ((j : ℕ) → j ≤ A.n → at C.col_start j ≡ at A.col_start j)
        × ((j : ℕ) → j < A.n → segment (cols C) j ≡ segment (cols A) j)
  unfolding to_compressed_row
  to_compressed_col-to_compressed_row A B Arow h sorted =
      let there = to_compressed_row-IsGrouped A Arow h in
      let back =
        to_compressed_col-IsGrouped (to_compressed_row A Arow) B
          (IsGrouped-IsLayout A.n A.m (cols A) _ there) in
      (
        starts_back A.n A.m (cols A) _ _ h sorted there back,
        segment_back A.n A.m (cols A) _ _ h sorted there back,
      )

  -- For a well-formed matrix whose columns are sorted by row, the transpose of the transpose has
  -- the same starts and the same columns.
  pub transpose-transpose :
      (A B C : Csc F)
      → IsLayout A.n A.m (cols A)
      → ((j : ℕ) → j < A.n → IsSorted (segment (cols A) j))
      → let T = transpose (transpose A B) C in
        ((j : ℕ) → j ≤ A.n → at T.col_start j ≡ at A.col_start j)
        × ((j : ℕ) → j < A.n → segment (cols T) j ≡ segment (cols A) j)
  unfolding transpose
  transpose-transpose A B C h sorted =
      let there = transpose-IsGrouped A B h in
      let back =
        transpose-IsGrouped (transpose A B) C (IsGrouped-IsLayout A.n A.m (cols A) _ there) in
      (
        starts_back A.n A.m (cols A) _ _ h sorted there back,
        segment_back A.n A.m (cols A) _ _ h sorted there back,
      )
