-- ===== src/Sparse/Convert/Grouped.antt =====
-- The conversions of cpp/src/dual_simplex/sparse_matrix.cpp are bucket sorts of the entries.
use mathlib.Core.List.{map-map, foldl-map}
use nvcuopt.Prelude.{
  ℕ, suc, ◌≤◌, ◌<◌, ◌≡◌, sym, ap, ◌∙◌, List, map, arith, length, length-map, length-resize,
  length-replicate, get_or-replicate, replicate, span, length-span, map-get_or-span, ltb,
  Bool-cases, All, inl, inr, for_loop, for_loop-zero,
}
use nvcuopt.Prelude.Num.{Num}
use nvcuopt.Sparse.Matrix.{Csc, Csr, at, val, Placed, place, count_keys, cumulative_sum, reallocate}
use nvcuopt.Sparse.Bucket.{Entry, count, keys, read_keys, at-count_keys, length-count_keys}
use nvcuopt.Sparse.Place.{place_all}
use nvcuopt.Sparse.Layout.{
  Layout, cols, rows, keyed_from, IsLayout, place_segments_lem, keys-read_keys, keyed_from-All,
}
use nvcuopt.Sparse.Group.{IsGrouped, regroup-IsGrouped}
use nvcuopt.Sparse.Convert.{coo_to_csc, to_compressed_row, to_compressed_col, transpose}

-- A counting loop that starts from zeros counts the keys.
counted_from_zero :
    (nz m : ℕ) (v : List ℕ) (r : ℕ)
    → r < m
    → at (count_keys nz v (replicate m 0)) r ≡ count r (read_keys nz v)
counted_from_zero nz m v r lt = omega (
  arith,
  at-count_keys nz v (replicate m 0) r (omega (arith, length-replicate {A = ℕ} m 0)),
  get_or-replicate {A = ℕ} m 0 r,
)

module _ {F : Type 0} ⦃num : Num F⦄ where
  -- The shared part: the segments of L, n of them with indices below m, sorted by index.
  sort_segments :
      (n m : ℕ) (L : Layout F) (out index : List ℕ) (value : List F)
      → IsLayout n m L
      → length out ≡ suc m
      → length index ≡ at L.starts n
      → length value ≡ at L.starts n
      → let es = keyed_from L 0 n in
        let sums = cumulative_sum (count_keys (at L.starts n) L.index (replicate m 0)) out in
        let t = place_all es (record { workspace = sums.inout; index = index; value = value }) in
        IsGrouped m es (record { starts = sums.output; index = t.index; value = t.value })
  sort_segments n m L out index value h out_size index_size value_size =
      let es = keyed_from L 0 n in
      let nz = at L.starts n in
      let counts = count_keys nz L.index (replicate m 0) in
      let seen : keys es ≡ read_keys nz L.index = keys-read_keys n m L h in
      let size : length es ≡ nz =
        sym (length-map (λ e. e.0) es)
        ∙ ap length seen
        ∙ length-map (at L.index) (span 0 nz)
        ∙ length-span 0 nz in
      regroup-IsGrouped m es counts out index value
        (length-count_keys nz L.index (replicate m 0) ∙ length-replicate m 0)
        (λ r lt. counted_from_zero nz m L.index r lt ∙ sym (ap (count r) seen))
        (keyed_from-All m L 0 n n (omega arith) h.bounded) out_size (omega arith) (omega arith)

  -- For a matrix in compressed columns, row r of the result of `to_compressed_row` lists the
  -- entries of row r, column by column.
  pub to_compressed_row-IsGrouped :
      (A : Csc F) (Arow : Csr F)
      → IsLayout A.n A.m (cols A)
      → IsGrouped A.m (keyed_from (cols A) 0 A.n) (rows (to_compressed_row A Arow))
  unfolding to_compressed_row
  to_compressed_row-IsGrouped A Arow h = rw (place_segments_lem (cols A) A.n _) (
      sort_segments A.n A.m (cols A) _ _ _ h (length-resize _ _ _) (length-resize _ _ _)
        (length-resize _ _ _))

  -- The same of the columns of the result of `to_compressed_col`.
  pub to_compressed_col-IsGrouped :
      (A : Csr F) (Acol : Csc F)
      → IsLayout A.m A.n (rows A)
      → IsGrouped A.n (keyed_from (rows A) 0 A.m) (cols (to_compressed_col A Acol))
  unfolding to_compressed_col
  to_compressed_col-IsGrouped A Acol h = rw (place_segments_lem (rows A) A.m _) (
      sort_segments A.m A.n (rows A) _ _ _ h (length-resize _ _ _) (length-resize _ _ _)
        (length-resize _ _ _))

  -- And of the columns of a transpose.
  pub transpose-IsGrouped :
      (A AT : Csc F)
      → IsLayout A.n A.m (cols A)
      → IsGrouped A.m (keyed_from (cols A) 0 A.n) (cols (transpose A AT))
  unfolding transpose
  transpose-IsGrouped A AT h = rw (place_segments_lem (cols A) A.n _) (
      sort_segments A.n A.m (cols A) _ _ _ h (length-resize _ _ _) (length-resize _ _ _)
        (length-resize _ _ _))

  -- The triplets that `coo_to_csc` reads, keyed by column.
  abbrev pub triplets : List ℕ → List ℕ → List F → List (Entry F)
  triplets Ai Aj Ax = map (λ k. (at Aj k, at Ai k, val Ax k)) (span 0 (length Aj))

  -- What `coo_to_csc` expects of the matrix that it fills: its arrays have `nz_max` places and its
  -- columns have starts.
  pub record IsSized (A : Csc F) : Type 0 where
    pub starts_size : length A.col_start ≡ suc A.n
    pub index_size : length A.i ≡ A.nz_max
    pub value_size : length A.x ≡ A.nz_max

  module _ (Ai Aj : List ℕ) (Ax : List F) where
    -- The part of `coo_to_csc` behind the reallocation.
    coo_sort :
        (A : Csc F)
        → IsSized A
        → length Aj ≤ A.nz_max
        → All (λ k. k < A.n) Aj
        → let sums = cumulative_sum (count_keys (length Aj) Aj (replicate A.n 0)) A.col_start in
          let t =
            place_all
              (triplets Ai Aj Ax)
              (record { workspace = sums.inout; index = A.i; value = A.x }) in
          IsGrouped A.n
            (triplets Ai Aj Ax)
            (record { starts = sums.output; index = t.index; value = t.value })
    coo_sort A sized room keyed =
        let es = triplets Ai Aj Ax in
        let nz = length Aj in
        let read : read_keys nz Aj ≡ Aj = map-get_or-span 0 Aj in
        let seen : keys es ≡ Aj = map-map _ _ _ ∙ read in
        let size : length es ≡ nz = sym (length-map (λ e. e.0) es) ∙ ap length seen in
        regroup-IsGrouped A.n es (count_keys nz Aj (replicate A.n 0)) A.col_start A.i A.x
          (length-count_keys nz Aj (replicate A.n 0) ∙ length-replicate A.n 0)
          (λ r lt. counted_from_zero nz A.n Aj r lt ∙ ap (count r) read ∙ sym (ap (count r) seen))
          (rw seen keyed) sized.starts_size (omega (arith, sized.index_size))
          (omega (arith, sized.value_size))

    place-triplets :
        (s : Placed F)
        → for_loop 0 (length Aj) (λ k. place (at Aj k) (at Ai k) (val Ax k)) s
          ≡ place_all (triplets Ai Aj Ax) s
    place-triplets s =
        for_loop-zero (length Aj) (λ k. place (at Aj k) (at Ai k) (val Ax k)) s
        ∙ sym (
            foldl-map (λ k. (at Aj k, at Ai k, val Ax k))
              (λ (u : Placed F) (e : Entry F). place e.0 e.1 e.2 u) (span 0 (length Aj)) s)

    IsSized-reallocate : (A : Csc F) (nz : ℕ) → IsSized A → IsSized (reallocate nz A)
    unfolding reallocate
    IsSized-reallocate A nz h = record {
      starts_size = h.starts_size;
      index_size = length-resize nz 0 A.i;
      value_size = length-resize nz num.nought A.x;
    }

    -- Column j of the result of `coo_to_csc` lists the triplets of column j in their order, when the
    -- three vectors have one length, the column indices are below n and the matrix has the places
    -- that it says it has.
    pub coo_to_csc-IsGrouped :
        (A : Csc F)
        → length Ai ≡ length Aj
        → IsSized A
        → All (λ k. k < A.n) Aj
        → IsGrouped A.n (triplets Ai Aj Ax) (cols (coo_to_csc Ai Aj Ax A))
    unfolding coo_to_csc
    coo_to_csc-IsGrouped A same sized keyed = elim (Bool-cases (ltb A.nz_max (length Ai))) [
      | inl short ↦
          rw (short, place-triplets _)
            (coo_sort (reallocate (length Ai) A) (IsSized-reallocate A (length Ai) sized)
              (omega (arith, same)) keyed)
      | inr enough ↦ rw (enough, place-triplets _) (coo_sort A sized (ground (arith, same)) keyed)
    ]
