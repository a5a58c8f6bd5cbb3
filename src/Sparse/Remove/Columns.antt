-- ===== src/Sparse/Remove/Columns.antt =====
-- `remove_columns` of cpp/src/dual_simplex/sparse_matrix.cpp, and the copying loop that it shares
-- with `remove_rows`.
use nvcuopt.Prelude.{
  ℕ, zero, suc, ◌+◌, ◌≤◌, ◌<◌, ◌≡◌, refl, sym, ap, ◌∙◌, List, [], ◌∷◌, map, foldl, arith, ◌==◌,
  true, false, inl, inr, Bool-cases, if◌then◌else◌, length, length-map, length-replicate,
  length-span, span, for_loop, for_loop-zero,
}
use nvcuopt.Prelude.{subst}
use nvcuopt.Prelude.Num.{Num}
use nvcuopt.Sparse.Matrix.{Csc, at}
use nvcuopt.Sparse.Layout.{Layout, cols, segment, entry, width}
use nvcuopt.Sparse.Build.{
  Built, open_segment, push_all, copy_segment_lem, emit, total, layout, emit-segments, emit-Emitted,
}
use nvcuopt.Sparse.Remove.{copy_unmarked, count_column, count_unmarked, remove_columns}

-- The numbers from lo on, k of them, whose mark is 0.
abbrev pub unmarked : List ℕ → ℕ → ℕ → List ℕ
unmarked marker lo zero = []
unmarked marker lo (suc k) =
    if at marker lo == 0 then lo ∷ unmarked marker (suc lo) k else unmarked marker (suc lo) k

module _ {F : Type 0} ⦃num : Num F⦄ where
  pub length-segment : (L : Layout F) (j : ℕ) → length (segment L j) ≡ width L j
  length-segment L j =
      length-map (entry L) (span (at L.starts j) (width L j))
      ∙ length-span (at L.starts j) (width L j)

  copied :
      (marker : List ℕ) (L : Layout F) (j k : ℕ) (s : Built F)
      → at marker j == 0 ≡ true
      → copy_unmarked marker L j (k, s) ≡ (suc k, push_all (segment L j) (open_segment k s))
  unfolding copy_unmarked
  copied marker L j k s stays =
      rw stays (ap (λ t. (suc k, t)) (copy_segment_lem L j (open_segment k s)))

  passed_over :
      (marker : List ℕ) (L : Layout F) (j k : ℕ) (s : Built F)
      → at marker j == 0 ≡ false
      → copy_unmarked marker L j (k, s) ≡ (k, s)
  unfolding copy_unmarked
  passed_over marker L j k s goes = rw goes

  -- From the pair c of a number and arrays the copying loop emits the segments js into s.
  abbrev Copies : List ℕ → Layout F → ℕ → ℕ → ℕ → List ℕ → Built F → ℕ × Built F → Type 0
  Copies marker L lo n k js s c =
      let t = foldl (λ d j. copy_unmarked marker L j d) c (span lo n) in
      (t.0 ≡ k + length js) × (open_segment t.0 t.1 ≡ emit k (map (segment L) js) s)

  -- The copying loop emits the unmarked segments.
  copy_loop :
      (marker : List ℕ) (L : Layout F) (lo n k : ℕ) (s : Built F)
      → Copies marker L lo n k (unmarked marker lo n) s (k, s)
  copy_loop marker L lo zero k s = (omega arith, refl)
  copy_loop marker L lo (suc n) k s = elim (Bool-cases (at marker lo == 0)) [
    | inl stays ↦
        let (number, built) =
          copy_loop marker L (suc lo) n (suc k) (push_all (segment L lo) (open_segment k s)) in
        rw stays (
          subst (Copies marker L (suc lo) n k (lo ∷ unmarked marker (suc lo) n) s)
            (sym (copied marker L lo k s stays)) (omega (arith, number), built))
    | inr goes ↦ rw goes (
        subst (Copies marker L (suc lo) n k (unmarked marker (suc lo) n) s)
          (sym (passed_over marker L lo k s goes)) (copy_loop marker L (suc lo) n k s))
  ]

  -- The copying loop, from empty arrays that have the places, leaves the unmarked segments.
  pub copied-segments :
      (marker : List ℕ) (L : Layout F) (n kept : ℕ) (s : Built F)
      → kept ≡ length (unmarked marker 0 n)
      → s.nz ≡ 0
      → kept < length s.starts
      → total (map (segment L) (unmarked marker 0 n)) ≤ length s.index
      → total (map (segment L) (unmarked marker 0 n)) ≤ length s.value
      → let t = for_loop 0 n (copy_unmarked marker L) (0, s) in
        map (segment (layout (open_segment kept t.1))) (span 0 kept)
        ≡ map (segment L) (unmarked marker 0 n)
  copied-segments marker L n kept s e z hk hi hv =
      let ls = map (segment L) (unmarked marker 0 n) in
      let size : length ls ≡ kept = length-map (segment L) (unmarked marker 0 n) ∙ sym e in
      let (number, built) = copy_loop marker L 0 n 0 s in
      let end = foldl (λ c j. copy_unmarked marker L j c) (0, s) (span 0 n) in
      let reached : end.0 ≡ kept = omega (arith, number, e) in
      let closed = subst (λ k. open_segment k end.1 ≡ emit 0 ls s) reached built in
      rw (for_loop-zero n (copy_unmarked marker L) (0, s), closed)
        (rw size at (emit-segments ls s z (omega arith) hi hv))

  -- After the copying loop the number of entries is that of the unmarked segments.
  pub copied-nz :
      (marker : List ℕ) (L : Layout F) (n : ℕ) (s : Built F)
      → s.nz ≡ 0
      → length (unmarked marker 0 n) < length s.starts
      → total (map (segment L) (unmarked marker 0 n)) ≤ length s.index
      → total (map (segment L) (unmarked marker 0 n)) ≤ length s.value
      → (for_loop 0 n (copy_unmarked marker L) (0, s)).1.nz
        ≡ total (map (segment L) (unmarked marker 0 n))
  unfolding open_segment
  copied-nz marker L n s z hk hi hv =
      let js = unmarked marker 0 n in
      let (_, built) = copy_loop marker L 0 n 0 s in
      let emitted =
        emit-Emitted 0 (map (segment L) js) s (omega (arith, length-map (segment L) js))
          (omega arith) (omega arith) in
      rw (for_loop-zero n (copy_unmarked marker L) (0, s))
        (ap (λ (t : Built F). t.nz) built ∙ omega (arith, emitted.nz))

  count_column_lem :
      (marker : List ℕ) (A : Csc F) (j : ℕ) (c : ℕ × ℕ)
      → ((count_column marker A j c).0 ≡ c.0 + (if at marker j == 0 then 1 else 0))
        × ((count_column marker A j c).1 ≡ c.1 + (if at marker j == 0 then width (cols A) j else 0))
  unfolding count_column
  count_column_lem marker A j c = ground arith

  -- The counting loop counts the unmarked segments and their entries.
  count_loop :
      (marker : List ℕ) (A : Csc F) (lo n : ℕ) (c : ℕ × ℕ)
      → let t = foldl (λ d j. count_column marker A j d) c (span lo n) in
        (t.0 ≡ c.0 + length (unmarked marker lo n))
        × (t.1 ≡ c.1 + total (map (segment (cols A)) (unmarked marker lo n)))
  count_loop marker A lo zero c = omega arith
  count_loop marker A lo (suc n) c = elim (Bool-cases (at marker lo == 0)) [
    | inl stays ↦ rw stays (
        omega (
          arith,
          rw stays at (count_column_lem marker A lo c),
          count_loop marker A (suc lo) n (count_column marker A lo c),
          length-segment (cols A) lo,
        ))
    | inr goes ↦ rw goes (
        omega (
          arith,
          rw goes at (count_column_lem marker A lo c),
          count_loop marker A (suc lo) n (count_column marker A lo c),
        ))
  ]

  count_unmarked_lem :
      (marker : List ℕ) (A : Csc F)
      → ((count_unmarked marker A).0 ≡ length (unmarked marker 0 A.n))
        × ((count_unmarked marker A).1 ≡ total (map (segment (cols A)) (unmarked marker 0 A.n)))
  unfolding count_unmarked
  count_unmarked_lem marker A =
      rw (for_loop-zero A.n (count_column marker A) (0, 0))
        (omega (arith, count_loop marker A 0 A.n (0, 0)))

  -- `remove_columns` leaves the columns whose mark is 0, in their order and with their entries, and
  -- counts them in n.
  pub remove_columns-segment :
      (A : Csc F) (marker : List ℕ)
      → let R = remove_columns A marker in
        (R.n ≡ length (unmarked marker 0 A.n))
        × (map (segment (cols R)) (span 0 R.n) ≡ map (segment (cols A)) (unmarked marker 0 A.n))
  remove_columns-segment A marker =
      let (number, entries) = count_unmarked_lem marker A in
      let n = (count_unmarked marker A).0 in
      let nz = (count_unmarked marker A).1 in
      unfold remove_columns in
      (
        number,
        copied-segments marker (cols A) A.n n _ number refl
            (omega (arith, length-replicate {A = ℕ} (suc n) 0))
            (omega (arith, entries, length-replicate {A = ℕ} nz 0))
            (omega (arith, entries, length-replicate {A = F} nz num.nought)),
      )
