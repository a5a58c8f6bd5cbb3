-- ===== src/Sparse/Remove/Column.antt =====
-- `remove_column` of cpp/src/dual_simplex/sparse_matrix.cpp works in place, on the entries and on the
-- starts. It leaves the field n as it was; the columns that it makes are n - 1.
use mathlib.Core.List.{map-map}
use nvcuopt.Prelude.{
  Bool-cases, ==_iff, ◌==◌, inl, inr, span-suc, map-span_pointwise, ℕ, zero, suc, ◌+◌, ◌-◌, ◌≤◌,
  ◌<◌, ◌≡◌, refl, sym, ap, ap₂, subst, ◌∙◌, List, [], ◌∷◌, map, foldl, arith, length, length-map,
  length-span, span, get_or-set_ne, map-span_congr,
}
use nvcuopt.Prelude.Num.{Num}
use nvcuopt.Sparse.Matrix.{Csc, at, val}
use nvcuopt.Sparse.Layout.{Layout, cols, segment, entry, width, IsLayout}
use nvcuopt.Sparse.Build.{
  Built, open_segment, push, push_all, emit, layout, Laid-start, Laid-segments, Emitted,
  emit-Emitted, total_width,
}
use nvcuopt.Sparse.Remove.{move_entry, shift_column, remove_column}
use nvcuopt.Sparse.Remove.Row.{Untouched, Untouched-push, Untouched-open}
use nvcuopt.Sparse.Remove.Columns.{length-segment}

module _ {F : Type 0} ⦃num : Num F⦄ where
  move_entry_lem :
      (L : Layout F) (p0 : ℕ) (s : Built F)
      → Untouched L p0 s
      → move_entry p0 s ≡ push (at L.index p0) (val L.value p0) s
  unfolding move_entry
  move_entry_lem L p0 s h =
      ap₂ (λ c v. push c v s) (h.ahead p0 (omega arith)).0 (h.ahead p0 (omega arith)).1

  move_loop :
      (L : Layout F) (p0 k hi : ℕ) (s : Built F)
      → p0 + k ≡ hi
      → Untouched L p0 s
      → let t = foldl (λ u p. move_entry p u) s (span p0 k) in
        Untouched L hi t × (t ≡ push_all (map (entry L) (span p0 k)) s)
  move_loop L p0 zero hi s e h = let e' : hi ≡ p0 = omega arith in rw e' (h, refl)
  move_loop L p0 (suc k) hi s e h =
      subst
        (λ u.
          let t = foldl (λ w p. move_entry p w) u (span (suc p0) k) in
          Untouched L hi t × (t ≡ push_all (map (entry L) (span p0 (suc k))) s))
        (sym (move_entry_lem L p0 s h))
        (move_loop L (suc p0) k hi (push (at L.index p0) (val L.value p0) s) (omega arith)
          (Untouched-push L p0 (at L.index p0) (val L.value p0) s h))

  starts-push_all : (l : List (ℕ × F)) (s : Built F) → (push_all l s).starts ≡ s.starts
  unfolding push
  starts-push_all [] s = refl
  starts-push_all ((c, v) ∷ l) s = starts-push_all l (push c v s)

  -- The starts from number k on are still those of L.
  abbrev StartsAhead : Layout F → ℕ → Built F → Type 0
  StartsAhead L k s = (j : ℕ) → k ≤ j → at s.starts j ≡ at L.starts j

  StartsAhead-open :
      (L : Layout F) (k : ℕ) (s : Built F)
      → StartsAhead L (suc k) s
      → StartsAhead L (suc k) (open_segment k s)
  unfolding open_segment
  StartsAhead-open L k s h j le = get_or-set_ne s.starts k j s.nz 0 (omega arith) ∙ h j le

  shift_column_lem :
      (L : Layout F) (k : ℕ) (s : Built F)
      → at L.starts (suc k) ≤ at L.starts (suc (suc k))
      → Untouched L (at L.starts (suc k)) s
      → StartsAhead L (suc k) s
      → Untouched L (at L.starts (suc (suc k))) (shift_column (suc k) s)
        × (shift_column (suc k) s ≡ push_all (segment L (suc k)) (open_segment k s))
  unfolding shift_column
  shift_column_lem L k s up h ahead =
      let opened = StartsAhead-open L k s ahead in
      let one : suc k - 1 ≡ k = omega arith in
      rw (one, opened (suc k) (omega arith), opened (suc (suc k)) (omega arith))
        (move_loop L (at L.starts (suc k)) (width L (suc k)) (at L.starts (suc (suc k)))
          (open_segment k s) (omega arith) (Untouched-open L (at L.starts (suc k)) k s h))

  shift_loop :
      (L : Layout F) (k n hi : ℕ) (s : Built F)
      → k + n ≡ hi
      → ((j : ℕ) → j ≤ hi → at L.starts j ≤ at L.starts (suc j))
      → Untouched L (at L.starts (suc k)) s
      → StartsAhead L (suc k) s
      → open_segment hi (foldl (λ u j. shift_column j u) s (span (suc k) n))
        ≡ emit k (map (segment L) (span (suc k) n)) s
  shift_loop L k zero hi s e rising h ahead = let e' : hi ≡ k = omega arith in rw e'
  shift_loop L k (suc n) hi s e rising h ahead =
      let (kept, same) = shift_column_lem L k s (rising (suc k) (omega arith)) h ahead in
      let ahead' : StartsAhead L (suc (suc k)) (shift_column (suc k) s) = λ j le.
        ap (λ (u : Built F). at u.starts j) same
        ∙ ap (λ st. at st j) (starts-push_all (segment L (suc k)) (open_segment k s))
        ∙ StartsAhead-open L k s ahead j (omega arith) in
      shift_loop L (suc k) n hi (shift_column (suc k) s) (omega arith) rising kept ahead'
      ∙ ap (emit (suc k) (map (segment L) (span (suc (suc k)) n))) same

  starts_mono :
      (L : Layout F) (n lo k hi : ℕ)
      → ((j : ℕ) → j < n → at L.starts j ≤ at L.starts (suc j))
      → lo + k ≡ hi
      → hi ≤ n
      → at L.starts lo ≤ at L.starts hi
  starts_mono L n lo zero hi rising e le = let e' : hi ≡ lo = omega arith in rw e' (omega arith)
  starts_mono L n lo (suc k) hi rising e le =
      omega (arith, rising lo (omega arith), starts_mono L n (suc lo) k hi rising (omega arith) le)

  module _ (A : Csc F) (col : ℕ) (h : IsLayout A.n A.m (cols A)) (lt : col < A.n) where
    abbrev start : Built F
    start = record { nz = at A.col_start col; starts = A.col_start; index = A.i; value = A.x }

    abbrev moved : List (List (ℕ × F))
    moved = map (segment (cols A)) (span (suc col) (A.n - suc col))

    emitted : Emitted col moved start (emit col moved start)
    emitted =
        let size : length moved ≡ A.n - suc col =
          length-map (segment (cols A)) (span (suc col) (A.n - suc col))
          ∙ length-span (suc col) (A.n - suc col) in
        let room =
          total_width (cols A) (segment (cols A)) (suc col) (A.n - suc col) A.n (omega arith)
            h.rising (length-segment (cols A)) in
        let up = h.rising col lt in
        emit-Emitted col moved start (omega (arith, h.starts_size)) (omega (arith, h.index_room))
          (omega (arith, h.value_room))

    starts_before : (j : ℕ) → j ≤ col → at (emit col moved start).starts j ≡ at A.col_start j
    starts_before j le = elim (Bool-cases (j == col)) [
      | inl hit ↦
          let e : j ≡ col = (==_iff j col).0 hit in
          rw e
            (Laid-start (layout (emit col moved start)) col (at A.col_start col) moved emitted.laid)
      | inr miss ↦ emitted.starts_same j (ground arith)
    ]

    segment_before :
        (k : ℕ) → k < col → segment (layout (emit col moved start)) k ≡ segment (cols A) k
    segment_before k below =
        let up =
          starts_mono (cols A) A.n (suc k) (col - suc k) col h.rising (omega arith) (omega arith) in
        let rise = h.rising k (omega arith) in
        rw (starts_before k (omega arith), starts_before (suc k) (omega arith))
          (map-span_congr (entry (layout (emit col moved start))) (entry (cols A))
            (at A.col_start k) (width (cols A) k) (λ p _ b. emitted.same p (omega arith)))

    segment_after :
        (k : ℕ)
        → col ≤ k
        → k < A.n - 1
        → segment (layout (emit col moved start)) k ≡ segment (cols A) (suc k)
    segment_after k le below =
        let n = A.n - suc col in
        let size : length moved ≡ n =
          length-map (segment (cols A)) (span (suc col) n) ∙ length-span (suc col) n in
        map-span_pointwise (segment (layout (emit col moved start))) (λ j. segment (cols A) (suc j))
          col n
          (rw size at (
              Laid-segments (layout (emit col moved start)) col (at A.col_start col) moved
                emitted.laid)
            ∙ ap (map (segment (cols A))) (span-suc col n)
            ∙ map-map (segment (cols A)) suc (span col n))
          k le (omega arith)

  -- The columns of A but for one, as the first n - 1 columns of R.
  abbrev pub IsWithout : Csc F → ℕ → Layout F → Type 0
  IsWithout A col R =
      ((k : ℕ) → k < col → segment R k ≡ segment (cols A) k)
      × ((k : ℕ) → col ≤ k → k < A.n - 1 → segment R k ≡ segment (cols A) (suc k))

  -- For a well-formed matrix with n columns and a column `col` of it, the columns before `col` stay
  -- in place under `remove_column`, and those behind it move up by one.
  pub remove_column-segment :
      (A : Csc F) (col : ℕ)
      → IsLayout A.n A.m (cols A)
      → col < A.n
      → IsWithout A col (cols (remove_column A col))
  remove_column-segment A col h lt =
      let built =
        shift_loop (cols A) col (A.n - suc col) (A.n - 1)
          (record { nz = at A.col_start col; starts = A.col_start; index = A.i; value = A.x })
          (omega arith) (λ j le. h.rising j (omega arith))
          (record { behind = h.rising col lt; ahead = λ p le. (refl, refl) }) (λ j le. refl) in
      let done =
        subst (λ t. IsWithout A col (layout t)) (sym built)
          (segment_before A col h lt, segment_after A col h lt) in
      unfold remove_column open_segment in done
