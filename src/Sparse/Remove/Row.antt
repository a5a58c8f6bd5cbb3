-- ===== src/Sparse/Remove/Row.antt =====
-- `remove_row` of cpp/src/dual_simplex/sparse_matrix.cpp works in place: it reads each entry before
-- it writes over it.
use nvcuopt.Prelude.{
  ℕ, zero, suc, ◌+◌, ◌-◌, ◌≤◌, ◌<◌, ◌≡◌, refl, sym, ap, ap₂, subst, ◌∙◌, List, [], ◌∷◌, map, foldl,
  arith, ◌==◌, ltb, inl, inr, Bool-cases, if◌then◌else◌, length, length-map, length-replicate,
  replicate, length-span, span, for_loop, for_loop-zero, get_or-set_ne,
}
use nvcuopt.Prelude.Num.{Num}
use nvcuopt.Sparse.Matrix.{Csc, at, val}
use nvcuopt.Sparse.Layout.{Layout, cols, segment, entry, width, IsLayout}
use nvcuopt.Sparse.Build.{Built, open_segment, push, push_all, emit, total, layout, emit-segments}
use nvcuopt.Sparse.Remove.{drop_row, drop_row_column, remove_row}
use nvcuopt.Sparse.Remove.Columns.{length-segment}

module _ {F : Type 0} where
  -- A column without its entries in a row, the rows below moved up by one.
  abbrev pub without_row : ℕ → List (ℕ × F) → List (ℕ × F)
  without_row row [] = []
  without_row row ((c, v) ∷ l) =
      if c == row
      then without_row row l
      else if ltb row c
      then (c - 1, v) ∷ without_row row l
      else (c, v) ∷ without_row row l

  length-without_row-le : (row : ℕ) (l : List (ℕ × F)) → length (without_row row l) ≤ length l
  length-without_row-le row [] = omega arith
  length-without_row-le row ((c, v) ∷ l) = ground (arith, length-without_row-le row l)

module _ {F : Type 0} ⦃num : Num F⦄ where
  -- Position p0 and those above still hold the entries of L, and what is written lies below.
  pub record Untouched (L : Layout F) (p0 : ℕ) (s : Built F) : Type 0 where
    pub behind : s.nz ≤ p0
    pub ahead : (p : ℕ) → p0 ≤ p → (at s.index p ≡ at L.index p) × (val s.value p ≡ val L.value p)

  pub Untouched-push :
      (L : Layout F) (p0 c : ℕ) (v : F) (s : Built F)
      → Untouched L p0 s
      → Untouched L (suc p0) (push c v s)
  unfolding push
  Untouched-push L p0 c v s h = record {
    behind = omega (arith, h.behind);
    ahead = λ p le. (
      get_or-set_ne s.index s.nz p c 0 (omega (arith, h.behind)) ∙ (h.ahead p (omega arith)).0,
      get_or-set_ne s.value s.nz p v num.nought (omega (arith, h.behind))
          ∙ (h.ahead p (omega arith)).1,
    );
  }

  -- What a round does with an entry that it has read.
  abbrev drop_entry : ℕ → ℕ → F → Built F → Built F
  drop_entry row c v s = if c == row then s else if ltb row c then push (c - 1) v s else push c v s

  drop_row_lem :
      (L : Layout F) (row p0 : ℕ) (s : Built F)
      → Untouched L p0 s
      → drop_row row p0 s ≡ drop_entry row (at L.index p0) (val L.value p0) s
  unfolding drop_row
  drop_row_lem L row p0 s h =
      ap₂ (λ c v. drop_entry row c v s) (h.ahead p0 (omega arith)).0 (h.ahead p0 (omega arith)).1

  push_all-drop :
      (row c : ℕ) (v : F) (l : List (ℕ × F)) (s : Built F)
      → push_all (without_row row l) (drop_entry row c v s)
        ≡ push_all (without_row row ((c, v) ∷ l)) s
  push_all-drop row c v l s = elim (Bool-cases (c == row)) [
    | inl hit ↦ rw hit
    | inr miss ↦
        rw miss (elim (Bool-cases (ltb row c)) [ inl below ↦ rw below | inr above ↦ rw above ])
  ]

  Untouched-drop :
      (L : Layout F) (row p0 c : ℕ) (v : F) (s : Built F)
      → Untouched L p0 s
      → Untouched L (suc p0) (drop_entry row c v s)
  Untouched-drop L row p0 c v s h = elim (Bool-cases (c == row)) [
    | inl hit ↦
        rw hit
          (record { behind = omega (arith, h.behind); ahead = λ p le. h.ahead p (omega arith) })
    | inr miss ↦ rw miss (elim (Bool-cases (ltb row c)) [
      | inl below ↦ rw below (Untouched-push L p0 (c - 1) v s h)
      | inr above ↦ rw above (Untouched-push L p0 c v s h)
    ])
  ]

  drop_loop :
      (L : Layout F) (row p0 k hi : ℕ) (s : Built F)
      → p0 + k ≡ hi
      → Untouched L p0 s
      → let t = foldl (λ u p. drop_row row p u) s (span p0 k) in
        Untouched L hi t × (t ≡ push_all (without_row row (map (entry L) (span p0 k))) s)
  drop_loop L row p0 zero hi s e h = let e' : hi ≡ p0 = omega arith in rw e' (h, refl)
  drop_loop L row p0 (suc k) hi s e h =
      let c = at L.index p0 in
      let v = val L.value p0 in
      let (kept, same) =
        drop_loop L row (suc p0) k hi (drop_entry row c v s) (omega arith)
          (Untouched-drop L row p0 c v s h) in
      subst
        (λ u.
          let t = foldl (λ w p. drop_row row p w) u (span (suc p0) k) in
          Untouched L hi t × (t ≡ push_all (without_row row (map (entry L) (span p0 (suc k)))) s))
        (sym (drop_row_lem L row p0 s h))
        (kept, same ∙ push_all-drop row c v (map (entry L) (span (suc p0) k)) s)

  pub Untouched-open :
      (L : Layout F) (p0 k : ℕ) (s : Built F) → Untouched L p0 s → Untouched L p0 (open_segment k s)
  unfolding open_segment
  Untouched-open L p0 k s h = record { behind = h.behind; ahead = h.ahead }

  total_rest :
      (A : Csc F) (row lo k hi : ℕ)
      → lo + k ≡ hi
      → ((j : ℕ) → j < hi → at A.col_start j ≤ at A.col_start (suc j))
      → at A.col_start lo + total (map (λ j. without_row row (segment (cols A) j)) (span lo k))
        ≤ at A.col_start hi
  total_rest A row lo zero hi e rising = let e' : hi ≡ lo = omega arith in rw e' (omega arith)
  total_rest A row lo (suc k) hi e rising = omega (
    arith,
    length-segment (cols A) lo,
    length-without_row-le row (segment (cols A) lo),
    rising lo (omega arith),
    total_rest A row (suc lo) k hi (omega arith) rising,
  )

  drop_columns :
      (A : Csc F) (row lo n hi : ℕ) (s : Built F)
      → lo + n ≡ hi
      → ((j : ℕ) → j < hi → at A.col_start j ≤ at A.col_start (suc j))
      → Untouched (cols A) (at A.col_start lo) s
      → open_segment hi (foldl (λ u j. drop_row_column A row j u) s (span lo n))
        ≡ emit lo (map (λ j. without_row row (segment (cols A) j)) (span lo n)) s
  drop_columns A row lo zero hi s e rising h = let e' : hi ≡ lo = omega arith in rw e'
  drop_columns A row lo (suc n) hi s e rising h =
      let (kept, same) =
        drop_loop (cols A) row (at A.col_start lo) (width (cols A) lo) (at A.col_start (suc lo))
          (open_segment lo s) (omega (arith, rising lo (omega arith)))
          (Untouched-open (cols A) (at A.col_start lo) lo s h) in
      drop_columns A row (suc lo) n hi (drop_row_column A row lo s) (omega arith) rising
        (unfold drop_row_column in kept)
      ∙ ap (emit (suc lo) (map (λ j. without_row row (segment (cols A) j)) (span (suc lo) n)))
          (unfold drop_row_column in same)

  -- For a well-formed matrix, `remove_row` leaves in every column the entries of the other rows, in
  -- their order, those below the row moved up by one.
  pub remove_row-segment :
      (A : Csc F) (row : ℕ)
      → IsLayout A.n A.m (cols A)
      → map (segment (cols (remove_row A row))) (span 0 A.n)
        ≡ map (λ j. without_row row (segment (cols A) j)) (span 0 A.n)
  remove_row-segment A row h =
      let f = λ (j : ℕ). without_row row (segment (cols A) j) in
      let start : Built F = record {
        nz = 0;
        starts = replicate (suc A.n) 0;
        index = A.i;
        value = A.x;
      } in
      let size : length (map f (span 0 A.n)) ≡ A.n =
        length-map f (span 0 A.n) ∙ length-span 0 A.n in
      let room = total_rest A row 0 A.n A.n (omega arith) h.rising in
      let built =
        drop_columns A row 0 A.n A.n start (omega arith) h.rising
          (record { behind = omega arith; ahead = λ p le. (refl, refl) }) in
      let done : map
            (segment (layout (open_segment A.n (for_loop 0 A.n (drop_row_column A row) start))))
            (span 0 A.n)
          ≡ map f (span 0 A.n) =
        rw (for_loop-zero A.n (drop_row_column A row) start, built)
          (rw size at (
            emit-segments (map f (span 0 A.n)) start refl
              (omega (arith, size, length-replicate {A = ℕ} (suc A.n) 0))
              (omega (arith, h.first, h.index_room, room))
              (omega (arith, h.first, h.value_room, room)))) in
      unfold remove_row open_segment in done
