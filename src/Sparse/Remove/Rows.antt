-- ===== src/Sparse/Remove/Rows.antt =====
-- `remove_rows` of cpp/src/dual_simplex/sparse_matrix.cpp.
use nvcuopt.Prelude.{
  ℕ, zero, suc, ◌+◌, ◌-◌, ◌≤◌, ◌<◌, ◌≡◌, refl, sym, subst, ◌∙◌, List, map, foldl, arith, ◌==◌, inl,
  inr, Bool-cases, if◌then◌else◌, length, length-resize, resize, span, for_loop, for_loop-zero,
}
use nvcuopt.Prelude.Num.{Num}
use nvcuopt.Sparse.Matrix.{Csr, at}
use nvcuopt.Sparse.Layout.{rows, segment, width, IsLayout}
use nvcuopt.Sparse.Build.{Built, open_segment, total, layout}
use nvcuopt.Sparse.Remove.{copy_unmarked, count_row, count_marked, remove_rows}
use nvcuopt.Sparse.Remove.Columns.{unmarked, copied-segments, copied-nz, length-segment}

module _ {F : Type 0} ⦃num : Num F⦄ where
  count_row_lem :
      (marker : List ℕ) (A : Csr F) (i : ℕ) (c : ℕ × ℕ)
      → ((count_row marker A i c).0 ≡ c.0 + (if at marker i == 0 then 0 else 1))
        × ((count_row marker A i c).1 ≡ c.1 + (if at marker i == 0 then 0 else width (rows A) i))
  unfolding count_row
  count_row_lem marker A i c = ground arith

  -- What the counting loop of `remove_rows` counts and what stays make up the whole.
  count_loop :
      (marker : List ℕ) (A : Csr F) (lo n hi : ℕ) (c : ℕ × ℕ)
      → lo + n ≡ hi
      → ((i : ℕ) → i < hi → at A.row_start i ≤ at A.row_start (suc i))
      → let t = foldl (λ d i. count_row marker A i d) c (span lo n) in
        (t.0 + length (unmarked marker lo n) ≡ c.0 + n)
        × (at A.row_start lo + t.1 + total (map (segment (rows A)) (unmarked marker lo n))
            ≡ c.1 + at A.row_start hi)
  count_loop marker A lo zero hi c e rising = let e' : hi ≡ lo = omega arith in rw e' (omega arith)
  count_loop marker A lo (suc n) hi c e rising =
      let up = rising lo (omega arith) in
      let rest = count_loop marker A (suc lo) n hi (count_row marker A lo c) (omega arith) rising in
      elim (Bool-cases (at marker lo == 0)) [
        | inl stays ↦ rw stays (
            omega
              (arith, rest, rw stays at (count_row_lem marker A lo c), length-segment (rows A) lo))
        | inr goes ↦ rw goes (omega (arith, rest, rw goes at (count_row_lem marker A lo c)))
      ]

  count_marked_lem :
      (marker : List ℕ) (A : Csr F)
      → IsLayout A.m A.n (rows A)
      → (A.m - (count_marked marker A).0 ≡ length (unmarked marker 0 A.m))
        × (at A.row_start A.m - (count_marked marker A).1
            ≡ total (map (segment (rows A)) (unmarked marker 0 A.m)))
  unfolding count_marked
  count_marked_lem marker A h =
      rw (for_loop-zero A.m (count_row marker A) (0, 0))
        (omega (arith, h.first, count_loop marker A 0 A.m A.m (0, 0) (omega arith) h.rising))

  -- For a well-formed matrix, whatever the target held before, `remove_rows` leaves in the target the
  -- rows whose mark is 0, in their order and with their entries, and counts them in m.
  pub remove_rows-segment :
      (A Aout : Csr F) (marker : List ℕ)
      → IsLayout A.m A.n (rows A)
      → let R = remove_rows A marker Aout in
        (R.m ≡ length (unmarked marker 0 A.m))
        × (map (segment (rows R)) (span 0 R.m) ≡ map (segment (rows A)) (unmarked marker 0 A.m))
  remove_rows-segment A Aout marker h =
      let (number, entries) = count_marked_lem marker A h in
      let m = A.m - (count_marked marker A).0 in
      let nz = at A.row_start A.m - (count_marked marker A).1 in
      let start : Built F = record {
        nz = 0;
        starts = resize (suc m) 0 Aout.row_start;
        index = resize nz 0 Aout.j;
        value = resize nz num.nought Aout.x;
      } in
      let t = (for_loop 0 A.m (copy_unmarked marker (rows A)) (0, start)).1 in
      let starts_room = length-resize (suc m) 0 Aout.row_start in
      let index_room = length-resize nz 0 Aout.j in
      let value_room = length-resize nz num.nought Aout.x in
      let same : t.nz ≡ nz =
        copied-nz marker (rows A) A.m start refl (omega (arith, number, starts_room))
          (omega (arith, entries, index_room)) (omega (arith, entries, value_room))
        ∙ sym entries in
      (
        unfold remove_rows in number,
        unfold remove_rows open_segment in
            subst
              (λ k.
                map (segment (layout (open_segment m (record t { nz = k })))) (span 0 m)
                ≡ map (segment (rows A)) (unmarked marker 0 A.m))
              same
              (copied-segments marker (rows A) A.m m start number refl (omega (arith, starts_room))
                (omega (arith, entries, index_room)) (omega (arith, entries, value_room))),
      )
