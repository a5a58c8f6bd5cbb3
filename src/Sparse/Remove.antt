-- ===== src/Sparse/Remove.antt =====
-- `remove_columns`, `remove_column`, `remove_rows` and `remove_row` of
-- cpp/src/dual_simplex/sparse_matrix.cpp. The status that they return is always 0 and is left out.
pub mod Columns
pub mod Rows
pub mod Row
pub mod Column
use nvcuopt.Prelude.{ℕ, suc, ◌+◌, ◌-◌, List, ◌==◌, ltb, if◌then◌else◌, replicate, resize, for_loop}
use nvcuopt.Prelude.Num.{Num}
use nvcuopt.Sparse.Matrix.{Csc, Csr, at, val}
use nvcuopt.Sparse.Layout.{Layout, cols, rows, width}
use nvcuopt.Sparse.Build.{Built, open_segment, push, copy_segment}

module _ {F : Type 0} ⦃num : Num F⦄ where
  -- One round of the copying loops: a segment with mark 0 is copied to segment number k, and another
  -- one is passed over.
  unfoldable pub copy_unmarked : List ℕ → Layout F → ℕ → ℕ × Built F → ℕ × Built F
  unfolding open_segment copy_segment
  copy_unmarked marker L j (k, s) =
      if at marker j == 0 then (suc k, copy_segment L j (open_segment k s)) else (k, s)

  -- One round of the counting loop of `remove_columns`.
  unfoldable pub count_column : List ℕ → Csc F → ℕ → ℕ × ℕ → ℕ × ℕ
  count_column marker A j c = if at marker j == 0 then (c.0 + 1, c.1 + width (cols A) j) else c

  -- The columns that stay and their entries, counted.
  unfoldable pub count_unmarked : List ℕ → Csc F → ℕ × ℕ
  unfolding count_column
  count_unmarked marker A = for_loop 0 A.n (count_column marker A) (0, 0)

  unfoldable pub remove_columns : Csc F → List ℕ → Csc F
  unfolding count_unmarked copy_unmarked
  remove_columns A cols_to_remove =
      let (n, nz) = count_unmarked cols_to_remove A in
      let start : Built F = record {
        nz = 0;
        starts = replicate (suc n) 0;
        index = replicate nz 0;
        value = replicate nz num.nought;
      } in
      let (_, s) = for_loop 0 A.n (copy_unmarked cols_to_remove (cols A)) (0, start) in
      record A { col_start = (open_segment n s).starts; i = s.index; x = s.value; n = n }

  -- One round of the counting loop of `remove_rows`.
  unfoldable pub count_row : List ℕ → Csr F → ℕ → ℕ × ℕ → ℕ × ℕ
  count_row marker A i c = if at marker i == 0 then c else (c.0 + 1, c.1 + width (rows A) i)

  -- The rows that go and their entries, counted.
  unfoldable pub count_marked : List ℕ → Csr F → ℕ × ℕ
  unfolding count_row
  count_marked marker A = for_loop 0 A.m (count_row marker A) (0, 0)

  unfoldable pub remove_rows : Csr F → List ℕ → Csr F → Csr F
  unfolding count_marked copy_unmarked
  remove_rows A row_marker Aout =
      let (num_rows_to_remove, num_nnz_to_remove) = count_marked row_marker A in
      let new_rows = A.m - num_rows_to_remove in
      let new_nnz = at A.row_start A.m - num_nnz_to_remove in
      let start : Built F = record {
        nz = 0;
        starts = resize (suc new_rows) 0 Aout.row_start;
        index = resize new_nnz 0 Aout.j;
        value = resize new_nnz num.nought Aout.x;
      } in
      let (_, s) = for_loop 0 A.m (copy_unmarked row_marker (rows A)) (0, start) in
      record Aout {
        n = A.n;
        m = new_rows;
        row_start = (open_segment new_rows (record s { nz = new_nnz })).starts;
        j = s.index;
        x = s.value;
      }

  -- One round of the inner loop of `remove_row`, in place: the entry at p is dropped, moved up by
  -- one row, or kept.
  unfoldable pub drop_row : ℕ → ℕ → Built F → Built F
  unfolding push
  drop_row row p s =
      let i = at s.index p in
      let x = val s.value p in
      if i == row then s else if ltb row i then push (i - 1) x s else push i x s

  -- One round of the outer loop of `remove_row`.
  unfoldable pub drop_row_column : Csc F → ℕ → ℕ → Built F → Built F
  unfolding open_segment drop_row
  drop_row_column A row j s =
      for_loop (at A.col_start j) (at A.col_start (suc j)) (drop_row row) (open_segment j s)

  unfoldable pub remove_row : Csc F → ℕ → Csc F
  unfolding open_segment drop_row_column
  remove_row A row =
      let start : Built F = record {
        nz = 0;
        starts = replicate (suc A.n) 0;
        index = A.i;
        value = A.x;
      } in
      let s = for_loop 0 A.n (drop_row_column A row) start in
      record A { col_start = (open_segment A.n s).starts; i = s.index; x = s.value }

  -- One round of the inner loop of `remove_column`, in place.
  unfoldable pub move_entry : ℕ → Built F → Built F
  unfolding push
  move_entry p s = push (at s.index p) (val s.value p) s

  -- One round of the outer loop of `remove_column`, in place.
  unfoldable pub shift_column : ℕ → Built F → Built F
  unfolding open_segment move_entry
  shift_column k s =
      let s' = open_segment (k - 1) s in
      for_loop (at s'.starts k) (at s'.starts (suc k)) move_entry s'

  unfoldable pub remove_column : Csc F → ℕ → Csc F
  unfolding shift_column
  remove_column A col =
      let start : Built F = record {
        nz = at A.col_start col;
        starts = A.col_start;
        index = A.i;
        value = A.x;
      } in
      let s = for_loop (suc col) A.n shift_column start in
      record A { col_start = (open_segment (A.n - 1) s).starts; i = s.index; x = s.value }
