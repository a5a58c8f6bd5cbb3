-- ===== src/Presolve/Remove.antt =====
-- `remove_empty_cols`, `remove_rows`, `remove_empty_rows` and `remove_fixed_variables` of
-- cpp/src/dual_simplex/presolve.cpp. Printing is left out, since `verbose` is false.
use nvcuopt.Prelude.{
  ℕ, suc, ◌+◌, ◌-◌, List, [], Bool, ◌||◌, ◌==◌, if◌then◌else◌, set, replicate, for_loop,
}
use nvcuopt.Prelude.Num.{Num}
use nvcuopt.Sparse.Matrix.{Csr, at, val}
use nvcuopt.Sparse.Convert.{to_compressed_row, to_compressed_col}
use nvcuopt.Sparse.Remove.{remove_columns, remove_rows as remove_marked_rows}
use nvcuopt.Presolve.Problem.{LpProblem, PresolveInfo, push_back, no_rows, negate}

-- What the first loop of `remove_empty_cols` changes.
pub record EmptyCols (F : Type 0) : Type 0 where
  pub col_marker : List ℕ
  pub info : PresolveInfo F
  pub obj_constant : F
  pub new_cols : ℕ

-- What the loops that copy the remaining columns change.
pub record KeptCols (F : Type 0) : Type 0 where
  pub objective : List F
  pub lower : List F
  pub upper : List F
  pub remaining_variables : List ℕ
  pub new_j : ℕ
  pub counter : ℕ

-- What the loop of `remove_rows` changes; a status other than 0 was returned.
pub record KeptRows (F : Type 0) : Type 0 where
  pub status : ℕ
  pub new_rhs : List F
  pub row_count : ℕ

-- What the first loop of `remove_fixed_variables` changes.
pub record FixedCols (F : Type 0) : Type 0 where
  pub col_marker : List ℕ
  pub rhs : List F
  pub obj_constant : F

module _ {F : Type 0} ⦃num : Num F⦄ where
  -- a >= 0
  abbrev pub nonnegative : F → Bool
  nonnegative a = num.lt num.nought a || num.eq a num.nought

  -- One round of the first loop of `remove_empty_cols`.
  unfoldable pub mark_empty_col : LpProblem F → ℕ → EmptyCols F → EmptyCols F
  mark_empty_col problem j s =
      let c = val problem.objective j in
      let value = if nonnegative c then val problem.lower j else val problem.upper j in
      if at problem.A.col_start (suc j) == at problem.A.col_start j
      then record {
        col_marker = set s.col_marker j 1;
        info = record s.info {
          removed_variables = push_back j s.info.removed_variables;
          removed_reduced_costs = push_back c s.info.removed_reduced_costs;
          removed_values = push_back value s.info.removed_values;
        };
        obj_constant = num.add s.obj_constant (num.mul c value);
        new_cols = s.new_cols;
      }
      else record s { col_marker = set s.col_marker j 0; new_cols = s.new_cols + 1 }

  -- Column j is copied to the columns that remain.
  unfoldable pub keep_col : LpProblem F → ℕ → KeptCols F → KeptCols F
  keep_col problem j s = record s {
    objective = set s.objective s.new_j (val problem.objective j);
    lower = set s.lower s.new_j (val problem.lower j);
    upper = set s.upper s.new_j (val problem.upper j);
    new_j = s.new_j + 1;
  }

  -- One round of the second loop of `remove_empty_cols`.
  unfoldable pub keep_unmarked_col : LpProblem F → List ℕ → ℕ → KeptCols F → KeptCols F
  unfolding keep_col
  keep_unmarked_col problem col_marker j s =
      if at col_marker j == 0
      then (let t = keep_col problem j s in
          record t { remaining_variables = push_back j t.remaining_variables })
      else record s { counter = s.counter - 1 }

  -- `inf` is INFINITY. The results are the problem, num_empty_cols and presolve_info.
  unfoldable pub remove_empty_cols :
      F → LpProblem F → ℕ → PresolveInfo F → LpProblem F × ℕ × PresolveInfo F
  unfolding mark_empty_col keep_unmarked_col
  remove_empty_cols inf problem num_empty_cols presolve_info =
      let marked = for_loop 0 problem.num_cols (mark_empty_col problem) (record {
        col_marker = replicate problem.num_cols 0;
        info = presolve_info;
        obj_constant = problem.obj_constant;
        new_cols = 0;
      }) in
      let new_cols = marked.new_cols in
      let kept = for_loop 0 problem.num_cols (keep_unmarked_col problem marked.col_marker) (record {
        objective = replicate new_cols num.nought;
        lower = replicate new_cols (negate inf);
        upper = replicate new_cols inf;
        remaining_variables = marked.info.remaining_variables;
        new_j = 0;
        counter = num_empty_cols;
      }) in
      (
        record problem {
          A = remove_columns problem.A marked.col_marker;
          objective = kept.objective;
          lower = kept.lower;
          upper = kept.upper;
          num_cols = new_cols;
          obj_constant = marked.obj_constant;
        },
        kept.counter,
        record marked.info { remaining_variables = kept.remaining_variables },
      )

  -- One round of the loop of `remove_rows`.
  unfoldable pub keep_row : LpProblem F → List ℕ → ℕ → KeptRows F → KeptRows F
  keep_row problem row_marker i s =
      let kept = record s {
        new_rhs = set s.new_rhs s.row_count (val problem.rhs i);
        row_count = s.row_count + 1;
      } in
      let dropped =
        if num.eq (val problem.rhs i) num.nought then s else record s { status = i + 1 } in
      if s.status == 0 then (if at row_marker i == 0 then kept else dropped) else s

  -- The status and the problem. new_row_sense, which the code fills and never reads, is left out.
  unfoldable pub remove_rows : LpProblem F → Csr F → List ℕ → ℕ × LpProblem F
  unfolding keep_row
  remove_rows problem Arow row_marker =
      let Aout = remove_marked_rows Arow row_marker no_rows in
      let s =
        for_loop 0 problem.num_rows (keep_row problem row_marker)
          (record { status = 0; new_rhs = replicate Aout.m num.nought; row_count = 0 }) in
      let A = to_compressed_col Aout problem.A in
      if s.status == 0
      then (0, record problem { rhs = s.new_rhs; A = A; num_rows = A.m })
      else (s.status, problem)

  -- The loop of `remove_empty_rows` that marks the rows without an entry.
  unfoldable pub mark_empty_rows : ℕ → Csr F → List ℕ
  mark_empty_rows num_rows Arow =
      for_loop 0 num_rows
        (λ i marker.
          set marker i (if at Arow.row_start (suc i) == at Arow.row_start i then 1 else 0))
        (replicate num_rows 0)

  unfoldable pub remove_empty_rows : LpProblem F → ℕ × LpProblem F
  unfolding mark_empty_rows remove_rows
  remove_empty_rows problem =
      let Arow = to_compressed_row problem.A no_rows in
      remove_rows problem Arow (mark_empty_rows problem.num_rows Arow)

  -- One round of the first loop of `remove_fixed_variables`; `abs` is std::abs.
  unfoldable pub mark_fixed_col : (F → F) → F → LpProblem F → ℕ → FixedCols F → FixedCols F
  mark_fixed_col abs fixed_tolerance problem j s =
      let low = val problem.lower j in
      let A = problem.A in
      if num.lt (abs (num.sub (val problem.upper j) low)) fixed_tolerance
      then record {
        col_marker = set s.col_marker j 1;
        rhs =
            for_loop (at A.col_start j) (at A.col_start (suc j))
              (λ p b. let i = at A.i p in set b i (num.sub (val b i) (num.mul (val A.x p) low)))
              s.rhs;
        obj_constant = num.add s.obj_constant (num.mul (val problem.objective j) low);
      }
      else record s { col_marker = set s.col_marker j 0 }

  -- One round of the second loop of `remove_fixed_variables`.
  unfoldable pub keep_unfixed_col : LpProblem F → List ℕ → ℕ → KeptCols F → KeptCols F
  unfolding keep_col
  keep_unfixed_col problem col_marker j s =
      if at col_marker j == 0
      then (let t = keep_col problem j s in record t { counter = t.counter - 1 })
      else s

  -- The problem and the counter fixed_variables.
  unfoldable pub remove_fixed_variables : (F → F) → F → LpProblem F → ℕ → LpProblem F × ℕ
  unfolding mark_fixed_col keep_unfixed_col
  remove_fixed_variables abs fixed_tolerance problem fixed_variables =
      let marked =
        for_loop 0 problem.num_cols (mark_fixed_col abs fixed_tolerance problem) (record {
          col_marker = replicate problem.num_cols 0;
          rhs = problem.rhs;
          obj_constant = problem.obj_constant;
        }) in
      let A = remove_columns problem.A marked.col_marker in
      let kept = for_loop 0 problem.num_cols (keep_unfixed_col problem marked.col_marker) (record {
        objective = replicate A.n num.nought;
        lower = replicate A.n num.nought;
        upper = replicate A.n num.nought;
        remaining_variables = [];
        new_j = 0;
        counter = fixed_variables;
      }) in
      (
        record problem {
          A = A;
          rhs = marked.rhs;
          obj_constant = marked.obj_constant;
          objective = kept.objective;
          lower = kept.lower;
          upper = kept.upper;
          num_cols = A.n;
        },
        kept.counter,
      )
