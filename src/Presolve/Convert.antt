-- ===== src/Presolve/Convert.antt =====
-- `convert_less_than_to_equal`, `convert_greater_to_less`, `convert_range_rows`,
-- `add_artifical_variables` and `convert_user_problem` of cpp/src/dual_simplex/presolve.cpp.
-- Printing is left out, and so are two counters that `convert_user_problem` never reads.
use nvcuopt.Prelude.{
  ℕ, suc, ◌+◌, ◌-◌, List, [], ◌==◌, ltb, if◌then◌else◌, length, set, resize, for_loop, foldl,
}
use nvcuopt.Prelude.Num.{Num}
use nvcuopt.Sparse.Matrix.{Csr, at, val}
use nvcuopt.Sparse.Convert.{to_compressed_row, to_compressed_col}
use nvcuopt.Presolve.Problem.{UserProblem, LpProblem, push_back, no_rows, minus_one}

-- The problem while columns are added, with their list, the next place and the next column.
pub record Growing (F : Type 0) : Type 0 where
  pub problem : LpProblem F
  pub new_slacks : List ℕ
  pub p : ℕ
  pub j : ℕ

-- The senses of the rows, and how many have which.
pub record Senses : Type 0 where
  pub row_sense : List ℕ
  pub less_rows : ℕ
  pub equal_rows : ℕ
  pub greater_rows : ℕ
  pub equality_rows : List ℕ

-- The counters after a range row was converted.
unfoldable pub count_range : ℕ → Senses → Senses
count_range sense c =
    if sense == b'L'
    then record c { less_rows = c.less_rows - 1; equal_rows = c.equal_rows + 1 }
    else if sense == b'G'
    then record c { greater_rows = c.greater_rows - 1; equal_rows = c.equal_rows + 1 }
    else c

-- One round of the loop of `convert_user_problem` that counts the rows by their senses.
unfoldable pub count_sense : ℕ → Senses → Senses
count_sense i c =
    if at c.row_sense i == b'G'
    then record c { greater_rows = c.greater_rows + 1 }
    else if at c.row_sense i == b'L'
    then record c { less_rows = c.less_rows + 1 }
    else record c { equal_rows = c.equal_rows + 1; equality_rows = push_back i c.equality_rows }

module _ {F : Type 0} ⦃num : Num F⦄ where
  -- The vectors grow by k columns with one entry each.
  unfoldable pub make_room : ℕ → LpProblem F → List ℕ → Growing F
  make_room k problem new_slacks =
      let A = problem.A in
      let num_cols = problem.num_cols + k in
      let nnz = at A.col_start problem.num_cols + k in
      record {
        problem = record problem {
          A = record A {
            col_start = resize (suc num_cols) 0 A.col_start;
            i = resize nnz 0 A.i;
            x = resize nnz num.nought A.x;
          };
          lower = resize num_cols num.nought problem.lower;
          upper = resize num_cols num.nought problem.upper;
          objective = resize num_cols num.nought problem.objective;
        };
        new_slacks = new_slacks;
        p = at A.col_start problem.num_cols;
        j = problem.num_cols;
      }

  -- Column j gets the value a in row i, the bounds low and up, and no cost.
  unfoldable pub add_slack : ℕ → F → F → F → Growing F → Growing F
  add_slack i a low up s =
      let lp = s.problem in
      let A = lp.A in
      record {
        problem = record lp {
          A = record A {
            col_start = set A.col_start s.j s.p;
            i = set A.i s.p i;
            x = set A.x s.p a;
          };
          lower = set lp.lower s.j low;
          upper = set lp.upper s.j up;
          objective = set lp.objective s.j num.nought;
        };
        new_slacks = push_back s.j s.new_slacks;
        p = s.p + 1;
        j = s.j + 1;
      }

  -- The last start is written, and the numbers of columns are those of the larger problem.
  unfoldable pub finish_columns : ℕ → Growing F → LpProblem F
  finish_columns num_cols s =
      let lp = s.problem in
      record lp {
        A = record lp.A { col_start = set lp.A.col_start num_cols s.p; n = num_cols };
        num_cols = num_cols;
      }

  -- One round of the loop of `convert_less_than_to_equal`; `inf` is INFINITY.
  unfoldable pub add_less_slack : F → ℕ → Growing F × Senses → Growing F × Senses
  unfolding add_slack
  add_less_slack inf i (s, c) =
      if at c.row_sense i == b'L'
      then (
        add_slack i num.one num.nought inf s,
        record c { row_sense = set c.row_sense i b'E'; less_rows = c.less_rows - 1 },
      )
      else (s, c)

  unfoldable pub convert_less_than_to_equal :
      F → Senses → LpProblem F → List ℕ → LpProblem F × Senses × List ℕ
  unfolding make_room add_less_slack finish_columns
  convert_less_than_to_equal inf c problem new_slacks =
      let num_cols = problem.num_cols + c.less_rows in
      let (s, c') =
        for_loop 0 problem.num_rows (add_less_slack inf)
          (make_room c.less_rows problem new_slacks, c) in
      (finish_columns num_cols s, c', s.new_slacks)

  -- The loop over the entries of a row that changes their sign.
  unfoldable pub negate_row : Csr F → ℕ → List F → List F
  negate_row Arow i x =
      for_loop (at Arow.row_start i) (at Arow.row_start (suc i))
        (λ p y. set y p (num.mul (val y p) minus_one)) x

  -- One round of the loop of `convert_greater_to_less`, on the values, the right-hand sides and the
  -- senses.
  unfoldable pub negate_greater_row :
      Csr F → ℕ → List F × List F × Senses → List F × List F × Senses
  unfolding negate_row
  negate_greater_row Arow i (x, rhs, c) =
      if at c.row_sense i == b'G'
      then (
        negate_row Arow i x,
        set rhs i (num.mul (val rhs i) minus_one),
        record c {
          row_sense = set c.row_sense i b'L';
          greater_rows = c.greater_rows - 1;
          less_rows = c.less_rows + 1;
        },
      )
      else (x, rhs, c)

  unfoldable pub convert_greater_to_less : Senses → LpProblem F → LpProblem F × Senses
  unfolding negate_greater_row
  convert_greater_to_less c problem =
      let Arow = to_compressed_row problem.A no_rows in
      let (x, rhs, c') =
        for_loop 0 problem.num_rows (negate_greater_row Arow) (Arow.x, problem.rhs, c) in
      (record problem { A = to_compressed_col (record Arow { x = x }) problem.A; rhs = rhs }, c')

  -- The bounds h and u of a range row with sense `sense`, right-hand side b and range r; `abs` is
  -- std::abs. Another sense leaves them as they were: not set.
  unfoldable pub range_bounds : (F → F) → ℕ → F → F → F × F
  range_bounds abs sense b r =
      if sense == b'L'
      then (num.sub b (abs r), b)
      else if sense == b'G'
      then (b, num.add b (abs r))
      else if sense == b'E'
      then (if num.lt num.nought r then (b, num.add b (abs r)) else (num.sub b (abs r), b))
      else (num.nought, num.nought)

  -- One round of the loop of `convert_range_rows`.
  unfoldable pub add_range_slack :
      (F → F) → UserProblem F → ℕ → Growing F × Senses → Growing F × Senses
  unfolding add_slack range_bounds count_range
  add_range_slack abs user_problem k (s, c) =
      let i = at user_problem.range_rows k in
      let r = val user_problem.range_value k in
      let b = val s.problem.rhs i in
      let sense = at c.row_sense i in
      let (h, u) = range_bounds abs sense b r in
      let t = add_slack i minus_one h u s in
      (
        record t { problem = record t.problem { rhs = set t.problem.rhs i num.nought } },
        (let d = count_range sense c in record d { row_sense = set d.row_sense i b'E' }),
      )

  unfoldable pub convert_range_rows :
      (F → F) → UserProblem F → Senses → LpProblem F → List ℕ → LpProblem F × Senses × List ℕ
  unfolding make_room add_range_slack finish_columns
  convert_range_rows abs user_problem c problem new_slacks =
      let num_cols = problem.num_cols + user_problem.num_range_rows in
      let (s, c') =
        for_loop 0 user_problem.num_range_rows (add_range_slack abs user_problem)
          (make_room user_problem.num_range_rows problem new_slacks, c) in
      (finish_columns num_cols s, c', s.new_slacks)

  unfoldable pub add_artifical_variables : LpProblem F → List ℕ → List ℕ → LpProblem F × List ℕ
  unfolding make_room add_slack finish_columns
  add_artifical_variables problem equality_rows new_slacks =
      let k = length equality_rows in
      let s =
        foldl (λ t i. add_slack i num.one num.nought num.nought t) (make_room k problem new_slacks)
          equality_rows in
      (finish_columns (problem.num_cols + k) s, s.new_slacks)

  -- The problem and new_slacks.
  unfoldable pub convert_user_problem : F → (F → F) → UserProblem F → List ℕ → LpProblem F × List ℕ
  unfolding convert_range_rows convert_greater_to_less convert_less_than_to_equal
      add_artifical_variables count_sense
  convert_user_problem inf abs user_problem new_slacks =
      let problem : LpProblem F = record {
        num_rows = user_problem.num_rows;
        num_cols = user_problem.num_cols;
        objective = user_problem.objective;
        A = user_problem.A;
        rhs = user_problem.rhs;
        lower = user_problem.lower;
        upper = user_problem.upper;
        obj_constant = user_problem.obj_constant;
        obj_scale = user_problem.obj_scale;
      } in
      let counted : Senses = for_loop 0 user_problem.num_rows count_sense (record {
        row_sense = user_problem.row_sense;
        less_rows = 0;
        equal_rows = 0;
        greater_rows = 0;
        equality_rows = [];
      }) in
      let (ranged, c1, slacks1) =
        if ltb 0 user_problem.num_range_rows
        then convert_range_rows abs user_problem counted problem new_slacks
        else (problem, counted, new_slacks) in
      let (lessened, c2) =
        if ltb 0 c1.greater_rows then convert_greater_to_less c1 ranged else (ranged, c1) in
      let (equalled, c3, slacks3) =
        if ltb 0 c2.less_rows
        then convert_less_than_to_equal inf c2 lessened slacks1
        else (lessened, c2, slacks1) in
      add_artifical_variables equalled counted.equality_rows slacks3
