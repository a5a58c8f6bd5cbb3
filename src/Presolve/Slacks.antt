-- ===== src/Presolve/Slacks.antt =====
-- The problem that the loops which add slacks in cpp/src/dual_simplex/presolve.cpp end with.
use nvcuopt.Prelude.{
  ℕ, suc, ◌+◌, ◌-◌, ◌≤◌, ◌<◌, ◌≡◌, refl, sym, subst, ap, ap₂, ◌∙◌, List, [], ◌∷◌, map, arith, ◌==◌,
  inl, inr, Bool-cases, ltb, length, length-set, set, get_or-set_self, get_or-set_ne, span,
  map-span_congr, All,
}
use nvcuopt.Prelude.Num.{Num}
use nvcuopt.Sparse.Matrix.{at, val}
use nvcuopt.Sparse.Layout.{cols, segment, entry, IsLayout}
use nvcuopt.Presolve.Problem.{LpProblem}
use nvcuopt.Presolve.Convert.{Growing, finish_columns}
use nvcuopt.Presolve.Grow.{Slack, Agrees, Grown, slack_at}
use nvcuopt.Presolve.Negate.{start_le}
use nvcuopt.Presolve.Greater.{IsProblem}

module _ {F : Type 0} ⦃num : Num F⦄ where
  -- R is P with the columns ss added: the old columns, the rows, the right-hand sides and the constant
  -- and the scale of the objective are as they were, and each new column has its entry, its bounds and
  -- no cost.
  pub record Extends (P R : LpProblem F) (ss : List (Slack F)) : Type 0 where
    pub columns : R.num_cols ≡ P.num_cols + length ss
    pub problem : IsProblem R
    pub number : R.num_rows ≡ P.num_rows
    pub capacity : R.A.nz_max ≡ P.A.nz_max
    pub sides : R.rhs ≡ P.rhs
    pub constant : R.obj_constant ≡ P.obj_constant
    pub scale : R.obj_scale ≡ P.obj_scale
    pub old_segment : (j : ℕ) → j < P.num_cols → segment (cols R.A) j ≡ segment (cols P.A) j
    pub new_segment :
        (t : ℕ)
        → t < length ss
        → segment (cols R.A) (P.num_cols + t)
          ≡ ((slack_at ss t).row, (slack_at ss t).coefficient) ∷ []
    pub lower :
        Agrees num.nought R.lower P.lower
          (λ t. (slack_at ss t).low)
          P.num_cols
          (length ss)
          (P.num_cols + length ss)
    pub upper :
        Agrees num.nought R.upper P.upper
          (λ t. (slack_at ss t).up)
          P.num_cols
          (length ss)
          (P.num_cols + length ss)
    pub objective :
        Agrees num.nought R.objective P.objective
          (λ t. num.nought)
          P.num_cols
          (length ss)
          (P.num_cols + length ss)

module _ {F : Type 0} ⦃num : Num F⦄ (P : LpProblem F) (slacks : List ℕ) (ss : List (Slack F))
    (s : Growing F) (h : IsProblem P) (g : Grown P slacks ss (length ss) (length ss) s) where
  abbrev nnz : ℕ
  nnz = at P.A.col_start P.num_cols

  abbrev grown : LpProblem F
  grown = finish_columns (P.num_cols + length ss) s

  grown-shape :
      (grown.A.i ≡ s.problem.A.i)
      × (grown.A.x ≡ s.problem.A.x)
      × (grown.A.col_start ≡ set s.problem.A.col_start (P.num_cols + length ss) s.p)
      × (grown.A.n ≡ P.num_cols + length ss)
      × (grown.A.m ≡ s.problem.A.m)
      × (grown.num_rows ≡ s.problem.num_rows)
  unfolding finish_columns
  grown-shape = (refl, refl, refl, refl, refl, refl)

  start_old : (r : ℕ) → r < P.num_cols → at grown.A.col_start r ≡ at P.A.col_start r
  start_old r lt =
      let (_, _, e, _, _, _) = grown-shape in
      ap (λ v. at v r) e
      ∙ get_or-set_ne s.problem.A.col_start (P.num_cols + length ss) r s.p 0 (omega arith)
      ∙ g.starts.old r lt

  start_new : (t : ℕ) → t ≤ length ss → at grown.A.col_start (P.num_cols + t) ≡ nnz + t
  start_new t le =
      let (_, _, e, _, _, _) = grown-shape in
      let last = P.num_cols + length ss in
      ap (λ v. at v (P.num_cols + t)) e ∙ elim (Bool-cases (t == length ss)) [
        | inl hit ↦
            let same : last ≡ P.num_cols + t = ground arith in
            subst (λ r. at (set s.problem.A.col_start last s.p) r ≡ nnz + t) same
              (get_or-set_self s.problem.A.col_start last s.p 0 (omega (arith, g.starts.size))
                ∙ g.place
                ∙ (let e : t ≡ length ss = ground arith in omega arith))
        | inr miss ↦
            let below : t < length ss = ground arith in
            get_or-set_ne s.problem.A.col_start last (P.num_cols + t) s.p 0 (omega arith)
            ∙ g.starts.new t below
      ]

  -- The start after an old column.
  start_next : (j : ℕ) → j < P.num_cols → at grown.A.col_start (suc j) ≡ at P.A.col_start (suc j)
  start_next j lt = elim (Bool-cases (suc j == P.num_cols)) [
    | inl hit ↦
        let e : P.num_cols + 0 ≡ suc j = ground arith in
        let e' : P.num_cols ≡ suc j = ground arith in
        subst (λ r. at grown.A.col_start r ≡ at P.A.col_start (suc j)) e
          (start_new 0 (omega arith) ∙ omega arith ∙ ap (at P.A.col_start) e')
    | inr miss ↦ start_old (suc j) (ground arith)
  ]

  segment_old : (j : ℕ) → j < P.num_cols → segment (cols grown.A) j ≡ segment (cols P.A) j
  segment_old j lt =
      let (ei, ex, _, _, _, _) = grown-shape in
      let lo = at P.A.col_start j in
      let up = h.layout.rising j lt in
      let top =
        start_le P.num_cols P.num_rows (cols P.A) h.layout (suc j) (P.num_cols - suc j) P.num_cols
          (omega arith) (omega arith) in
      ap₂ (λ a b. map (entry (cols grown.A)) (span a (b - a))) (start_old j lt) (start_next j lt)
      ∙ map-span_congr _ _ lo (at P.A.col_start (suc j) - lo) (λ p from under.
        ap₂ (λ (a : ℕ) (b : F). (a, b)) (ap (λ v. at v p) ei ∙ g.index.old p (omega arith))
          (ap (λ v. val v p) ex ∙ g.value.old p (omega arith)))

  segment_new :
      (t : ℕ)
      → t < length ss
      → segment (cols grown.A) (P.num_cols + t)
        ≡ ((slack_at ss t).row, (slack_at ss t).coefficient) ∷ []
  segment_new t lt =
      let (ei, ex, _, _, _, _) = grown-shape in
      let after : at grown.A.col_start (suc (P.num_cols + t)) ≡ nnz + suc t =
        subst (λ r. at grown.A.col_start r ≡ nnz + suc t) (omega arith)
          (start_new (suc t) (omega arith)) in
      let wide : (nnz + suc t) - (nnz + t) ≡ 1 = omega arith in
      ap₂ (λ a b. map (entry (cols grown.A)) (span a (b - a))) (start_new t (omega arith)) after
      ∙ ap (λ k. map (entry (cols grown.A)) (span (nnz + t) k)) wide
      ∙ ap₂ (λ (a : ℕ) (b : F). (a, b) ∷ []) (ap (λ v. at v (nnz + t)) ei ∙ g.index.new t lt)
          (ap (λ v. val v (nnz + t)) ex ∙ g.value.new t lt)

  grown-IsLayout :
      ((t : ℕ) → t < length ss → (slack_at ss t).row < P.num_rows)
      → IsLayout (P.num_cols + length ss) P.num_rows (cols grown.A)
  grown-IsLayout rows =
      let (ei, ex, es, _, _, _) = grown-shape in
      let n = P.num_cols in
      let k = length ss in
      let end = start_new k (omega arith) in
      record {
        starts_size = ap length es ∙ length-set s.problem.A.col_start (n + k) s.p ∙ g.starts.size;
        first = elim (Bool-cases (ltb 0 n)) [
          | inl some ↦ start_old 0 (ground arith) ∙ h.layout.first
          | inr none ↦
              let e : n ≡ 0 = ground arith in
              let e' : n + 0 ≡ 0 = omega arith in
              subst (λ r. at grown.A.col_start r ≡ 0) e'
                (start_new 0 (omega arith) ∙ omega (arith, ap (at P.A.col_start) e, h.layout.first))
        ];
        rising = λ j lt. elim (Bool-cases (ltb j n)) [
          | inl old ↦
              let low : j < n = ground arith in
              omega (arith, start_old j low, start_next j low, h.layout.rising j low)
          | inr new ↦
              let t : ℕ = j - n in
              let below : t < k = ground arith in
              let e : n + t ≡ j = ground arith in
              let here =
                subst (λ r. at grown.A.col_start r ≡ nnz + t) e (start_new t (omega arith)) in
              let e' : n + suc t ≡ suc j = omega arith in
              let next =
                subst (λ r. at grown.A.col_start r ≡ nnz + suc t) e'
                  (start_new (suc t) (omega arith)) in
              omega arith
        ];
        index_room = omega (arith, end, ap length ei, g.index.size);
        value_room = omega (arith, end, ap length ex, g.value.size);
        bounded = λ j lt. elim (Bool-cases (ltb j n)) [
          | inl old ↦
              let low : j < n = ground arith in
              subst (All (λ e. e.0 < P.num_rows)) (sym (segment_old j low)) (h.layout.bounded j low)
          | inr new ↦
              let t : ℕ = j - n in
              let below : t < k = ground arith in
              let e : n + t ≡ j = ground arith in
              subst (λ r. All (λ e. e.0 < P.num_rows) (segment (cols grown.A) r)) e
                (subst (All (λ e. e.0 < P.num_rows)) (sym (segment_new t below)) (rows t below, tt))
        ];
      }

  pub grown-Extends :
      ((t : ℕ) → t < length ss → (slack_at ss t).row < P.num_rows)
      → Extends P (finish_columns (P.num_cols + length ss) s) ss
  unfolding finish_columns
  grown-Extends rows = record {
    columns = refl;
    problem = record {
      layout =
          subst (λ m. IsLayout (P.num_cols + length ss) m (cols grown.A)) (sym g.number)
            (grown-IsLayout rows);
      columns = refl;
      matrix_rows = g.matrix_rows ∙ h.matrix_rows ∙ sym g.number;
      sides = omega (arith, ap length g.sides, g.number, h.sides);
    };
    number = g.number;
    capacity = g.capacity;
    sides = g.sides;
    constant = g.constant;
    scale = g.scale;
    old_segment = segment_old;
    new_segment = segment_new;
    lower = g.lower;
    upper = g.upper;
    objective = g.objective;
  }
