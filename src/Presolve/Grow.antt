-- ===== src/Presolve/Grow.antt =====
-- How a problem grows by columns with one entry, in cpp/src/dual_simplex/presolve.cpp: what one round
-- of the loops that add slacks leaves.
use mathlib.Core.List.{append_assoc, append-nil}
use nvcuopt.Prelude.{
  ℕ, zero, suc, ◌+◌, ◌≤◌, ◌<◌, ◌≡◌, refl, sym, subst, ap, ◌∙◌, List, [], ◌∷◌, ◌++◌, foldl, arith,
  ◌==◌, inl, inr, Bool-cases, length, length-append, length-set, length-resize, resize, get_or, set,
  get_or-set_self, get_or-set_ne, span,
}
use nvcuopt.Prelude.Num.{Num}
use nvcuopt.Sparse.Matrix.{at}
use nvcuopt.Presolve.Problem.{LpProblem, push_back}
use nvcuopt.Presolve.Convert.{Growing, make_room, add_slack}
use nvcuopt.Presolve.Compact.{get_or-append_left, get_or-append_last}

-- The row, the coefficient and the bounds of a new column.
pub record Slack (F : Type 0) : Type 0 where
  pub row : ℕ
  pub coefficient : F
  pub low : F
  pub up : F

module _ {ℓ} {A : Type ℓ} where
  pub get_or-resize :
      (n : ℕ) (d : A) (xs : List A) (i : ℕ) → i < n → get_or (resize n d xs) i d ≡ get_or xs i d
  get_or-resize zero d xs i lt = elim lt [ ]
  get_or-resize (suc n) d [] zero lt = refl
  get_or-resize (suc n) d [] (suc i) lt = get_or-resize n d [] i (omega arith)
  get_or-resize (suc n) d (x ∷ xs) zero lt = refl
  get_or-resize (suc n) d (x ∷ xs) (suc i) lt = get_or-resize n d xs i (omega arith)

  -- A list v that agrees with v0 below n and with f from n on, k places far, grows by a write.
  pub record Agrees (d : A) (v v0 : List A) (f : ℕ → A) (n k total : ℕ) : Type ℓ where
    pub size : length v ≡ total
    pub old : (i : ℕ) → i < n → get_or v i d ≡ get_or v0 i d
    pub new : (t : ℕ) → t < k → get_or v (n + t) d ≡ f t

  pub set-Agrees :
      (d : A) (v v0 : List A) (f : ℕ → A) (n k total q : ℕ) (a : A)
      → q ≡ n + k
      → q < total
      → a ≡ f k
      → Agrees d v v0 f n k total
      → Agrees d (set v q a) v0 f n (suc k) total
  set-Agrees d v v0 f n k total q a e room ea h = record {
    size = length-set v q a ∙ h.size;
    old = λ i lt. get_or-set_ne v q i a d (omega arith) ∙ h.old i lt;
    new = λ t lt. elim (Bool-cases (t == k)) [
      | inl hit ↦
          let same : t ≡ k = ground arith in
          let place : q ≡ n + t = omega arith in
          subst (λ r. get_or (set v q a) r d ≡ f t) place
            (get_or-set_self v q a d (omega (arith, h.size)) ∙ ea ∙ ap f (sym same))
      | inr miss ↦
          get_or-set_ne v q (n + t) a d (let ne : t < k = ground arith in omega arith)
          ∙ h.new t (ground arith)
    ];
  }

span_last : (lo k last : ℕ) → lo + k ≡ last → span lo (suc k) ≡ span lo k ++ (last ∷ [])
span_last lo zero last e = let e' : last ≡ lo = omega arith in rw e'
span_last lo (suc k) last e = ap (◌∷◌ lo) (span_last (suc lo) k last (omega arith))

module _ {F : Type 0} ⦃num : Num F⦄ where
  abbrev pub blank_slack : Slack F
  blank_slack = record { row = 0; coefficient = num.nought; low = num.nought; up = num.nought }

  abbrev pub slack_at : List (Slack F) → ℕ → Slack F
  slack_at ss t = get_or ss t blank_slack

  -- The columns of ss added one after the other.
  abbrev pub add_slacks : List (Slack F) → Growing F → Growing F
  add_slacks ss s = foldl (λ t (e : Slack F). add_slack e.row e.coefficient e.low e.up t) s ss

  -- The first k of the columns ss, of total, have been added to the problem P.
  pub record Grown (P : LpProblem F) (slacks : List ℕ) (ss : List (Slack F)) (total k : ℕ)
      (s : Growing F) : Type 0 where
    pub place : s.p ≡ at P.A.col_start P.num_cols + k
    pub column : s.j ≡ P.num_cols + k
    pub starts :
        Agrees 0 s.problem.A.col_start P.A.col_start
          (λ t. at P.A.col_start P.num_cols + t)
          P.num_cols
          k
          (suc (P.num_cols + total))
    pub index :
        Agrees 0 s.problem.A.i P.A.i
          (λ t. (slack_at ss t).row)
          (at P.A.col_start P.num_cols)
          k
          (at P.A.col_start P.num_cols + total)
    pub value :
        Agrees num.nought s.problem.A.x P.A.x
          (λ t. (slack_at ss t).coefficient)
          (at P.A.col_start P.num_cols)
          k
          (at P.A.col_start P.num_cols + total)
    pub lower :
        Agrees num.nought s.problem.lower P.lower
          (λ t. (slack_at ss t).low)
          P.num_cols
          k
          (P.num_cols + total)
    pub upper :
        Agrees num.nought s.problem.upper P.upper
          (λ t. (slack_at ss t).up)
          P.num_cols
          k
          (P.num_cols + total)
    pub objective :
        Agrees num.nought s.problem.objective P.objective
          (λ t. num.nought)
          P.num_cols
          k
          (P.num_cols + total)
    pub listed : s.new_slacks ≡ slacks ++ span P.num_cols k
    pub matrix_rows : s.problem.A.m ≡ P.A.m
    pub capacity : s.problem.A.nz_max ≡ P.A.nz_max
    pub number : s.problem.num_rows ≡ P.num_rows
    pub sides : s.problem.rhs ≡ P.rhs
    pub constant : s.problem.obj_constant ≡ P.obj_constant
    pub scale : s.problem.obj_scale ≡ P.obj_scale

  resize-Agrees :
      (d : F) (v : List F) (f : ℕ → F) (n total : ℕ)
      → Agrees d (resize (n + total) d v) v f n 0 (n + total)
  resize-Agrees d v f n total = record {
    size = length-resize (n + total) d v;
    old = λ i lt. get_or-resize (n + total) d v i (omega arith);
    new = λ t lt. absurd (omega arith);
  }

  pub make_room-Grown :
      (P : LpProblem F) (slacks : List ℕ) (ss : List (Slack F)) (total : ℕ)
      → Grown P slacks ss total 0 (make_room total P slacks)
  unfolding make_room
  make_room-Grown P slacks ss total =
      let n = P.num_cols in
      let nnz = at P.A.col_start n in
      record {
        place = omega arith;
        column = omega arith;
        starts = record {
          size = length-resize (suc (n + total)) 0 P.A.col_start;
          old = λ i lt. get_or-resize (suc (n + total)) 0 P.A.col_start i (omega arith);
          new = λ t lt. absurd (omega arith);
        };
        index = record {
          size = length-resize (nnz + total) 0 P.A.i;
          old = λ i lt. get_or-resize (nnz + total) 0 P.A.i i (omega arith);
          new = λ t lt. absurd (omega arith);
        };
        value = resize-Agrees num.nought P.A.x _ nnz total;
        lower = resize-Agrees num.nought P.lower _ n total;
        upper = resize-Agrees num.nought P.upper _ n total;
        objective = resize-Agrees num.nought P.objective _ n total;
        listed = sym (append-nil slacks);
        matrix_rows = refl;
        capacity = refl;
        number = refl;
        sides = refl;
        constant = refl;
        scale = refl;
      }

  pub add_slack-Grown :
      (P : LpProblem F) (slacks : List ℕ) (ss : List (Slack F)) (total k : ℕ) (s : Growing F)
      → k < total
      → Grown P slacks ss total k s
      → let e = slack_at ss k in
        Grown P slacks ss total (suc k) (add_slack e.row e.coefficient e.low e.up s)
  unfolding add_slack
  add_slack-Grown P slacks ss total k s lt h =
      let n = P.num_cols in
      let nnz = at P.A.col_start n in
      let e = slack_at ss k in
      record {
        place = omega (arith, h.place);
        column = omega (arith, h.column);
        starts =
            set-Agrees 0 _ _ _ n k (suc (n + total)) s.j s.p h.column (omega (arith, h.column))
              h.place h.starts;
        index =
            set-Agrees 0 _ _ _ nnz k (nnz + total) s.p e.row h.place (omega (arith, h.place)) refl
              h.index;
        value =
            set-Agrees num.nought _ _ _ nnz k (nnz + total) s.p e.coefficient h.place
              (omega (arith, h.place)) refl h.value;
        lower =
            set-Agrees num.nought _ _ _ n k (n + total) s.j e.low h.column (omega (arith, h.column))
              refl h.lower;
        upper =
            set-Agrees num.nought _ _ _ n k (n + total) s.j e.up h.column (omega (arith, h.column))
              refl h.upper;
        objective =
            set-Agrees num.nought _ _ _ n k (n + total) s.j num.nought h.column
              (omega (arith, h.column)) refl h.objective;
        listed =
            ap (push_back s.j) h.listed
            ∙ append_assoc slacks (span n k) (s.j ∷ [])
            ∙ ap (λ q. slacks ++ (span n k ++ (q ∷ []))) h.column
            ∙ ap (◌++◌ slacks) (sym (span_last n k (n + k) refl));
        matrix_rows = h.matrix_rows;
        capacity = h.capacity;
        number = h.number;
        sides = h.sides;
        constant = h.constant;
        scale = h.scale;
      }

  -- After all columns of ss.
  pub add_slacks-Grown :
      (P : LpProblem F) (slacks : List ℕ) (ds es : List (Slack F)) (total : ℕ) (s : Growing F)
      → length ds + length es ≤ total
      → Grown P slacks (ds ++ es) total (length ds) s
      → Grown P slacks (ds ++ es) total (length ds + length es) (add_slacks es s)
  add_slacks-Grown P slacks ds [] total s le h =
      subst (λ k. Grown P slacks (ds ++ []) total k s) (omega arith) h
  add_slacks-Grown P slacks ds (e ∷ es) total s le h =
      let all = append_assoc ds (e ∷ []) es in
      let size = length-append ds (e ∷ []) in
      let this : slack_at (ds ++ e ∷ es) (length ds) ≡ e =
        ap (λ v. slack_at v (length ds)) (sym all)
        ∙ get_or-append_left (ds ++ e ∷ []) es (length ds) blank_slack (omega (arith, size))
        ∙ get_or-append_last ds e blank_slack in
      let t = add_slack e.row e.coefficient e.low e.up s in
      let one : Grown P slacks (ds ++ e ∷ es) total (suc (length ds)) t =
        subst
          (λ (d : Slack F).
            Grown P slacks (ds ++ e ∷ es) total (suc (length ds))
              (add_slack d.row d.coefficient d.low d.up s))
          this (add_slack-Grown P slacks (ds ++ e ∷ es) total (length ds) s (omega arith) h) in
      let next = add_slacks-Grown P slacks (ds ++ e ∷ []) es total t (omega (arith, size)) (
        subst (λ v. Grown P slacks v total (length (ds ++ e ∷ [])) t) (sym all)
          (subst (λ k. Grown P slacks (ds ++ e ∷ es) total k t) (omega (arith, size)) one)) in
      subst (λ v. Grown P slacks v total (length ds + suc (length es)) (add_slacks es t)) all
        (subst (λ k. Grown P slacks ((ds ++ e ∷ []) ++ es) total k (add_slacks es t))
          (omega (arith, size)) next)
