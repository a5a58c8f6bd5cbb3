-- ===== src/Presolve/Less.antt =====
-- `convert_less_than_to_equal` of cpp/src/dual_simplex/presolve.cpp: the columns that it adds.
use nvcuopt.Prelude.{
  ℕ, zero, suc, ◌+◌, ◌-◌, ◌≤◌, ◌<◌, ◌≡◌, ◌≢◌, refl, sym, subst, ap, ap₂, ◌∙◌, List, [], ◌∷◌, ◌++◌,
  map, foldl, arith, ◌==◌, true, false, inl, inr, Bool-cases, if◌then◌else◌, length, length-map,
  length-set, set, get_or-set_self, get_or-set_ne, span, All, for_loop-zero,
}
use nvcuopt.Prelude.Num.{Num}
use nvcuopt.Sparse.Matrix.{at}
use nvcuopt.Presolve.Problem.{LpProblem}
use nvcuopt.Presolve.Convert.{
  Growing, Senses, make_room, add_slack, finish_columns, add_less_slack, convert_less_than_to_equal,
}
use nvcuopt.Presolve.Grow.{Slack, add_slacks}
use nvcuopt.Presolve.Greater.{IsProblem}
use nvcuopt.Presolve.Slacks.{Extends}
use nvcuopt.Presolve.Artificial.{slack_rows, slacks_added}

-- The rows from lo on, k of them, with sense 'L'.
abbrev pub less_list : List ℕ → ℕ → ℕ → List ℕ
less_list senses lo zero = []
less_list senses lo (suc k) =
    if at senses lo == b'L' then lo ∷ less_list senses (suc lo) k else less_list senses (suc lo) k

less_list_congr :
    (a b : List ℕ) (lo k : ℕ)
    → ((r : ℕ) → lo ≤ r → at a r ≡ at b r)
    → less_list a lo k ≡ less_list b lo k
less_list_congr a b lo zero same = refl
less_list_congr a b lo (suc k) same =
    ap₂ (λ s l. if s == b'L' then lo ∷ l else l) (same lo (omega arith))
      (less_list_congr a b (suc lo) k (λ r le. same r (omega arith)))

less_list-All : (a : List ℕ) (lo k hi : ℕ) → lo + k ≤ hi → All (λ r. r < hi) (less_list a lo k)
less_list-All a lo zero hi le = tt
less_list-All a lo (suc k) hi le = elim (Bool-cases (at a lo == b'L')) [
  | inl hit ↦ rw hit (omega arith, less_list-All a (suc lo) k hi (omega arith))
  | inr miss ↦ rw miss (less_list-All a (suc lo) k hi (omega arith))
]

-- The sense of a row after `convert_less_than_to_equal`.
abbrev pub equalled : ℕ → ℕ
equalled sense = if sense == b'L' then b'E' else sense

module _ {F : Type 0} ⦃num : Num F⦄ where
  -- The slack of a row with sense 'L'.
  abbrev pub less_slack : F → ℕ → Slack F
  less_slack inf i = record { row = i; coefficient = num.one; low = num.nought; up = inf }

  add_less_slack_hit :
      (inf : F) (i : ℕ) (s : Growing F) (c : Senses)
      → at c.row_sense i == b'L' ≡ true
      → add_less_slack inf i (s, c) ≡ (
        add_slack i num.one num.nought inf s,
        record c { row_sense = set c.row_sense i b'E'; less_rows = c.less_rows - 1 },
      )
  unfolding add_less_slack
  add_less_slack_hit inf i s c hit = rw hit refl

  add_less_slack_miss :
      (inf : F) (i : ℕ) (s : Growing F) (c : Senses)
      → at c.row_sense i == b'L' ≡ false
      → add_less_slack inf i (s, c) ≡ (s, c)
  unfolding add_less_slack
  add_less_slack_miss inf i s c miss = rw miss refl

  abbrev less_run : F → ℕ → ℕ → Growing F × Senses → Growing F × Senses
  less_run inf lo k s = foldl (λ u i. add_less_slack inf i u) s (span lo k)

  -- What the loop over the rows from lo on, k of them, leaves.
  abbrev LessDone : F → ℕ → ℕ → Growing F → Senses → Growing F × Senses → Type 0
  LessDone inf lo k s c t =
      (t.0 ≡ add_slacks (map (less_slack inf) (less_list c.row_sense lo k)) s)
      × (t.1.less_rows ≡ c.less_rows - length (less_list c.row_sense lo k))
      × ((r : ℕ) → r < lo → at t.1.row_sense r ≡ at c.row_sense r)
      × ((r : ℕ) → lo ≤ r → r < lo + k → at t.1.row_sense r ≡ equalled (at c.row_sense r))

  less_loop :
      (inf : F) (lo k : ℕ) (s : Growing F) (c : Senses)
      → lo + k ≤ length c.row_sense
      → LessDone inf lo k s c (less_run inf lo k (s, c))
  less_loop inf lo zero s c room =
      (refl, omega arith, λ r lt. refl, λ r le lt. absurd (omega arith))
  less_loop inf lo (suc k) s c room = elim (Bool-cases (at c.row_sense lo == b'L')) [
    | inl hit ↦
        let s1 = add_slack lo num.one num.nought inf s in
        let c1 = record c { row_sense = set c.row_sense lo b'E'; less_rows = c.less_rows - 1 } in
        let other : (r : ℕ) → lo ≢ r → at c1.row_sense r ≡ at c.row_sense r =
          λ r ne. get_or-set_ne c.row_sense lo r b'E' 0 ne in
        let (es, el, before, within) =
          less_loop inf (suc lo) k s1 c1 (omega (arith, length-set c.row_sense lo b'E')) in
        let list : less_list c1.row_sense (suc lo) k ≡ less_list c.row_sense (suc lo) k =
          less_list_congr c1.row_sense c.row_sense (suc lo) k (λ r le. other r (omega arith)) in
        let whole : less_list c.row_sense lo (suc k) ≡ lo ∷ less_list c.row_sense (suc lo) k =
          ap
            (λ b.
              if b then lo ∷ less_list c.row_sense (suc lo) k else less_list c.row_sense (suc lo) k)
            hit in
        let turned : equalled (at c.row_sense lo) ≡ b'E' =
          ap (λ b. if b then b'E' else at c.row_sense lo) hit in
        subst (λ t. LessDone inf lo (suc k) s c (less_run inf (suc lo) k t))
          (sym (add_less_slack_hit inf lo s c hit))
          (
            es
                ∙ ap (λ js. add_slacks (map (less_slack inf) js) s1) list
                ∙ ap (λ js. add_slacks (map (less_slack inf) js) s) (sym whole),
            omega (arith, el, ap length list, ap length whole),
            λ r lt. before r (omega arith) ∙ other r (omega arith),
            λ r le lt. elim (Bool-cases (lo == r)) [
              | inl here ↦
                  let e : lo ≡ r = ground arith in
                  before r (omega arith)
                  ∙ subst (λ q. at c1.row_sense q ≡ equalled (at c.row_sense q)) e
                      (get_or-set_self c.row_sense lo b'E' 0 (omega arith) ∙ sym turned)
              | inr miss ↦
                  let ne : lo ≢ r = ground arith in
                  within r (ground arith) (omega arith) ∙ ap equalled (other r ne)
            ],
          )
    | inr miss ↦
        let (es, el, before, within) = less_loop inf (suc lo) k s c (omega arith) in
        let whole : less_list c.row_sense lo (suc k) ≡ less_list c.row_sense (suc lo) k =
          ap
            (λ b.
              if b then lo ∷ less_list c.row_sense (suc lo) k else less_list c.row_sense (suc lo) k)
            miss in
        let kept : equalled (at c.row_sense lo) ≡ at c.row_sense lo =
          ap (λ b. if b then b'E' else at c.row_sense lo) miss in
        subst (λ t. LessDone inf lo (suc k) s c (less_run inf (suc lo) k t))
          (sym (add_less_slack_miss inf lo s c miss))
          (
            es ∙ ap (λ js. add_slacks (map (less_slack inf) js) s) (sym whole),
            omega (arith, el, ap length whole),
            λ r lt. before r (omega arith),
            λ r le lt. elim (Bool-cases (lo == r)) [
              | inl here ↦
                  let e : lo ≡ r = ground arith in
                  before r (omega arith)
                  ∙ subst (λ q. at c.row_sense q ≡ equalled (at c.row_sense q)) e (sym kept)
              | inr ne ↦ within r (ground arith) (omega arith)
            ],
          )
  ]

  -- For a well-formed problem, as many senses as rows and a counter of the rows with sense 'L',
  -- `convert_less_than_to_equal` adds for each of these rows, in their order, a column with the
  -- entry 1 in this row, the bounds 0 and INFINITY and no cost, leaves the rest of the problem as it
  -- was, and lists the new columns. The senses 'L' become 'E', the others stay, and the counter ends
  -- at 0.
  pub convert_less_than_to_equal-Extends :
      (inf : F) (c : Senses) (P : LpProblem F) (new_slacks : List ℕ)
      → IsProblem P
      → P.num_rows ≤ length c.row_sense
      → c.less_rows ≡ length (less_list c.row_sense 0 P.num_rows)
      → let (R, c', slacks) = convert_less_than_to_equal inf c P new_slacks in
        let js = less_list c.row_sense 0 P.num_rows in
        Extends P R (map (less_slack inf) js)
        × (slacks ≡ new_slacks ++ span P.num_cols (length js))
        × (c'.less_rows ≡ 0)
        × ((r : ℕ) → r < P.num_rows → at c'.row_sense r ≡ equalled (at c.row_sense r))
  unfolding convert_less_than_to_equal
  convert_less_than_to_equal-Extends inf c P slacks h room count =
      let m = P.num_rows in
      let js = less_list c.row_sense 0 m in
      let start = make_room c.less_rows P slacks in
      let (es, el, _, within) = less_loop inf 0 m start c (omega arith) in
      let loop = for_loop-zero m (add_less_slack inf) (start, c) in
      let all = ap (λ (t : Growing F × Senses). t.0) loop ∙ es in
      let (extends, listed) =
        slacks_added P slacks (map (less_slack inf) js) c.less_rows h
          (count ∙ sym (length-map (less_slack inf) js))
          (slack_rows (less_slack inf) js m (λ i. refl)
            (less_list-All c.row_sense 0 m m (omega arith))) in
      (
        subst
            (λ s. Extends P (finish_columns (P.num_cols + c.less_rows) s) (map (less_slack inf) js))
            (sym all) extends,
        ap (λ (s : Growing F). s.new_slacks) all
            ∙ listed
            ∙ ap (λ k. slacks ++ span P.num_cols k) count,
        ap (λ (t : Growing F × Senses). t.1.less_rows) loop ∙ omega (arith, el, count),
        λ r lt.
            ap (λ (t : Growing F × Senses). at t.1.row_sense r) loop
            ∙ within r (omega arith) (omega arith),
      )
