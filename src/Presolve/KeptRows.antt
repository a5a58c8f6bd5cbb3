-- ===== src/Presolve/KeptRows.antt =====
-- The loop of `remove_rows` in cpp/src/dual_simplex/presolve.cpp.
use nvcuopt.Prelude.{
  ℕ, zero, suc, ◌+◌, ◌≤◌, ◌<◌, ◌≡◌, refl, sym, subst, ap, ◌∙◌, List, map, foldl, arith, ◌==◌, true,
  false, inl, inr, Bool-cases, length, set, span,
}
use nvcuopt.Prelude.Num.{Num}
use nvcuopt.Sparse.Matrix.{Csc, Csr, at, val}
use nvcuopt.Sparse.Convert.{to_compressed_col}
use nvcuopt.Sparse.Remove.Columns.{unmarked}
use nvcuopt.Presolve.Problem.{LpProblem}
use nvcuopt.Presolve.Remove.{KeptRows, keep_row}
use nvcuopt.Presolve.Compact.{write_from}

module _ {F : Type 0} ⦃num : Num F⦄ where
  -- Row r can be removed if it is marked: its right-hand side is 0.
  abbrev pub Removable : LpProblem F → List ℕ → ℕ → Type 0
  Removable problem row_marker r =
      at row_marker r == 0 ≡ false → num.eq (val problem.rhs r) num.nought ≡ true

  -- Row r is marked and its right-hand side is not 0.
  abbrev pub Violated : LpProblem F → List ℕ → ℕ → Type 0
  Violated problem row_marker r =
      (at row_marker r == 0 ≡ false) × (num.eq (val problem.rhs r) num.nought ≡ false)

  pub to_compressed_col_rows : (A : Csr F) (Acol : Csc F) → (to_compressed_col A Acol).m ≡ A.m
  unfolding to_compressed_col
  to_compressed_col_rows A Acol = refl

  abbrev pub kept : List F → ℕ → KeptRows F
  kept x c = record { status = 0; new_rhs = x; row_count = c }

  keep_row_stays :
      (problem : LpProblem F) (marker : List ℕ) (i : ℕ) (x : List F) (c : ℕ)
      → at marker i == 0 ≡ true
      → keep_row problem marker i (kept x c) ≡ kept (set x c (val problem.rhs i)) (suc c)
  unfolding keep_row
  keep_row_stays problem marker i x c stays =
      rw stays (ap (kept (set x c (val problem.rhs i))) (omega arith))

  keep_row_dropped :
      (problem : LpProblem F) (marker : List ℕ) (i : ℕ) (x : List F) (c : ℕ)
      → at marker i == 0 ≡ false
      → num.eq (val problem.rhs i) num.nought ≡ true
      → keep_row problem marker i (kept x c) ≡ kept x c
  unfolding keep_row
  keep_row_dropped problem marker i x c goes zeroed = rw (goes, zeroed)

  keep_row-Violated :
      (problem : LpProblem F) (marker : List ℕ) (i : ℕ) (x : List F) (c : ℕ)
      → Violated problem marker i
      → (keep_row problem marker i (kept x c)).status ≡ suc i
  unfolding keep_row
  keep_row-Violated problem marker i x c (goes, bad) = rw (goes, bad) (omega arith)

  keep_row_stopped :
      (problem : LpProblem F) (marker : List ℕ) (i k : ℕ) (s : KeptRows F)
      → s.status ≡ suc k
      → (keep_row problem marker i s).status ≡ suc k
  unfolding keep_row
  keep_row_stopped problem marker i k s e = ground arith

  abbrev pub run : LpProblem F → List ℕ → ℕ → ℕ → KeptRows F → KeptRows F
  run problem marker lo n s = foldl (λ t i. keep_row problem marker i t) s (span lo n)

  -- Where every row can be removed, the right-hand sides of the others are written.
  pub run_stays :
      (problem : LpProblem F) (marker : List ℕ) (lo n c : ℕ) (x : List F)
      → ((r : ℕ) → lo ≤ r → r < lo + n → Removable problem marker r)
      → let js = unmarked marker lo n in
        run problem marker lo n (kept x c)
        ≡ kept (write_from c (map (val problem.rhs) js) x) (c + length js)
  run_stays problem marker lo zero c x fine = ap (kept x) (omega arith)
  run_stays problem marker lo (suc n) c x fine =
      let rest =
        λ (r : ℕ) (a : suc lo ≤ r) (b : r < suc lo + n). fine r (omega arith) (omega arith) in
      elim (Bool-cases (at marker lo == 0)) [
        | inl stays ↦
            let y = set x c (val problem.rhs lo) in
            rw stays (
              ap (run problem marker (suc lo) n) (keep_row_stays problem marker lo x c stays)
              ∙ run_stays problem marker (suc lo) n (suc c) y rest
              ∙ ap
                  (kept (write_from (suc c) (map (val problem.rhs) (unmarked marker (suc lo) n)) y))
                  (omega arith))
        | inr goes ↦ rw goes (
            ap (run problem marker (suc lo) n) (
              keep_row_dropped problem marker lo x c goes
                (fine lo (omega arith) (omega arith) goes))
            ∙ run_stays problem marker (suc lo) n c x rest)
      ]

  run_stopped :
      (problem : LpProblem F) (marker : List ℕ) (lo n k : ℕ) (s : KeptRows F)
      → s.status ≡ suc k
      → (run problem marker lo n s).status ≡ suc k
  run_stopped problem marker lo zero k s e = e
  run_stopped problem marker lo (suc n) k s e =
      run_stopped problem marker (suc lo) n k (keep_row problem marker lo s)
        (keep_row_stopped problem marker lo k s e)

  -- The first row that cannot be removed is reported.
  pub run-Violated :
      (problem : LpProblem F) (marker : List ℕ) (lo n i c : ℕ) (x : List F)
      → lo ≤ i
      → i < lo + n
      → ((r : ℕ) → lo ≤ r → r < i → Removable problem marker r)
      → Violated problem marker i
      → (run problem marker lo n (kept x c)).status ≡ suc i
  run-Violated problem marker lo zero i c x le lt fine bad = absurd (omega arith)
  run-Violated problem marker lo (suc n) i c x le lt fine bad = elim (Bool-cases (lo == i)) [
    | inl hit ↦
        let e : i ≡ lo = ground arith in
        let bad' = subst (Violated problem marker) e bad in
        rw e (
          run_stopped problem marker (suc lo) n lo (keep_row problem marker lo (kept x c))
            (keep_row-Violated problem marker lo x c bad'))
    | inr miss ↦
        let low : lo < i = ground arith in
        let rest = λ (r : ℕ) (a : suc lo ≤ r) (b : r < i). fine r (omega arith) b in
        let next = run-Violated problem marker (suc lo) n i in
        let goal = λ (s : KeptRows F). (run problem marker (suc lo) n s).status ≡ suc i in
        elim (Bool-cases (at marker lo == 0)) [
          | inl stays ↦
              subst goal (sym (keep_row_stays problem marker lo x c stays))
                (next (suc c) (set x c (val problem.rhs lo)) low (omega arith) rest bad)
          | inr goes ↦
              subst goal
                (sym (keep_row_dropped problem marker lo x c goes (fine lo (omega arith) low goes)))
                (next c x low (omega arith) rest bad)
        ]
  ]
