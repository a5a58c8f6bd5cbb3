-- ===== src/Presolve/EmptyRows.antt =====
-- `remove_rows` of cpp/src/dual_simplex/presolve.cpp: what it leaves, and when it gives up.
use nvcuopt.Prelude.{
  ℕ, zero, suc, ◌+◌, ◌≤◌, ◌<◌, ◌≡◌, refl, sym, subst, ap, ap₂, ◌∙◌, List, map, arith, ◌==◌, false,
  inl, inr, Bool-cases, Bool, ◌⊎◌, Option, some, none, if◌then◌else◌, length, length-map,
  length-replicate, replicate, for_loop, for_loop-zero,
}
use nvcuopt.Prelude.Num.{Num}
use nvcuopt.Sparse.Matrix.{Csr, at, val}
use nvcuopt.Sparse.Layout.{rows, IsLayout}
use nvcuopt.Sparse.Convert.{to_compressed_col}
use nvcuopt.Sparse.Remove.{remove_rows as remove_marked_rows}
use nvcuopt.Sparse.Remove.Columns.{unmarked}
use nvcuopt.Sparse.Remove.Rows.{remove_rows-segment}
use nvcuopt.Presolve.Problem.{LpProblem, no_rows}
use nvcuopt.Presolve.Remove.{KeptRows, keep_row, remove_rows}
use nvcuopt.Presolve.Compact.{write_from_all}
use nvcuopt.Presolve.KeptRows.{
  Removable, Violated, to_compressed_col_rows, kept, run_stays, run-Violated,
}

module _ {F : Type 0} ⦃num : Num F⦄ where
  -- The first of the rows from lo on, n of them, that is marked and has a right-hand side other
  -- than 0.
  abbrev pub violation : LpProblem F → List ℕ → ℕ → ℕ → Option ℕ
  violation problem marker lo zero = none
  violation problem marker lo (suc n) =
      if at marker lo == 0
      then violation problem marker (suc lo) n
      else if num.eq (val problem.rhs lo) num.nought
      then violation problem marker (suc lo) n
      else some lo

  -- What it means that there is none, and that there is one.
  violation-cases :
      (problem : LpProblem F) (marker : List ℕ) (lo n : ℕ)
      → ((violation problem marker lo n ≡ none)
          × ((r : ℕ) → lo ≤ r → r < lo + n → Removable problem marker r))
        ⊎ ((i : ℕ) × (violation problem marker lo n ≡ some i)
            × (lo ≤ i)
            × (i < lo + n)
            × ((r : ℕ) → lo ≤ r → r < i → Removable problem marker r)
            × Violated problem marker i)
  violation-cases problem marker lo zero = inl (refl, λ r a b. absurd (omega arith))
  violation-cases problem marker lo (suc n) =
      let fine : Removable problem marker lo
          → (hi : ℕ) → ((r : ℕ) → suc lo ≤ r → r < hi → Removable problem marker r)
          → (r : ℕ) → lo ≤ r
          → r < hi
          → Removable problem marker r =
        λ here hi rest r a b. elim (Bool-cases (lo == r)) [
          | inl hit ↦ subst (Removable problem marker) (let e : lo ≡ r = ground arith in e) here
          | inr miss ↦ rest r (ground arith) b
        ] in
      let later : violation problem marker lo (suc n) ≡ violation problem marker (suc lo) n
          → Removable problem marker lo
          → ((violation problem marker lo (suc n) ≡ none)
              × ((r : ℕ) → lo ≤ r → r < lo + suc n → Removable problem marker r))
            ⊎ ((i : ℕ) × (violation problem marker lo (suc n) ≡ some i)
                × (lo ≤ i)
                × (i < lo + suc n)
                × ((r : ℕ) → lo ≤ r → r < i → Removable problem marker r)
                × Violated problem marker i) =
        λ same here. elim (violation-cases problem marker (suc lo) n) [
          | inl (e, rest) ↦ inl (same ∙ e, fine here (lo + suc n) (λ r a b. rest r a (omega arith)))
          | inr (i, e, le, lt, rest, bad) ↦
              inr (i, same ∙ e, omega arith, omega arith, fine here i rest, bad)
        ] in
      let choose : Bool → Bool → Option ℕ = λ b c.
        if b
        then violation problem marker (suc lo) n
        else if c
        then violation problem marker (suc lo) n
        else some lo in
      elim (Bool-cases (at marker lo == 0)) [
        | inl stays ↦
            later (ap (λ b. choose b (num.eq (val problem.rhs lo) num.nought)) stays)
              (λ goes. cc (stays, goes))
        | inr goes ↦ elim (Bool-cases (num.eq (val problem.rhs lo) num.nought)) [
          | inl zeroed ↦ later (ap₂ choose goes zeroed) (λ _. zeroed)
          | inr bad ↦ inr (
            lo,
            ap₂ choose goes bad,
            omega arith,
            omega arith,
            λ r a b. absurd (omega arith),
            (goes, bad),
          )
        ]
      ]

  -- For a well-formed matrix in rows, as many as the problem has: `remove_rows` returns the number,
  -- counted from 1, of the first marked row whose right-hand side is not 0, and then the problem is
  -- as it was. If there is none it returns 0, and the problem has the right-hand sides of the rows
  -- that are not marked, in their order, their number, and the matrix of these rows.
  pub remove_rows-violation :
      (problem : LpProblem F) (Arow : Csr F) (marker : List ℕ)
      → IsLayout Arow.m Arow.n (rows Arow)
      → Arow.m ≡ problem.num_rows
      → let js = unmarked marker 0 problem.num_rows in
        remove_rows problem Arow marker ≡ elim (violation problem marker 0 problem.num_rows) [
          | none ↦ (
            0,
            record problem {
              rhs = map (val problem.rhs) js;
              A = to_compressed_col (remove_marked_rows Arow marker no_rows) problem.A;
              num_rows = length js;
            },
          )
          | some i ↦ (suc i, problem)
        ]
  unfolding remove_rows
  remove_rows-violation problem Arow marker h size =
      let n = problem.num_rows in
      let js = unmarked marker 0 n in
      let Aout = remove_marked_rows Arow marker no_rows in
      let A = to_compressed_col Aout problem.A in
      let start = replicate Aout.m num.nought in
      let number : Aout.m ≡ length js =
        (remove_rows-segment Arow no_rows marker h).0
        ∙ ap (λ k. length (unmarked marker 0 k)) size in
      let loop = for_loop-zero n (keep_row problem marker) (kept start 0) in
      elim (violation-cases problem marker 0 n) [
        | inl (e, fine) ↦
            let end = loop ∙ run_stays problem marker 0 n 0 start fine in
            let room : length start ≡ length (map (val problem.rhs) js) =
              length-replicate Aout.m num.nought ∙ number ∙ sym (length-map (val problem.rhs) js) in
            rw (end, e)
              (ap₂
                (λ b k.
                  let r : ℕ × LpProblem F = (0, record problem { rhs = b; A = A; num_rows = k }) in
                  r)
                (write_from_all (map (val problem.rhs) js) start room)
                (to_compressed_col_rows Aout problem.A ∙ number))
        | inr (i, e, le, lt, fine, bad) ↦
            let s = for_loop 0 n (keep_row problem marker) (kept start 0) in
            let stopped : s.status ≡ suc i =
              ap (λ (t : KeptRows F). t.status) loop
              ∙ run-Violated problem marker 0 n i 0 start le lt fine bad in
            let found : suc i == 0 ≡ false = ground arith in rw (stopped, found, e) refl
      ]
