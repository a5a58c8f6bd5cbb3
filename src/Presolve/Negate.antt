-- ===== src/Presolve/Negate.antt =====
-- The loop of `convert_greater_to_less` in cpp/src/dual_simplex/presolve.cpp that changes the sign of
-- the rows with sense 'G'.
use nvcuopt.Prelude.{
  ℕ, zero, suc, ◌+◌, ◌≤◌, ◌<◌, ◌≡◌, refl, List, arith, ◌==◌, true, false, if◌then◌else◌, length,
  set,
}
use nvcuopt.Prelude.Num.{Num}
use nvcuopt.Sparse.Matrix.{Csr, at, val}
use nvcuopt.Sparse.Layout.{Layout, rows, IsLayout}
use nvcuopt.Vectors.Update.{update_range-Updated}
use nvcuopt.Presolve.Problem.{minus_one}
use nvcuopt.Presolve.Convert.{Senses, negate_row, negate_greater_row}

-- The sense of a row after the loop.
abbrev pub lessened : ℕ → ℕ
lessened sense = if sense == b'G' then b'L' else sense

module _ {F : Type 0} ⦃num : Num F⦄ where
  -- A value of a row with this sense after the loop.
  abbrev pub turned : ℕ → F → F
  turned sense v = if sense == b'G' then num.mul v minus_one else v

  -- The starts rise.
  pub start_le :
      (n m : ℕ) (L : Layout F)
      → IsLayout n m L
      → (i k t : ℕ) → i + k ≡ t
      → t ≤ n
      → at L.starts i ≤ at L.starts t
  start_le n m L h i zero t e le = let e' : t ≡ i = omega arith in rw e' (omega arith)
  start_le n m L h i (suc k) t e le =
      let up = h.rising i (omega arith) in
      let rest = start_le n m L h (suc i) k t (omega arith) le in omega arith

  -- The entries of row i change their sign, the others stay.
  pub negate_row_lem :
      (A : Csr F) (i : ℕ) (x : List F)
      → at A.row_start i ≤ at A.row_start (suc i)
      → at A.row_start (suc i) ≤ length x
      → let y = negate_row A i x in
        (length y ≡ length x)
        × ((p : ℕ)
            → at A.row_start i ≤ p
            → p < at A.row_start (suc i)
            → val y p ≡ num.mul (val x p) minus_one)
        × ((p : ℕ) → p < at A.row_start i → val y p ≡ val x p)
        × ((p : ℕ) → at A.row_start (suc i) ≤ p → val y p ≡ val x p)
  unfolding negate_row
  negate_row_lem A i x le room =
      let up =
        update_range-Updated num.nought (λ p a. num.mul a minus_one) (at A.row_start i)
          (at A.row_start (suc i)) x le room in
      (up.size, up.done, up.before, up.after)

  -- What is done when the loop comes to row i.
  pub record Turned (A : Csr F) (x0 rhs0 : List F) (c0 : Senses) (i : ℕ)
      (s : List F × List F × Senses) : Type 0 where
    pub x_size : length s.0 ≡ length x0
    pub x_done :
        (r p : ℕ)
        → r < i
        → at A.row_start r ≤ p
        → p < at A.row_start (suc r)
        → val s.0 p ≡ turned (at c0.row_sense r) (val x0 p)
    pub x_later : (p : ℕ) → at A.row_start i ≤ p → val s.0 p ≡ val x0 p
    pub rhs_size : length s.1 ≡ length rhs0
    pub rhs_done : (r : ℕ) → r < i → val s.1 r ≡ turned (at c0.row_sense r) (val rhs0 r)
    pub rhs_later : (r : ℕ) → i ≤ r → val s.1 r ≡ val rhs0 r
    pub sense_size : length s.2.row_sense ≡ length c0.row_sense
    pub sense_done : (r : ℕ) → r < i → at s.2.row_sense r ≡ lessened (at c0.row_sense r)
    pub sense_later : (r : ℕ) → i ≤ r → at s.2.row_sense r ≡ at c0.row_sense r

  -- The arrays have room for the rows.
  pub record HasRoom (A : Csr F) (x rhs : List F) (c : Senses) (n : ℕ) : Type 0 where
    pub layout : IsLayout n A.n (rows A)
    pub values : at A.row_start n ≤ length x
    pub sides : n ≤ length rhs
    pub senses : n ≤ length c.row_sense

  pub negate_greater_row_hit :
      (A : Csr F) (i : ℕ) (x rhs : List F) (c : Senses)
      → at c.row_sense i ≡ b'G'
      → let t = negate_greater_row A i (x, rhs, c) in
        (t.0 ≡ negate_row A i x)
        × (t.1 ≡ set rhs i (num.mul (val rhs i) minus_one))
        × (t.2.row_sense ≡ set c.row_sense i b'L')
  unfolding negate_greater_row
  negate_greater_row_hit A i x rhs c e =
      let hit : at c.row_sense i == b'G' ≡ true = ground arith in rw hit (refl, refl, refl)

  pub negate_greater_row_miss :
      (A : Csr F) (i : ℕ) (x rhs : List F) (c : Senses)
      → at c.row_sense i == b'G' ≡ false
      → negate_greater_row A i (x, rhs, c) ≡ (x, rhs, c)
  unfolding negate_greater_row
  negate_greater_row_miss A i x rhs c miss = rw miss
