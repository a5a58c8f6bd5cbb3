-- ===== src/Sparse/Product.antt =====
-- `scatter`, `scatter_dense`, `multiply` and `add` of cpp/src/dual_simplex/sparse_matrix.cpp. The
-- status that `multiply` and `add` return is always 0 and is left out.
pub mod Collect
pub mod Scatter
pub mod Filled
pub mod Column
pub mod Multiply
pub mod Add
pub mod Dense
use nvcuopt.Prelude.{ℕ, suc, ◌+◌, ◌*◌, List, ltb, if◌then◌else◌, set, replicate, for_loop}
use nvcuopt.Prelude.Num.{Num}
use nvcuopt.Sparse.Matrix.{Csc, at, val, reallocate}

-- What the loops of `multiply` and `add` change: the marks of the rows, the column in dense form,
-- the result, and the number of its entries.
pub record Work (F : Type 0) : Type 0 where
  pub workspace : List ℕ
  pub x : List F
  pub C : Csc F
  pub nz : ℕ

module _ {F : Type 0} ⦃num : Num F⦄ where
  -- What `scatter` does with the value v at row i.
  unfoldable pub scatter_value : ℕ → ℕ → F → Work F → Work F
  scatter_value mark i v s =
      if ltb (at s.workspace i) mark
      then record {
        workspace = set s.workspace i mark;
        x = set s.x i v;
        C = record s.C { i = set s.C.i s.nz i };
        nz = suc s.nz;
      }
      else record s { x = set s.x i (num.add (val s.x i) v) }

  unfoldable pub scatter : Csc F → ℕ → F → ℕ → Work F → Work F
  unfolding scatter_value
  scatter A j beta mark =
      for_loop (at A.col_start j) (at A.col_start (suc j))
        λ p. scatter_value mark (at A.i p) (num.mul beta (val A.x p))

  -- x <- x + alpha * A(:, j)
  unfoldable pub scatter_dense : Csc F → ℕ → F → List F → List F
  scatter_dense A j alpha x =
      for_loop (at A.col_start j) (at A.col_start (suc j))
        (λ p y. set y (at A.i p) (num.add (val y (at A.i p)) (num.mul alpha (val A.x p)))) x

  -- C.col_start[j] = nz;
  unfoldable pub start_column : ℕ → Work F → Work F
  start_column j s = record s { C = record s.C { col_start = set s.C.col_start j s.nz } }

  -- for (p = C.col_start[j]; p < nz; ++p) C.x[p] = x[C.i[p]];
  unfoldable pub gather : ℕ → Work F → Work F
  gather j s =
      let x' = for_loop (at s.C.col_start j) s.nz (λ p v. set v p (val s.x (at s.C.i p))) s.C.x in
      record s { C = record s.C { x = x' } }

  -- The space for one more column of m rows.
  unfoldable pub grow : ℕ → Work F → Work F
  unfolding reallocate
  grow m s =
      if ltb s.C.nz_max (s.nz + m) then record s { C = reallocate (2 * s.C.nz_max + m) s.C } else s

  -- One round of the outer loop of `multiply`.
  unfoldable pub multiply_column : Csc F → Csc F → ℕ → Work F → Work F
  unfolding scatter start_column gather grow
  multiply_column A B j s = gather j (
      for_loop (at B.col_start j) (at B.col_start (suc j))
        (λ p. scatter A (at B.i p) (val B.x p) (suc j)) (start_column j (grow A.m s)))

  -- The last start, and the space that is not used given back.
  unfoldable pub finish : ℕ → Work F → Csc F
  unfolding reallocate start_column
  finish n s = reallocate s.nz (start_column n s).C

  -- C = A * B
  unfoldable pub multiply : Csc F → Csc F → Csc F → Csc F
  unfolding reallocate multiply_column finish
  multiply A B C =
      let start : Work F = record {
        workspace = replicate A.m 0;
        x = replicate A.m num.nought;
        C = reallocate (A.nz_max + B.nz_max) C;
        nz = 0;
      } in
      finish B.n (for_loop 0 B.n (multiply_column A B) start)

  -- One round of the outer loop of `add`.
  unfoldable pub add_column : Csc F → Csc F → F → F → ℕ → Work F → Work F
  unfolding scatter start_column gather
  add_column A B alpha beta j s =
      gather j (scatter B j beta (suc j) (scatter A j alpha (suc j) (start_column j s)))

  -- C = alpha * A + beta * B
  unfoldable pub add : Csc F → Csc F → F → F → Csc F → Csc F
  unfolding reallocate add_column finish
  add A B alpha beta C =
      let start : Work F = record {
        workspace = replicate A.m 0;
        x = replicate A.m num.nought;
        C = reallocate (at A.col_start B.n + at B.col_start B.n) C;
        nz = 0;
      } in
      finish B.n (for_loop 0 B.n (add_column A B alpha beta) start)
