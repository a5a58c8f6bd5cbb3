-- ===== src/Sparse/Matrix.antt =====
-- The layouts csc_matrix_t and csr_matrix_t of cpp/src/dual_simplex/sparse_matrix.hpp, and
-- `reallocate`, `cumulative_sum` and the counting and placing loops of sparse_matrix.cpp.
-- Indices are natural numbers; `f_t` is any type with the operations `Num`.
use nvcuopt.Prelude.{ℕ, suc, ◌+◌, List, length, get_or, set, resize, replicate, for_loop}
use nvcuopt.Prelude.Num.{Num}

pub record Csc (F : Type 0) : Type 0 where
  pub nz_max : ℕ
  pub m : ℕ
  pub n : ℕ
  pub col_start : List ℕ
  pub i : List ℕ
  pub x : List F

pub record Csr (F : Type 0) : Type 0 where
  pub nz_max : ℕ
  pub m : ℕ
  pub n : ℕ
  pub row_start : List ℕ
  pub j : List ℕ
  pub x : List F

-- An index vector read at a position.
abbrev pub at : List ℕ → ℕ → ℕ
at v k = get_or v k 0

pub record Sums : Type 0 where
  pub inout : List ℕ
  pub output : List ℕ
  pub nz : ℕ

-- One round of the loop in `cumulative_sum`.
unfoldable pub cumulate : ℕ → Sums → Sums
cumulate i s =
    let output' = set s.output i s.nz in
    record { inout = set s.inout i (at output' i); output = output'; nz = s.nz + at s.inout i }

unfoldable pub cumulative_sum : List ℕ → List ℕ → Sums
unfolding cumulate
cumulative_sum inout output =
    let n = length inout in
    let s = for_loop 0 n cumulate (record { inout = inout; output = output; nz = 0 }) in
    record s { output = set s.output n s.nz }

-- `workspace[k]++`
abbrev pub increment : ℕ → List ℕ → List ℕ
increment k workspace = set workspace k (suc (at workspace k))

-- for (p = 0; p < nz; ++p) workspace[keys[p]]++;
unfoldable pub count_keys : ℕ → List ℕ → List ℕ → List ℕ
count_keys nz keys workspace = for_loop 0 nz (λ p w. increment (at keys p) w) workspace

-- What the placing loops write: the next free positions, and the two arrays of the result.
pub record Placed (F : Type 0) : Type 0 where
  pub workspace : List ℕ
  pub index : List ℕ
  pub value : List F

module _ {F : Type 0} where
  -- q = workspace[key]++; index[q] = c; value[q] = v;
  unfoldable pub place : ℕ → ℕ → F → Placed F → Placed F
  place key c v s =
      let q = at s.workspace key in
      record {
        workspace = increment key s.workspace;
        index = set s.index q c;
        value = set s.value q v;
      }

module _ {F : Type 0} ⦃num : Num F⦄ where
  -- An entry of a value vector, at a position.
  abbrev pub val : List F → ℕ → F
  val v k = get_or v k num.nought

  unfoldable pub reallocate : ℕ → Csc F → Csc F
  reallocate new_nz A = record A {
    nz_max = new_nz;
    i = resize new_nz 0 A.i;
    x = resize new_nz num.nought A.x;
  }

  -- csc_matrix_t(rows, cols, nz)
  unfoldable pub new_matrix : ℕ → ℕ → ℕ → Csc F
  new_matrix rows cols nz = record {
    nz_max = nz;
    m = rows;
    n = cols;
    col_start = replicate (suc cols) 0;
    i = replicate nz 0;
    x = replicate nz num.nought;
  }
