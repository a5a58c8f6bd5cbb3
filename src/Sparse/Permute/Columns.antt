-- ===== src/Sparse/Permute/Columns.antt =====
-- What the permutations of cpp/src/dual_simplex/sparse_matrix.cpp do to each column.
use mathlib.Core.List.{foldl-map, map-map}
use mathlib.Core.List.{Perm, Permᴰ}
use mathlib.Core.Logic.{∥∥₁_elim}
use native.Mathlib.Nat.{ℕ_set}
use native.Mathlib.Bridge.{le_prop}
use nvcuopt.Prelude.{
  ℕ, zero, suc, ◌+◌, ◌≡◌, refl, sym, ap, ap₂, ◌∙◌, List, map, arith, length, length-map,
  length-resize, length-span, map-get_or-span, get_or-All, All, ◌<◌, ◌≤◌, span,
}
use nvcuopt.Prelude.Num.{Num}
use nvcuopt.Sparse.Matrix.{Csc, at}
use nvcuopt.Sparse.Layout.{cols, segment, entry, width, IsLayout}
use nvcuopt.Sparse.Build.{Built, open_segment, push, push_all, total, total_width, loop-segments}
use nvcuopt.Sparse.Permute.{permute_column, permute_rows, permute_rows_and_cols}

total-permᴰ :
    {F : Type 0} (f : ℕ → List (ℕ × F)) {k l : List ℕ}
    → Permᴰ k l
    → total (map f k) ≡ total (map f l)
total-permᴰ f Permᴰ.nil = refl
total-permᴰ f (Permᴰ.cons e p) = ap₂ ◌+◌ (ap (λ j. length (f j)) e) (total-permᴰ f p)
total-permᴰ f (Permᴰ.swap {a} {b} {a'} {b'} {l} d e) =
    omega (arith, ap (λ j. length (f j)) d, ap (λ j. length (f j)) e)
total-permᴰ f (Permᴰ.trans p q) = total-permᴰ f p ∙ total-permᴰ f q

All-permᴰ : (n : ℕ) {k l : List ℕ} → Permᴰ k l → All (λ j. j < n) l → All (λ j. j < n) k
All-permᴰ n Permᴰ.nil h = tt
All-permᴰ n (Permᴰ.cons e p) h = (rw e h.0, All-permᴰ n p h.1)
All-permᴰ n (Permᴰ.swap {a} {b} {a'} {b'} {l} d e) h = (rw d h.1.0, (rw e h.0, h.1.1))
All-permᴰ n (Permᴰ.trans p q) h = All-permᴰ n p (All-permᴰ n q h)

span-All : (n lo k : ℕ) → lo + k ≤ n → All (λ j. j < n) (span lo k)
span-All n lo zero le = tt
span-All n lo (suc k) le = (omega arith, span-All n (suc lo) k (omega arith))

length-permᴰ : {k l : List ℕ} → Permᴰ k l → length k ≡ length l
length-permᴰ Permᴰ.nil = refl
length-permᴰ (Permᴰ.cons e p) = ap suc (length-permᴰ p)
length-permᴰ (Permᴰ.swap {a} {b} {a'} {b'} {l} d e) = refl
length-permᴰ (Permᴰ.trans p q) = length-permᴰ p ∙ length-permᴰ q

-- A permutation of the positions below n has no other entries.
pub at-perm_lt : (n : ℕ) (q : List ℕ) → Perm q (span 0 n) → (k : ℕ) → k < n → at q k < n
at-perm_lt n q p k lt = ∥∥₁_elim p le_prop (λ d.
    get_or-All (λ j. j < n) 0 q (All-permᴰ n d (span-All n 0 n (omega arith))) k
      (omega (arith, length-permᴰ d, length-span 0 n)))

length-perm : {k l : List ℕ} → Perm k l → length k ≡ length l
length-perm p = ∥∥₁_elim p (ℕ_set _ _) length-permᴰ

-- The number of entries does not depend on the order of the segments.
total-perm :
    {F : Type 0} (f : ℕ → List (ℕ × F)) {k l : List ℕ}
    → Perm k l
    → total (map f k) ≡ total (map f l)
total-perm f p = ∥∥₁_elim p (ℕ_set _ _) (total-permᴰ f)

module _ {F : Type 0} ⦃num : Num F⦄ where
  -- Column j with every row index sent through pinv.
  abbrev pub renamed : List ℕ → Csc F → ℕ → List (ℕ × F)
  renamed pinv A j = map (λ e. (at pinv e.0, e.1)) (segment (cols A) j)

  permute_column_lem :
      (pinv : List ℕ) (A : Csc F) (j : ℕ) (s : Built F)
      → permute_column pinv A j s ≡ push_all (renamed pinv A j) s
  unfolding permute_column
  permute_column_lem pinv A j s = sym (
      foldl-map (λ e. (at pinv e.0, e.1)) (λ (t : Built F) (e : ℕ × F). push e.0 e.1 t)
        (segment (cols A) j) s
      ∙ foldl-map (entry (cols A)) (λ (t : Built F) (e : ℕ × F). push (at pinv e.0) e.1 t)
          (span (at A.col_start j) (width (cols A) j)) s)

  length-renamed :
      (pinv : List ℕ) (A : Csc F) (j : ℕ) → length (renamed pinv A j) ≡ width (cols A) j
  length-renamed pinv A j =
      length-map _ (segment (cols A) j)
      ∙ length-map (entry (cols A)) (span (at A.col_start j) (width (cols A) j))
      ∙ length-span (at A.col_start j) (width (cols A) j)

  -- For a well-formed matrix A and a target with n + 1 starts, column j of the result of
  -- `permute_rows` is column j of A with every row index i replaced by pinv[i].
  pub permute_rows-segment :
      (A : Csc F) (pinv : List ℕ) (C : Csc F)
      → IsLayout A.n A.m (cols A)
      → length C.col_start ≡ suc A.n
      → map (segment (cols (permute_rows A pinv C))) (span 0 A.n)
        ≡ map (renamed pinv A) (span 0 A.n)
  unfolding permute_rows
  permute_rows-segment A pinv C h size =
      let nz = at A.col_start A.n in
      let room : total (map (renamed pinv A) (span 0 A.n)) ≡ nz = omega (
        arith,
        h.first,
        total_width (cols A) (renamed pinv A) 0 A.n A.n (omega arith) h.rising
            (length-renamed pinv A),
      ) in
      loop-segments (renamed pinv A) _ A.n _ (λ j t. permute_column_lem pinv A j (open_segment j t))
        refl (omega arith) (omega (arith, room, length-resize nz 0 C.i))
        (omega (arith, room, length-resize nz num.nought C.x))

  -- For a well-formed matrix A, a target with n + 1 starts and a permutation q of the columns, column
  -- k of the result of `permute_rows_and_cols` is column q[k] of A with every row index i replaced by
  -- pinv[i].
  pub permute_rows_and_cols-segment :
      (A : Csc F) (pinv q : List ℕ) (C : Csc F)
      → IsLayout A.n A.m (cols A)
      → length C.col_start ≡ suc A.n
      → Perm q (span 0 A.n)
      → map (segment (cols (permute_rows_and_cols A pinv q C))) (span 0 A.n)
        ≡ map (λ k. renamed pinv A (at q k)) (span 0 A.n)
  unfolding permute_rows_and_cols
  permute_rows_and_cols-segment A pinv q C h size perm =
      let f = λ (k : ℕ). renamed pinv A (at q k) in
      let nz = at A.col_start A.n in
      let q_size : length q ≡ A.n = length-perm perm ∙ length-span 0 A.n in
      let reads : map f (span 0 A.n) ≡ map (renamed pinv A) q = rw (← q_size) (
        sym (map-map (renamed pinv A) (at q) (span 0 (length q)))
        ∙ ap (map (renamed pinv A)) (map-get_or-span 0 q)) in
      let room : total (map f (span 0 A.n)) ≡ nz = omega (
        arith,
        h.first,
        ap total reads,
        total-perm (renamed pinv A) perm,
        total_width (cols A) (renamed pinv A) 0 A.n A.n (omega arith) h.rising
            (length-renamed pinv A),
      ) in
      loop-segments f _ A.n _ (λ k t. permute_column_lem pinv A (at q k) (open_segment k t)) refl
        (omega arith) (omega (arith, room, length-resize nz 0 C.i))
        (omega (arith, room, length-resize nz num.nought C.x))
