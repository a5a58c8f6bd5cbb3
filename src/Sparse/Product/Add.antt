-- ===== src/Sparse/Product/Add.antt =====
-- `add` of cpp/src/dual_simplex/sparse_matrix.cpp.
use mathlib.Core.List.{foldl-append}
use nvcuopt.Prelude.{
  ℕ, zero, suc, ◌+◌, ◌≤◌, ◌<◌, ◌≡◌, refl, sym, ap, ◌∙◌, List, [], ◌∷◌, ◌++◌, arith, length,
  length-map, All, All-append, for_loop, for_loop_inv, subst, replicate, ◌-◌,
}
use nvcuopt.Prelude.Num.{Num}
use nvcuopt.Sparse.Matrix.{Csc, at, reallocate}
use nvcuopt.Sparse.Layout.{Layout, cols, segment, IsLayout}
use nvcuopt.Sparse.Remove.Columns.{length-segment}
use nvcuopt.Sparse.Product.{Work, scatter, gather, start_column, add_column, add}
use nvcuopt.Sparse.Product.Collect.{add_entry, collect, scaled, All-collect, All-scaled}
use nvcuopt.Sparse.Product.Scatter.{scatter_lem}
use nvcuopt.Sparse.Product.Filled.{before, Filled-finish}
use nvcuopt.Sparse.Product.Column.{scatter_all, Ready, Ready-column, Ready-start}

module _ {F : Type 0} ⦃num : Num F⦄ where
  length-add_entry : (r : ℕ) (v : F) (l : List (ℕ × F)) → length (add_entry r v l) ≤ suc (length l)
  length-add_entry r v [] = omega arith
  length-add_entry r v ((c, w) ∷ l) = ground (arith, length-add_entry r v l)

  length-collect : (l es : List (ℕ × F)) → length (collect l es) ≤ length l + length es
  length-collect l [] = omega arith
  length-collect l ((r, v) ∷ es) =
      omega (arith, length-collect (add_entry r v l) es, length-add_entry r v l)

  length-append : (k l : List (ℕ × F)) → length (k ++ l) ≡ length k + length l
  length-append [] l = omega arith
  length-append (e ∷ k) l = omega (arith, length-append k l)

  starts_le :
      (n m j k : ℕ) (L : Layout F) → IsLayout n m L → j + k ≡ n → at L.starts j ≤ at L.starts n
  starts_le n m j zero L h e = let e' : n ≡ j = omega arith in rw e' (omega arith)
  starts_le n m j (suc k) L h e =
      omega (arith, h.rising j (omega arith), starts_le n m (suc j) k L h (omega arith))

  -- The entries of column j of both matrices, each times its factor.
  abbrev pub terms : Csc F → Csc F → F → F → ℕ → List (ℕ × F)
  terms A B alpha beta j = scaled alpha (segment (cols A) j) ++ scaled beta (segment (cols B) j)

  -- Column j of the sum.
  abbrev pub sum : Csc F → Csc F → F → F → ℕ → List (ℕ × F)
  sum A B alpha beta j = collect [] (terms A B alpha beta j)

  -- The columns before j of the sum have no more entries than those of both matrices.
  before_bound :
      (A B : Csc F) (alpha beta : F) (n m j : ℕ)
      → IsLayout n m (cols A)
      → IsLayout n m (cols B)
      → j ≤ n
      → before (sum A B alpha beta) j ≤ at A.col_start j + at B.col_start j
  before_bound A B alpha beta n m zero hA hB le = omega arith
  before_bound A B alpha beta n m (suc j) hA hB le =
      let up = before_bound A B alpha beta n m j hA hB (omega arith) in
      let a = segment (cols A) j in
      let b = segment (cols B) j in
      omega (
        arith,
        up,
        length-collect [] (terms A B alpha beta j),
        length-append (scaled alpha a) (scaled beta b),
        length-map {B = ℕ × F} (λ e. (e.0, num.mul alpha e.1)) a,
        length-map {B = ℕ × F} (λ e. (e.0, num.mul beta e.1)) b,
        length-segment (cols A) j,
        length-segment (cols B) j,
        hA.rising j le,
        hB.rising j le,
      )

  All-terms :
      (A B : Csc F) (alpha beta : F) (n m j : ℕ)
      → IsLayout n m (cols A)
      → IsLayout n m (cols B)
      → j < n
      → All (λ e. e.0 < m) (terms A B alpha beta j)
  All-terms A B alpha beta n m j hA hB lt =
      All-append (λ (e : ℕ × F). e.0 < m) (scaled alpha (segment (cols A) j)) _
        (All-scaled m alpha _ (hA.bounded j lt)) (All-scaled m beta _ (hB.bounded j lt))

  add_column_lem :
      (A B : Csc F) (alpha beta : F) (j : ℕ) (s : Work F)
      → add_column A B alpha beta j s
        ≡ gather j (scatter_all (suc j) (terms A B alpha beta j) (start_column j s))
  unfolding add_column
  add_column_lem A B alpha beta j s =
      let s0 = start_column j s in
      ap (gather j) (
        scatter_lem B j beta (suc j) (scatter A j alpha (suc j) s0)
        ∙ ap (scatter_all (suc j) (scaled beta (segment (cols B) j)))
            (scatter_lem A j alpha (suc j) s0)
        ∙ sym (foldl-append _ s0 (scaled alpha (segment (cols A) j)) _))

  -- For well-formed m × n matrices A and B and a target with n + 1 starts, whatever else it held, the
  -- result of `add` is well-formed, and its column j collects, row by row, the entries of column j
  -- of A times alpha and of column j of B times beta.
  pub add-segment :
      (A B : Csc F) (alpha beta : F) (C : Csc F)
      → IsLayout B.n A.m (cols A)
      → IsLayout B.n A.m (cols B)
      → length C.col_start ≡ suc B.n
      → let R = add A B alpha beta C in
        IsLayout B.n A.m (cols R) × ((j : ℕ) → j < B.n → segment (cols R) j ≡ sum A B alpha beta j)
  add-segment A B alpha beta C hA hB size =
      let n = B.n in
      let f = sum A B alpha beta in
      let space = at A.col_start n + at B.col_start n in
      let Kept : ℕ → Work F → Type 0 = λ j s. Ready f n A.m j s × (s.C.nz_max ≡ space) in
      let start : Work F = record {
        workspace = replicate A.m 0;
        x = replicate A.m num.nought;
        C = reallocate space C;
        nz = 0;
      } in
      let end =
        for_loop_inv Kept (add_column A B alpha beta) 0 n (omega arith)
          (λ j s _ lt h.
            let rows = All-terms A B alpha beta n A.m j hA hB lt in
            let enough : s.nz + length (f j) ≤ s.C.nz_max = omega (
              arith,
              h.1,
              h.0.filled.end,
              before_bound A B alpha beta n A.m (suc j) hA hB lt,
              starts_le n A.m (suc j) (n - suc j) (cols A) hA (omega arith),
              starts_le n A.m (suc j) (n - suc j) (cols B) hB (omega arith),
            ) in
            let (ready, same) =
              Ready-column f n A.m j (terms A B alpha beta j) s h.0 lt rows refl enough in
            subst (Kept (suc j)) (sym (add_column_lem A B alpha beta j s)) (ready, same ∙ h.1))
          start (Ready-start f n A.m space C size, unfold reallocate in refl) in
      unfold add in
      Filled-finish f n A.m (for_loop 0 n (add_column A B alpha beta) start) end.0.filled (λ j lt.
        All-collect A.m [] (terms A B alpha beta j) tt (All-terms A B alpha beta n A.m j hA hB lt))
