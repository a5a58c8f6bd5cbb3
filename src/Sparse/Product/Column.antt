-- ===== src/Sparse/Product/Column.antt =====
-- One column of a result of `multiply` or `add` (cpp/src/dual_simplex/sparse_matrix.cpp), from
-- C.col_start[j] = nz to the loop that writes C.x.
use nvcuopt.Prelude.{
  ℕ, suc, ◌+◌, ◌≤◌, ◌<◌, ◌≡◌, refl, sym, subst, ap, List, [], foldl, arith, length, get_or-set_self,
  All, get_or-replicate, length-replicate, length-resize, replicate, for_loop, for_loop_inv,
}
use nvcuopt.Prelude.Num.{Num}
use nvcuopt.Sparse.Matrix.{Csc, at, reallocate}
use nvcuopt.Sparse.Layout.{cols, segment, IsLayout}
use nvcuopt.Sparse.Product.{Work, scatter_value, gather, start_column, finish}
use nvcuopt.Sparse.Product.Collect.{collect}
use nvcuopt.Sparse.Product.Scatter.{Going, Going-fresh, Going-collect, Going-length}
use nvcuopt.Sparse.Product.Filled.{Filled, Filled-column, Filled-finish, gather_lem, with_column}

module _ {F : Type 0} ⦃num : Num F⦄ where
  abbrev pub scatter_all : ℕ → List (ℕ × F) → Work F → Work F
  scatter_all mark es s = foldl (λ t e. scatter_value mark e.0 e.1 t) s es

  -- The columns before j are finished, and no mark is above j.
  pub record Ready (f : ℕ → List (ℕ × F)) (n m j : ℕ) (s : Work F) : Type 0 where
    pub filled : Filled f n j s.C s.nz
    pub low : (r : ℕ) → at s.workspace r ≤ j
    pub sizes : (length s.workspace ≡ m) × (length s.x ≡ m)

  Going-column :
      (f : ℕ → List (ℕ × F)) (n m j : ℕ) (es : List (ℕ × F)) (s : Work F)
      → Ready f n m j s
      → All (λ e. e.0 < m) es
      → let s0 = start_column j s in
        Going s.nz (suc j) m s0.C (collect [] es) (scatter_all (suc j) es s0)
  unfolding start_column
  Going-column f n m j es s h rows =
      let s0 = start_column j s in
      Going-collect s.nz (suc j) m s0.C es [] s0 (omega arith) rows
        (Going-fresh (suc j) m s0 (λ r. omega (arith, h.low r)) h.sizes.0 h.sizes.1)

  -- A column has no more entries than rows.
  pub Ready-length :
      (f : ℕ → List (ℕ × F)) (n m j : ℕ) (es : List (ℕ × F)) (s : Work F)
      → Ready f n m j s
      → All (λ e. e.0 < m) es
      → length (collect [] es) ≤ m
  Ready-length f n m j es s h rows = Going-length _ _ m _ _ _ (Going-column f n m j es s h rows)

  pub Ready-column :
      (f : ℕ → List (ℕ × F)) (n m j : ℕ) (es : List (ℕ × F)) (s : Work F)
      → Ready f n m j s
      → j < n
      → All (λ e. e.0 < m) es
      → f j ≡ collect [] es
      → s.nz + length (f j) ≤ s.C.nz_max
      → let t = gather j (scatter_all (suc j) es (start_column j s)) in
        Ready f n m (suc j) t × (t.C.nz_max ≡ s.C.nz_max)
  Ready-column f n m j es s h lt rows e room =
      let g = Going-column f n m j es s h rows in
      let l = collect [] es in
      let t = scatter_all (suc j) es (start_column j s) in
      let started : at (start_column j s).C.col_start j ≡ s.nz =
        unfold start_column in
        get_or-set_self s.C.col_start j s.nz 0 (omega (arith, h.filled.starts_size)) in
      let space : s.nz + length l ≤ length (start_column j s).C.i =
        unfold start_column in omega (arith, ap length e, h.filled.index_size) in
      let written : gather j t ≡ record t { C = with_column j s.nz l s.C } =
        unfold start_column in
        gather_lem s.nz (suc j) m j (start_column j s).C l t g started space in
      subst (λ t. Ready f n m (suc j) t × (t.C.nz_max ≡ s.C.nz_max)) (sym written)
        (
          record {
            filled =
                subst (Filled f n (suc j) (with_column j s.nz l s.C)) (sym g.nz)
                  (rw e at (Filled-column f n j s.C s.nz lt room h.filled));
            low = g.below;
            sizes = g.sizes;
          },
          refl,
        )

  -- Before the first column.
  pub Ready-start :
      (f : ℕ → List (ℕ × F)) (n m k : ℕ) (C : Csc F)
      → length C.col_start ≡ suc n
      → Ready f n m 0 record {
        workspace = replicate m 0;
        x = replicate m num.nought;
        C = reallocate k C;
        nz = 0;
      }
  unfolding reallocate
  Ready-start f n m k C size = record {
    filled = record {
      end = refl;
      starts = λ t lt. absurd (omega arith);
      columns = λ t lt. absurd (omega arith);
      starts_size = size;
      index_size = length-resize k 0 C.i;
      value_size = length-resize k num.nought C.x;
      full = omega arith;
    };
    low = λ r. let e = get_or-replicate {A = ℕ} m 0 r in omega (arith, e);
    sizes = (length-replicate {A = ℕ} m 0, length-replicate m num.nought);
  }

  -- A loop whose rounds finish a column each finishes all.
  pub Ready-loop :
      (f : ℕ → List (ℕ × F)) (n m : ℕ) (body : ℕ → Work F → Work F) (s : Work F)
      → ((j : ℕ) (t : Work F) → j < n → Ready f n m j t → Ready f n m (suc j) (body j t))
      → ((j : ℕ) → j < n → All (λ e. e.0 < m) (f j))
      → Ready f n m 0 s
      → let R = finish n (for_loop 0 n body s) in
        IsLayout n m (cols R) × ((j : ℕ) → j < n → segment (cols R) j ≡ f j)
  Ready-loop f n m body s keep rows h =
      let end = for_loop_inv (Ready f n m) body 0 n (omega arith) (λ j t _ lt. keep j t lt) s h in
      Filled-finish f n m (for_loop 0 n body s) end.filled rows
