-- ===== src/Triangle/Lower.antt =====
-- Lower triangular matrices, and the loop of cpp/src/dual_simplex/triangle_solve.cpp that takes a
-- column of one away, for values that obey the laws of a field (numbers without rounding).
use nvcuopt.Prelude.{
  ℕ, zero, suc, ◌+◌, ◌-◌, ◌≤◌, ◌<◌, ◌≡◌, ◌≢◌, refl, sym, subst, ap, ◌∙◌, List, [], ◌∷◌, map, foldl,
  arith, ◌==◌, inl, inr, Bool-cases, false, length, length-set, get_or-set_self, get_or-set_ne, set,
  span, All,
}
use nvcuopt.Prelude.Num.{Num}
use nvcuopt.Sparse.Matrix.{Csc, at, val}
use nvcuopt.Sparse.Layout.{cols, segment, entry, width, IsLayout}
use nvcuopt.Sparse.Algebra.{IsSemiring, cell, add_nought}

pub record IsField {F : Type 0} (num : Num F) : Type 0 where
  pub semiring : IsSemiring num
  pub sub_add : (a b : F) → num.add (num.sub a b) b ≡ a
  pub mul_div : (a b : F) → b ≢ num.nought → num.mul b (num.div a b) ≡ a

module _ {F : Type 0} ⦃num : Num F⦄ where
  -- A square matrix whose columns begin with the diagonal, which is not 0, and have their other
  -- entries below it.
  pub record IsLower (L : Csc F) : Type 0 where
    pub layout : IsLayout L.n L.n (cols L)
    pub nonempty : (j : ℕ) → j < L.n → at L.col_start j < at L.col_start (suc j)
    pub diagonal : (j : ℕ) → j < L.n → at L.i (at L.col_start j) ≡ j
    pub nonzero : (j : ℕ) → j < L.n → val L.x (at L.col_start j) ≢ num.nought
    pub below :
        (j p : ℕ) → j < L.n → at L.col_start j < p → p < at L.col_start (suc j) → j < at L.i p

  -- The entries of column j below the diagonal.
  abbrev pub tail : Csc F → ℕ → List (ℕ × F)
  tail L j =
      map (entry (cols L))
        (span (suc (at L.col_start j)) (at L.col_start (suc j) - suc (at L.col_start j)))

  abbrev pub subtract : ℕ → List (ℕ × F) → List F → List F
  subtract j l x = foldl (λ y e. set y e.0 (num.sub (val y e.0) (num.mul e.1 (val y j)))) x l

  tail_below :
      (L : Csc F) (j lo k : ℕ)
      → ((p : ℕ) → lo ≤ p → p < lo + k → j < at L.i p)
      → All (λ e. j < e.0) (map (entry (cols L)) (span lo k))
  tail_below L j lo zero h = tt
  tail_below L j lo (suc k) h = (
    h lo (omega arith) (omega arith),
    tail_below L j (suc lo) k (λ p a b. h p (omega arith) (omega arith)),
  )

  All-both :
      (j n : ℕ) (l : List (ℕ × F))
      → All (λ e. j < e.0) l
      → All (λ e. e.0 < n) l
      → All (λ e. (j < e.0) × (e.0 < n)) l
  All-both j n [] a b = tt
  All-both j n (e ∷ l) a b = ((a.0, b.0), All-both j n l a.1 b.1)

  pub segment-tail :
      (L : Csc F) (j : ℕ)
      → IsLower L
      → j < L.n
      → segment (cols L) j ≡ (j, val L.x (at L.col_start j)) ∷ tail L j
  segment-tail L j h lt =
      let start = at L.col_start j in
      let wide : width (cols L) j ≡ suc (at L.col_start (suc j) - suc start) =
        omega (arith, h.nonempty j lt) in
      rw wide (ap (λ i. (i, val L.x start) ∷ tail L j) (h.diagonal j lt))

  pub tail-All :
      (L : Csc F) (j : ℕ) → IsLower L → j < L.n → All (λ e. (j < e.0) × (e.0 < L.n)) (tail L j)
  tail-All L j h lt =
      let start = at L.col_start j in
      let inside = rw (segment-tail L j h lt) at (h.layout.bounded j lt) in
      All-both j L.n (tail L j)
        (tail_below L j (suc start) (at L.col_start (suc j) - suc start)
          (λ p a b. h.below j p lt (omega arith) (omega arith)))
        inside.1

  -- A row that no entry is in.
  pub cell_none :
      (P : ℕ → Type 0) (r n : ℕ) (l : List (ℕ × F))
      → All (λ e. P e.0 × (e.0 < n)) l
      → ((s : ℕ) → P s → s ≢ r)
      → cell l r ≡ num.nought
  cell_none P r n [] h ne = refl
  cell_none P r n ((c, v) ∷ l) h ne =
      let apart = ne c h.0.0 in
      let miss : c == r ≡ false = ground arith in rw miss (cell_none P r n l h.1 ne)

module _ {F : Type 0} ⦃num : Num F⦄ (laws : IsField num) where
  -- Taking the entries of a column times x[j] away from x: what is left and what was taken make up
  -- what was there.
  pub subtract-val :
      (P : ℕ → Type 0) (j n : ℕ) (l : List (ℕ × F)) (x : List F)
      → All (λ e. P e.0 × (e.0 < n)) l
      → ((s : ℕ) → P s → s ≢ j)
      → length x ≡ n
      → (length (subtract j l x) ≡ n)
        × ((r : ℕ) → ((s : ℕ) → P s → s ≢ r) → val (subtract j l x) r ≡ val x r)
        × ((r : ℕ) → num.add (val (subtract j l x) r) (num.mul (cell l r) (val x j)) ≡ val x r)
  subtract-val P j n [] x h ne size = (
    size,
    λ r le. refl,
    λ r.
        ap (num.add (val x r)) (laws.semiring.nought_mul (val x j))
        ∙ add_nought laws.semiring (val x r),
  )
  subtract-val P j n ((c, v) ∷ l) x h ne size =
      let u = val x j in
      let w = num.sub (val x c) (num.mul v u) in
      let y = set x c w in
      let (len, kept, sums) = subtract-val P j n l y h.1 ne (length-set x c w ∙ size) in
      let mine : val y j ≡ u = get_or-set_ne x c j w num.nought (ne c h.0.0) in
      (
        len,
        λ r none. kept r none ∙ get_or-set_ne x c r w num.nought (none c h.0.0),
        λ r. elim (Bool-cases (c == r)) [
          | inl hit ↦
              let e : c ≡ r = ground arith in
              let put : val y r ≡ w =
                subst (λ t. val y t ≡ w) e
                  (get_or-set_self x c w num.nought (omega (arith, h.0.1))) in
              let taken = num.mul v u in
              let rest = num.mul (cell l r) u in
              let end = val (subtract j l y) r in
              rw hit (
                ap (num.add end)
                  (laws.semiring.add_mul v (cell l r) u ∙ laws.semiring.add_comm taken rest)
                ∙ sym (laws.semiring.add_assoc end rest taken)
                ∙ ap (λ a. num.add a taken)
                    (ap (λ a. num.add end (num.mul (cell l r) a)) (sym mine) ∙ sums r ∙ put)
                ∙ laws.sub_add (val x c) taken
                ∙ ap (val x) e)
          | inr miss ↦ rw miss (
              ap (λ a. num.add (val (subtract j l y) r) (num.mul (cell l r) a)) (sym mine)
              ∙ sums r
              ∙ get_or-set_ne x c r w num.nought (ground arith))
        ],
      )
