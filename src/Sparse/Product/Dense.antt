-- ===== src/Sparse/Product/Dense.antt =====
-- `multiply` and `add` of cpp/src/dual_simplex/sparse_matrix.cpp against the textbook definitions on
-- dense matrices, for values that obey the laws of a semiring (numbers without rounding).
use nvcuopt.Prelude.{
  ℕ, suc, ◌<◌, ◌≡◌, refl, sym, ap, ap₂, ◌∙◌, List, [], ◌∷◌, ◌++◌, arith, ◌==◌, inl, inr, Bool-cases,
  Bool, true, false, if◌then◌else◌, length,
}
use nvcuopt.Prelude.Num.{Num}
use nvcuopt.Sparse.Matrix.{Csc}
use nvcuopt.Sparse.Layout.{cols, segment, IsLayout}
use nvcuopt.Sparse.Algebra.{
  IsSemiring, cell, coefficient, sum_below, weigh, weigh-sum_below, swap_sums, add_nought,
  cell-append, cell-scaled,
}
use nvcuopt.Sparse.Product.{multiply, add}
use nvcuopt.Sparse.Product.Collect.{add_entry, collect, scaled}
use nvcuopt.Sparse.Product.Multiply.{products, multiply-segment}
use nvcuopt.Sparse.Product.Add.{add-segment}

module _ {F : Type 0} ⦃num : Num F⦄ (laws : IsSemiring num) where
  join :
      (b : Bool) (w v s : F)
      → (if b then num.add (num.add w v) s else s)
        ≡ num.add (if b then num.add w s else s) (if b then num.add v num.nought else num.nought)
  join true w v s =
      ap (num.add (num.add w v)) (sym (add_nought laws s)) ∙ swap_sums laws w v s num.nought
  join false w v s = sym (add_nought laws s)

  cell-add_entry :
      (r k : ℕ) (v : F) (l : List (ℕ × F))
      → cell (add_entry k v l) r ≡ num.add (cell l r) (cell ((k, v) ∷ []) r)
  cell-add_entry r k v [] = sym (laws.nought_add (cell ((k, v) ∷ []) r))
  cell-add_entry r k v ((c, w) ∷ l) = elim (Bool-cases (c == k)) [
    | inl same ↦ let e : c ≡ k = ground arith in rw (same, e) (join (k == r) w v (cell l r))
    | inr other ↦ elim (Bool-cases (c == r)) [
      | inl hit ↦
          rw (other, hit)
            (ap (num.add w) (cell-add_entry r k v l)
              ∙ sym (laws.add_assoc w (cell l r) (cell ((k, v) ∷ []) r)))
      | inr miss ↦ rw (other, miss) (cell-add_entry r k v l)
    ]
  ]

  -- Collecting entries keeps the sums of the rows.
  cell-collect :
      (r : ℕ) (l es : List (ℕ × F)) → cell (collect l es) r ≡ num.add (cell l r) (cell es r)
  cell-collect r l [] = sym (add_nought laws (cell l r))
  cell-collect r l ((k, v) ∷ es) =
      cell-collect r (add_entry k v l) es
      ∙ ap (λ a. num.add a (cell es r)) (cell-add_entry r k v l)
      ∙ laws.add_assoc (cell l r) (cell ((k, v) ∷ []) r) (cell es r)
      ∙ ap (num.add (cell l r)) (sym (cell-append laws r ((k, v) ∷ []) es))

  cell-collected : (r : ℕ) (es : List (ℕ × F)) → cell (collect [] es) r ≡ cell es r
  cell-collected r es = cell-collect r [] es ∙ laws.nought_add (cell es r)

  -- The products of a column of B, as a weighted sum.
  cell-products :
      (A : Csc F) (r : ℕ) (l : List (ℕ × F)) → cell (products A l) r ≡ weigh (coefficient A r) l
  cell-products A r [] = refl
  cell-products A r ((c, b) ∷ l) =
      cell-append laws r (scaled b (segment (cols A) c)) (products A l)
      ∙ ap₂ num.add (cell-scaled laws r b (segment (cols A) c)) (cell-products A r l)

  -- For well-formed matrices A and B that fit, a target with one start more than B has columns, and
  -- values that obey the laws of a semiring, the coefficient of the result of `multiply` in row r and
  -- column j is the sum over k of the coefficient of B in row k and column j times that of A in row r
  -- and column k.
  pub multiply-coefficient :
      (A B C : Csc F)
      → IsLayout A.n A.m (cols A)
      → IsLayout B.n A.n (cols B)
      → length C.col_start ≡ suc B.n
      → (r j : ℕ) → j < B.n
      → coefficient (multiply A B C) r j
        ≡ sum_below A.n (λ k. num.mul (coefficient B k j) (coefficient A r k))
  multiply-coefficient A B C hA hB size r j lt =
      ap (λ l. cell l r) ((multiply-segment A B C hA hB size).1 j lt)
      ∙ cell-collected r (products A (segment (cols B) j))
      ∙ cell-products A r (segment (cols B) j)
      ∙ weigh-sum_below laws (coefficient A r) A.n (segment (cols B) j) (hB.bounded j lt)

  -- For well-formed m × n matrices A and B, a target with n + 1 starts and values that obey the laws of
  -- a semiring, the coefficient of the result of `add` is alpha times that of A plus beta times that
  -- of B.
  pub add-coefficient :
      (A B : Csc F) (alpha beta : F) (C : Csc F)
      → IsLayout B.n A.m (cols A)
      → IsLayout B.n A.m (cols B)
      → length C.col_start ≡ suc B.n
      → (r j : ℕ) → j < B.n
      → coefficient (add A B alpha beta C) r j
        ≡ num.add (num.mul alpha (coefficient A r j)) (num.mul beta (coefficient B r j))
  add-coefficient A B alpha beta C hA hB size r j lt =
      let a = segment (cols A) j in
      let b = segment (cols B) j in
      ap (λ l. cell l r) ((add-segment A B alpha beta C hA hB size).1 j lt)
      ∙ cell-collected r (scaled alpha a ++ scaled beta b)
      ∙ cell-append laws r (scaled alpha a) (scaled beta b)
      ∙ ap₂ num.add (cell-scaled laws r alpha a) (cell-scaled laws r beta b)
