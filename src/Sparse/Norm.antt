-- ===== src/Sparse/Norm.antt =====
-- `norm1` of cpp/src/dual_simplex/sparse_matrix.cpp: the largest sum of absolute values of a column.
use nvcuopt.Prelude.{
  ℕ, suc, ◌<◌, ◌≡◌, ◌⊎◌, refl, subst, arith, ◌==◌, inl, inr, Bool-cases, true, false, for_loop,
  for_loop_inv, if◌then◌else◌,
}
use nvcuopt.Prelude.Num.{Num}
use nvcuopt.Sparse.Matrix.{Csc, at, val}

module _ {F : Type 0} ⦃num : Num F⦄ where
  -- The sum of the absolute values of column j; `abs` is std::abs.
  unfoldable pub column_sum : (F → F) → Csc F → ℕ → F
  column_sum abs A j =
      for_loop (at A.col_start j) (at A.col_start (suc j)) (λ p sum. num.add sum (abs (val A.x p)))
        num.nought

  -- std::max(sum, norm)
  unfoldable pub raise : (F → F) → Csc F → ℕ → F → F
  unfolding column_sum
  raise abs A j norm = let sum = column_sum abs A j in if num.lt sum norm then norm else sum

  unfoldable pub norm1 : (F → F) → Csc F → F
  unfolding raise
  norm1 abs A = for_loop 0 A.n (raise abs A) num.nought

-- An order without incomparable values that are told apart by a third one; NaN is not in it.
pub record IsWeak {F : Type 0} (num : Num F) : Type 0 where
  pub irreflexive : (a : F) → num.lt a a ≡ false
  pub asymmetric : (a b : F) → num.lt a b ≡ true → num.lt b a ≡ false
  pub between : (a b c : F) → num.lt a c ≡ true → (num.lt a b ≡ true) ⊎ (num.lt b c ≡ true)

module _ {F : Type 0} ⦃num : Num F⦄ (order : IsWeak num) where
  not_above : (a b c : F) → num.lt a b ≡ false → num.lt b c ≡ false → num.lt a c ≡ false
  not_above a b c low high = elim (Bool-cases (num.lt a c)) [
    | inl hit ↦ elim (order.between a b c hit) [
      | inl e ↦ absurd (ground arith)
      | inr e ↦ absurd (ground arith)
    ]
    | inr miss ↦ miss
  ]

  -- For a weak order, whatever std::abs is, no column has a sum of absolute values above `norm1`,
  -- which is 0 or the sum of a column.
  pub norm1-column_sum :
      (abs : F → F) (A : Csc F)
      → ((r : ℕ) → r < A.n → num.lt (norm1 abs A) (column_sum abs A r) ≡ false)
        × ((norm1 abs A ≡ num.nought) ⊎ ((r : ℕ) × (r < A.n) × (norm1 abs A ≡ column_sum abs A r)))
  unfolding norm1 raise
  norm1-column_sum abs A =
      for_loop_inv
        (λ k a.
          ((r : ℕ) → r < k → num.lt a (column_sum abs A r) ≡ false)
          × ((a ≡ num.nought) ⊎ ((r : ℕ) × (r < k) × (a ≡ column_sum abs A r))))
        (raise abs A) 0 A.n (omega arith)
        (λ k a from lt inv.
          let sum = column_sum abs A k in
          elim (Bool-cases (num.lt sum a)) [
            | inl keep ↦ rw keep (
              λ r below. elim (Bool-cases (k == r)) [
                | inl hit ↦
                    let e : k ≡ r = ground arith in
                    subst (λ i. num.lt a (column_sum abs A i) ≡ false) e
                      (order.asymmetric sum a keep)
                | inr miss ↦ inv.0 r (ground arith)
              ],
              elim inv.1 [ inl e ↦ inl e | inr (r, below, e) ↦ inr (r, omega arith, e) ],
            )
            | inr up ↦ rw up (
              λ r below. elim (Bool-cases (k == r)) [
                | inl hit ↦
                    let e : k ≡ r = ground arith in
                    subst (λ i. num.lt sum (column_sum abs A i) ≡ false) e (order.irreflexive sum)
                | inr miss ↦ not_above sum a (column_sum abs A r) up (inv.0 r (ground arith))
              ],
              inr (k, omega arith, refl),
            )
          ])
        num.nought (λ r below. absurd (omega arith), inl refl)
