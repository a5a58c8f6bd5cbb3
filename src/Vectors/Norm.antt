-- ===== src/Vectors/Norm.antt =====
-- `vector_norm_inf` of cpp/src/dual_simplex/vector_math.cpp (and of sparse_matrix.cpp) finds the
-- largest absolute value. The order of floating-point numbers has the laws of IsStrict, NaN included.
use nvcuopt.Prelude.{
  ℕ, suc, ◌<◌, ◌≡◌, ◌⊎◌, refl, subst, List, arith, ◌==◌, inl, inr, Bool-cases, true, false, length,
  for_loop_inv,
}
use nvcuopt.Prelude.Num.{Num}
use nvcuopt.Sparse.Matrix.{val}
use nvcuopt.Vectors.{larger, vector_norm_inf}

pub record IsStrict {F : Type 0} (num : Num F) : Type 0 where
  pub irreflexive : (a : F) → num.lt a a ≡ false
  pub transitive : (a b c : F) → num.lt a b ≡ true → num.lt b c ≡ true → num.lt a c ≡ true

module _ {F : Type 0} ⦃num : Num F⦄ where
  -- No absolute value before place k is above a, and a is 0 or one of them.
  abbrev pub IsLargest : (F → F) → List F → ℕ → F → Type 0
  IsLargest abs x k a =
      ((r : ℕ) → r < k → num.lt a (abs (val x r)) ≡ false)
      × ((a ≡ num.nought) ⊎ ((r : ℕ) × (r < k) × (a ≡ abs (val x r))))

module _ {F : Type 0} ⦃num : Num F⦄ (order : IsStrict num) where
  pub not_below : (a t u : F) → num.lt a u ≡ false → num.lt a t ≡ true → num.lt t u ≡ false
  not_below a t u miss up = elim (Bool-cases (num.lt t u)) [
    | inl hit ↦ let above = order.transitive a t u up hit in ground arith
    | inr low ↦ low
  ]

  larger-IsLargest :
      (abs : F → F) (x : List F) (k : ℕ) (a : F)
      → IsLargest abs x k a
      → IsLargest abs x (suc k) (larger abs x k a)
  unfolding larger
  larger-IsLargest abs x k a (none, found) =
      let t = abs (val x k) in
      elim (Bool-cases (num.lt a t)) [
        | inl up ↦ rw up (
          (λ r lt. elim (Bool-cases (k == r)) [
            | inl hit ↦
                let e : k ≡ r = ground arith in
                subst (λ q. num.lt t (abs (val x q)) ≡ false) e (order.irreflexive t)
            | inr miss ↦ not_below a t (abs (val x r)) (none r (ground arith)) up
          ]),
          inr (k, omega arith, refl),
        )
        | inr stay ↦ rw stay (
          (λ r lt. elim (Bool-cases (k == r)) [
            | inl hit ↦
                let e : k ≡ r = ground arith in subst (λ q. num.lt a (abs (val x q)) ≡ false) e stay
            | inr miss ↦ none r (ground arith)
          ]),
          elim found [ inl e ↦ inl e | inr (r, low, e) ↦ inr (r, omega arith, e) ],
        )
      ]

  -- For an order that is irreflexive and transitive, whatever std::abs is, no absolute value in the
  -- vector is above the result of `vector_norm_inf`, which is 0 or one of the absolute values.
  pub vector_norm_inf-IsLargest :
      (abs : F → F) (x : List F) → IsLargest abs x (length x) (vector_norm_inf abs x)
  unfolding vector_norm_inf
  vector_norm_inf-IsLargest abs x =
      for_loop_inv (IsLargest abs x) (larger abs x) 0 (length x) (omega arith)
        (λ k a le lt inv. larger-IsLargest abs x k a inv) num.nought
        (λ r lt. absurd (omega arith), inl refl)
