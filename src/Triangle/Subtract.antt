-- ===== src/Triangle/Subtract.antt =====
-- The loop of the transposed solves of cpp/src/dual_simplex/triangle_solve.cpp that subtracts products
-- from x[j].
use nvcuopt.Prelude.{
  ℕ, ◌<◌, ◌≡◌, ◌≢◌, refl, sym, ap, ap₂, ◌∙◌, List, [], ◌∷◌, foldl, arith, length, length-set,
  get_or-set_self, get_or-set_ne, set, All,
}
use nvcuopt.Prelude.Num.{Num}
use nvcuopt.Sparse.Matrix.{val}
use nvcuopt.Sparse.Algebra.{weigh, add_nought}
use nvcuopt.Triangle.Lower.{IsField}

module _ {F : Type 0} ⦃num : Num F⦄ where
  -- The entries l times the values at their rows taken from x[j].
  abbrev pub subtract_all : ℕ → List (ℕ × F) → List F → List F
  subtract_all j l x = foldl (λ y e. set y j (num.sub (val y j) (num.mul e.1 (val y e.0)))) x l

  -- Only the rows of the entries count.
  pub weigh_congr :
      (P : ℕ → Type 0) (g h : ℕ → F) (l : List (ℕ × F))
      → All (λ e. P e.0) l
      → ((r : ℕ) → P r → g r ≡ h r)
      → weigh g l ≡ weigh h l
  weigh_congr P g h [] rows same = refl
  weigh_congr P g h ((c, v) ∷ l) rows same =
      ap₂ num.add (ap (num.mul v) (same c rows.0)) (weigh_congr P g h l rows.1 same)

module _ {F : Type 0} ⦃num : Num F⦄ (laws : IsField num) where
  -- What was taken from x[j] and what is left make up what was there.
  pub subtract_all-val :
      (P : ℕ → Type 0) (j n : ℕ) (l : List (ℕ × F)) (x : List F)
      → All (λ e. P e.0) l
      → ((r : ℕ) → P r → j ≢ r)
      → j < n
      → length x ≡ n
      → (length (subtract_all j l x) ≡ n)
        × ((r : ℕ) → j ≢ r → val (subtract_all j l x) r ≡ val x r)
        × (num.add (val (subtract_all j l x) j) (weigh (val x) l) ≡ val x j)
  subtract_all-val P j n [] x h ne lt size =
      (size, λ r ne. refl, add_nought laws.semiring (val x j))
  subtract_all-val P j n ((c, v) ∷ l) x h ne lt size =
      let term = num.mul v (val x c) in
      let w = num.sub (val x j) term in
      let y = set x j w in
      let (len, kept, sums) = subtract_all-val P j n l y h.1 ne lt (length-set x j w ∙ size) in
      let end = val (subtract_all j l y) j in
      let apart : (r : ℕ) → j ≢ r → val y r ≡ val x r =
        λ r ne. get_or-set_ne x j r w num.nought ne in
      let same : weigh (val x) l ≡ weigh (val y) l =
        weigh_congr P (val x) (val y) l h.1 (λ r pr. sym (apart r (ne r pr))) in
      (
        len,
        λ r ne. kept r ne ∙ apart r ne,
        ap (λ a. num.add end (num.add term a)) same
            ∙ ap (num.add end) (laws.semiring.add_comm term (weigh (val y) l))
            ∙ sym (laws.semiring.add_assoc end (weigh (val y) l) term)
            ∙ ap (λ a. num.add a term)
                (sums ∙ get_or-set_self x j w num.nought (omega (arith, size)))
            ∙ laws.sub_add (val x j) term,
      )
