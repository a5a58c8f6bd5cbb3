-- ===== src/Sparse/Algebra.antt =====
-- The textbook view of the matrices of cpp/src/dual_simplex/sparse_matrix.hpp: coefficients and sums,
-- for values that obey the laws of a semiring (numbers without rounding).
use nvcuopt.Prelude.{
  ℕ, zero, suc, ◌<◌, ◌≡◌, refl, sym, ap, ap₂, ◌∙◌, List, [], ◌∷◌, ◌++◌, arith, ◌==◌, inl, inr,
  Bool-cases, if◌then◌else◌, true, All,
}
use native.Mathlib.Nat.{mul-add, add-mul}
use nvcuopt.Prelude.{==_iff}
use nvcuopt.Prelude.Num.{Num, nat_num, mod_two}
use nvcuopt.Sparse.Matrix.{Csc}
use nvcuopt.Sparse.Layout.{cols, segment}
use nvcuopt.Sparse.Product.Collect.{scaled}

pub record IsSemiring {F : Type 0} (num : Num F) : Type 0 where
  pub add_assoc : (a b c : F) → num.add (num.add a b) c ≡ num.add a (num.add b c)
  pub add_comm : (a b : F) → num.add a b ≡ num.add b a
  pub nought_add : (a : F) → num.add num.nought a ≡ a
  pub mul_add : (a b c : F) → num.mul a (num.add b c) ≡ num.add (num.mul a b) (num.mul a c)
  pub add_mul : (a b c : F) → num.mul (num.add a b) c ≡ num.add (num.mul a c) (num.mul b c)
  pub mul_nought : (a : F) → num.mul a num.nought ≡ num.nought
  pub nought_mul : (a : F) → num.mul num.nought a ≡ num.nought
  pub mul_one : (a : F) → num.mul a num.one ≡ a
  pub eq_sound : (a b : F) → num.eq a b ≡ true → a ≡ b

module _ {F : Type 0} ⦃num : Num F⦄ where
  -- The sum of the values at row r.
  abbrev pub cell : List (ℕ × F) → ℕ → F
  cell [] r = num.nought
  cell ((c, v) ∷ l) r = if c == r then num.add v (cell l r) else cell l r

  -- The coefficient in row r and column j.
  abbrev pub coefficient : Csc F → ℕ → ℕ → F
  coefficient A r j = cell (segment (cols A) j) r

  -- h 0 + ... + h (n - 1)
  abbrev pub sum_below : ℕ → (ℕ → F) → F
  sum_below zero h = num.nought
  sum_below (suc n) h = num.add (sum_below n h) (h n)

  -- Each value times what g says of its row, added up.
  abbrev pub weigh : (ℕ → F) → List (ℕ × F) → F
  weigh g [] = num.nought
  weigh g ((k, b) ∷ l) = num.add (num.mul b (g k)) (weigh g l)

module _ {F : Type 0} ⦃num : Num F⦄ (laws : IsSemiring num) where
  pub swap_sums :
      (a b c d : F) → num.add (num.add a b) (num.add c d) ≡ num.add (num.add a c) (num.add b d)
  swap_sums a b c d = cc (
    laws.add_assoc a b (num.add c d),
    laws.add_assoc b c d,
    laws.add_comm b c,
    laws.add_assoc c b d,
    laws.add_assoc a c (num.add b d),
  )

  pub add_nought : (a : F) → num.add a num.nought ≡ a
  add_nought a = laws.add_comm a num.nought ∙ laws.nought_add a

  pub cell-append : (r : ℕ) (k l : List (ℕ × F)) → cell (k ++ l) r ≡ num.add (cell k r) (cell l r)
  cell-append r [] l = sym (laws.nought_add (cell l r))
  cell-append r ((c, v) ∷ k) l = elim (Bool-cases (c == r)) [
    | inl hit ↦
        rw hit (ap (num.add v) (cell-append r k l) ∙ sym (laws.add_assoc v (cell k r) (cell l r)))
    | inr miss ↦ rw miss (cell-append r k l)
  ]

  pub cell-scaled : (r : ℕ) (b : F) (l : List (ℕ × F)) → cell (scaled b l) r ≡ num.mul b (cell l r)
  cell-scaled r b [] = sym (laws.mul_nought b)
  cell-scaled r b ((c, v) ∷ l) = elim (Bool-cases (c == r)) [
    | inl hit ↦
        rw hit (ap (num.add (num.mul b v)) (cell-scaled r b l) ∙ sym (laws.mul_add b v (cell l r)))
    | inr miss ↦ rw miss (cell-scaled r b l)
  ]

  pub sum_below-add :
      (n : ℕ) (g h : ℕ → F)
      → sum_below n (λ k. num.add (g k) (h k)) ≡ num.add (sum_below n g) (sum_below n h)
  sum_below-add zero g h = sym (laws.nought_add num.nought)
  sum_below-add (suc n) g h =
      ap (λ a. num.add a (num.add (g n) (h n))) (sum_below-add n g h)
      ∙ swap_sums (sum_below n g) (sum_below n h) (g n) (h n)

  pub sum_below_congr :
      (n : ℕ) (g h : ℕ → F) → ((k : ℕ) → k < n → g k ≡ h k) → sum_below n g ≡ sum_below n h
  sum_below_congr zero g h e = refl
  sum_below_congr (suc n) g h e =
      ap₂ num.add (sum_below_congr n g h (λ k lt. e k (omega arith))) (e n (omega arith))

  pub sum_below_nought :
      (n : ℕ) (h : ℕ → F) → ((k : ℕ) → k < n → h k ≡ num.nought) → sum_below n h ≡ num.nought
  sum_below_nought zero h e = refl
  sum_below_nought (suc n) h e =
      ap₂ num.add (sum_below_nought n h (λ k lt. e k (omega arith))) (e n (omega arith))
      ∙ laws.nought_add num.nought

  -- One term of a sum.
  pub sum_below_single :
      (n c : ℕ) (u : F) → c < n → sum_below n (λ k. if c == k then u else num.nought) ≡ u
  sum_below_single zero c u lt = absurd (omega arith)
  sum_below_single (suc n) c u lt = elim (Bool-cases (c == n)) [
    | inl hit ↦
        ap₂ num.add
          (sum_below_nought n (λ k. if c == k then u else num.nought) (λ k below. ground arith))
          (ap (λ b. if b then u else num.nought) hit)
        ∙ laws.nought_add u
    | inr miss ↦
        ap₂ num.add (sum_below_single n c u (ground arith))
          (ap (λ b. if b then u else num.nought) miss)
        ∙ add_nought u
  ]

  -- A weighted sum over the entries of a column is one over all rows.
  pub weigh-sum_below :
      (g : ℕ → F) (n : ℕ) (l : List (ℕ × F))
      → All (λ e. e.0 < n) l
      → weigh g l ≡ sum_below n (λ k. num.mul (cell l k) (g k))
  weigh-sum_below g n [] h = sym (sum_below_nought n _ (λ k lt. laws.nought_mul (g k)))
  weigh-sum_below g n ((c, b) ∷ l) h =
      ap₂ num.add (sym (sum_below_single n c (num.mul b (g c)) h.0)) (weigh-sum_below g n l h.1)
      ∙ sym (sum_below-add n (λ k. if c == k then num.mul b (g c) else num.nought) _)
      ∙ sum_below_congr n _ _ (λ k lt. term k)
    where
      term :
          (k : ℕ)
          → num.add (if c == k then num.mul b (g c) else num.nought) (num.mul (cell l k) (g k))
            ≡ num.mul (cell ((c, b) ∷ l) k) (g k)
      term k = elim (Bool-cases (c == k)) [
        | inl hit ↦
            let e : c ≡ k = ground arith in rw (hit, e) (sym (laws.add_mul b (cell l k) (g k)))
        | inr miss ↦ rw miss (laws.nought_add _)
      ]

-- The natural numbers, for the tests.
pub nat_num-IsSemiring : IsSemiring nat_num
nat_num-IsSemiring = record {
  add_assoc = λ a b c. omega arith;
  add_comm = λ a b. omega arith;
  nought_add = λ a. omega arith;
  mul_add = mul-add;
  add_mul = add-mul;
  mul_nought = λ a. omega arith;
  nought_mul = λ a. omega arith;
  mul_one = λ a. omega arith;
  eq_sound = λ a b h. (==_iff a b).0 h;
}

pub mod_two-IsSemiring : IsSemiring mod_two
mod_two-IsSemiring = record {
  add_assoc = λ a b c. ground arith;
  add_comm = λ a b. ground arith;
  nought_add = λ a. refl;
  mul_add = λ a b c. ground arith;
  add_mul = λ a b c. ground arith;
  mul_nought = λ a. ground arith;
  nought_mul = λ a. refl;
  mul_one = λ a. ground arith;
  eq_sound = λ a b e. ground arith;
}
