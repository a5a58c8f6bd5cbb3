-- ===== src/Sparse/Product/Collect.antt =====
-- What `scatter` of cpp/src/dual_simplex/sparse_matrix.cpp makes of a list of entries: one entry for
-- each row, in the order in which the rows are first seen, with the sum of the values of the row.
use nvcuopt.Prelude.{
  ℕ, ◌<◌, ◌≡◌, refl, List, [], ◌∷◌, ◌++◌, map, foldl, arith, ◌==◌, if◌then◌else◌, Bool, true, false,
  ◌||◌, inl, inr, Bool-cases, All,
}
use nvcuopt.Prelude.Num.{Num}

module _ {F : Type 0} where
  abbrev pub has : ℕ → List (ℕ × F) → Bool
  has r [] = false
  has r ((c, v) ∷ l) = (c == r) || has r l

  -- No row stands twice.
  abbrev pub Distinct : List (ℕ × F) → Type 0
  Distinct [] = Unit
  Distinct ((c, v) ∷ l) = (has c l ≡ false) × Distinct l

module _ {F : Type 0} ⦃num : Num F⦄ where
  -- The value v added at row r.
  abbrev pub add_entry : ℕ → F → List (ℕ × F) → List (ℕ × F)
  add_entry r v [] = (r, v) ∷ []
  add_entry r v ((c, w) ∷ l) =
      let rest = add_entry r v l in if c == r then (c, num.add w v) ∷ l else (c, w) ∷ rest

  abbrev pub collect : List (ℕ × F) → List (ℕ × F) → List (ℕ × F)
  collect l es = foldl (λ k e. add_entry e.0 e.1 k) l es

  -- The entries times a factor.
  abbrev pub scaled : F → List (ℕ × F) → List (ℕ × F)
  scaled beta l = map (λ e. (e.0, num.mul beta e.1)) l

  pub add_entry-new :
      (r : ℕ) (v : F) (l : List (ℕ × F)) → has r l ≡ false → add_entry r v l ≡ l ++ (r, v) ∷ []
  add_entry-new r v [] h = refl
  add_entry-new r v ((c, w) ∷ l) h = ground (arith, add_entry-new r v l)

  pub rows-add_entry :
      (r : ℕ) (v : F) (l : List (ℕ × F))
      → has r l ≡ true
      → map (λ e. e.0) (add_entry r v l) ≡ map (λ e. e.0) l
  rows-add_entry r v [] h = ground arith
  rows-add_entry r v ((c, w) ∷ l) h = ground (arith, rows-add_entry r v l)

  pub has-add_entry :
      (r k : ℕ) (v : F) (l : List (ℕ × F)) → has r (add_entry k v l) ≡ (k == r) || has r l
  has-add_entry r k v [] = ground arith
  has-add_entry r k v ((c, w) ∷ l) = ground (arith, has-add_entry r k v l)

  pub Distinct-add_entry :
      (r : ℕ) (v : F) (l : List (ℕ × F)) → Distinct l → Distinct (add_entry r v l)
  Distinct-add_entry r v [] h = (refl, tt)
  Distinct-add_entry r v ((c, w) ∷ l) h =
      ground (arith, has-add_entry c r v l, Distinct-add_entry r v l)

  All-add_entry :
      (m r : ℕ) (v : F) (l : List (ℕ × F))
      → r < m
      → All (λ e. e.0 < m) l
      → All (λ e. e.0 < m) (add_entry r v l)
  All-add_entry m r v [] lt h = (lt, tt)
  All-add_entry m r v ((c, w) ∷ l) lt h = elim (Bool-cases (c == r)) [
    | inl hit ↦ rw hit h
    | inr miss ↦ rw miss (h.0, All-add_entry m r v l lt h.1)
  ]

  pub All-collect :
      (m : ℕ) (l es : List (ℕ × F))
      → All (λ e. e.0 < m) l
      → All (λ e. e.0 < m) es
      → All (λ e. e.0 < m) (collect l es)
  All-collect m l [] h g = h
  All-collect m l ((r, v) ∷ es) h g =
      All-collect m (add_entry r v l) es (All-add_entry m r v l g.0 h) g.1

  pub All-scaled :
      (m : ℕ) (b : F) (l : List (ℕ × F)) → All (λ e. e.0 < m) l → All (λ e. e.0 < m) (scaled b l)
  All-scaled m b [] h = tt
  All-scaled m b (e ∷ l) h = (h.0, All-scaled m b l h.1)
