-- ===== src/Vectors/SparseDot.antt =====
-- `sparse_dot` of cpp/src/dual_simplex/vector_math.cpp and sparse_matrix.cpp.
use nvcuopt.Prelude.{
  ℕ, zero, suc, ◌+◌, ◌-◌, ◌≤◌, ◌<◌, ◌≡◌, refl, sym, ap, ◌∙◌, List, [], ◌∷◌, ◌++◌, foldl, arith,
  ◌==◌, ltb, ◌&&◌, inl, inr, Bool-cases, true, false, if◌then◌else◌, some, length, span,
}
use nvcuopt.Prelude.Num.{Num}
use nvcuopt.Sparse.Matrix.{Csc, at, val}
use nvcuopt.Sparse.Layout.{cols, width}
use native.Mathlib.Nat.{sub-zero}
use nvcuopt.Vectors.{advance, merge, sparse_dot, sparse_dot_column}

-- The indices rise from lo on to hi.
abbrev pub IsIncreasing : List ℕ → ℕ → ℕ → Type 0
IsIncreasing v lo hi = (a b : ℕ) → lo ≤ a → a < b → b < hi → at v a < at v b

module _ {F : Type 0} (xind yind : List ℕ) (product : ℕ → ℕ → F) where
  -- The products of i with those of ks that have its index.
  abbrev pub row_matches : ℕ → List ℕ → List F
  row_matches i [] = []
  row_matches i (k ∷ ks) =
      if at xind i == at yind k then product i k ∷ row_matches i ks else row_matches i ks

  -- The products of all pairs with one index.
  abbrev pub matches : List ℕ → List ℕ → List F
  matches [] ks = []
  matches (i ∷ is) ks = row_matches i ks ++ matches is ks

  matches-nil : (is : List ℕ) → matches is [] ≡ []
  matches-nil [] = refl
  matches-nil (i ∷ is) = matches-nil is

  -- What lies below all of the others matches none of them.
  row_matches_none :
      (i k n hi : ℕ)
      → k + n ≤ hi
      → ((b : ℕ) → k ≤ b → b < hi → at xind i < at yind b)
      → row_matches i (span k n) ≡ []
  row_matches_none i k zero hi le low = refl
  row_matches_none i k (suc n) hi le low =
      let here = low k (omega arith) (omega arith) in
      let miss : at xind i == at yind k ≡ false = ground arith in
      rw miss (row_matches_none i (suc k) n hi (omega arith) (λ b le lt. low b (omega arith) lt))

  matches_skip :
      (k i n hi : ℕ) (ks : List ℕ)
      → i + n ≤ hi
      → ((a : ℕ) → i ≤ a → a < hi → at yind k < at xind a)
      → matches (span i n) (k ∷ ks) ≡ matches (span i n) ks
  matches_skip k i zero hi ks le low = refl
  matches_skip k i (suc n) hi ks le low =
      let here = low i (omega arith) (omega arith) in
      let miss : at xind i == at yind k ≡ false = ground arith in
      rw miss (
        ap (◌++◌ (row_matches i ks))
          (matches_skip k (suc i) n hi ks (omega arith) (λ a le lt. low a (omega arith) lt)))

module _ {F : Type 0} ⦃num : Num F⦄ (xind yind : List ℕ) (product : ℕ → ℕ → F) (nx ny : ℕ) where
  -- What is still to be matched at positions i and k.
  abbrev rest : ℕ → ℕ → List F
  rest i k = matches xind yind product (span i (nx - i)) (span k (ny - k))

  rest_over : (i k : ℕ) → ltb i nx && ltb k ny ≡ false → rest i k ≡ []
  rest_over i k over = elim (Bool-cases (ltb i nx)) [
    | inl low ↦
        let e : ny - k ≡ 0 = ground arith in rw e (matches-nil xind yind product (span i (nx - i)))
    | inr high ↦ let e : nx - i ≡ 0 = ground arith in rw e refl
  ]

  module _ (lo i k : ℕ) (hx : IsIncreasing xind 0 nx) (hy : IsIncreasing yind lo ny) (le : lo ≤ k)
      (lt : i < nx) (lt' : k < ny) where
    more_left : nx - i ≡ suc (nx - suc i)
    more_left = omega arith

    more_right : ny - k ≡ suc (ny - suc k)
    more_right = omega arith

    rest_same : at xind i == at yind k ≡ true → rest i k ≡ product i k ∷ rest (suc i) (suc k)
    rest_same same =
        let none_left =
          row_matches_none xind yind product i (suc k) (ny - suc k) ny (omega arith)
            (λ b kb bn. let up = hy k b le (omega arith) bn in ground arith) in
        let none_right =
          matches_skip xind yind product k (suc i) (nx - suc i) nx (span (suc k) (ny - suc k))
            (omega arith)
            (λ a ia an. let up = hx i a (omega arith) (omega arith) an in ground arith) in
        rw (more_left, more_right, same, none_left) (ap (◌∷◌ (product i k)) none_right)

    rest_left : at xind i < at yind k → rest i k ≡ rest (suc i) k
    rest_left below =
        let none_left = row_matches_none xind yind product i k (ny - k) ny (omega arith) (λ b kb bn.
          elim (Bool-cases (k == b)) [
            | inl hit ↦ let e : k ≡ b = ground arith in rw (← e) below
            | inr miss ↦ let up = hy k b le (ground arith) bn in omega arith
          ]) in
        rw (more_left, none_left) refl

    rest_right : at yind k < at xind i → rest i k ≡ rest i (suc k)
    rest_right below = rw more_right (
        matches_skip xind yind product k i (nx - i) nx (span (suc k) (ny - suc k)) (omega arith)
          (λ a ia an. elim (Bool-cases (i == a)) [
            | inl hit ↦ let e : i ≡ a = ground arith in rw (← e) below
            | inr miss ↦ let up = hx i a (omega arith) (ground arith) an in omega arith
          ]))

  -- A round of the loop takes the next match, or leaves all that is to be matched.
  advance_rest :
      (lo i k : ℕ) (dot : F)
      → IsIncreasing xind 0 nx
      → IsIncreasing yind lo ny
      → lo ≤ k
      → i < nx
      → k < ny
      → let (i', k', dot') = advance xind yind product (i, k, dot) in
        (foldl num.add dot' (rest i' k') ≡ foldl num.add dot (rest i k))
        × (lo ≤ k')
        × (suc ((nx - i') + (ny - k')) ≤ (nx - i) + (ny - k))
  unfolding advance
  advance_rest lo i k dot hx hy le lt lt' = elim (Bool-cases (at xind i == at yind k)) [
    | inl same ↦ rw same (
      ap (foldl num.add dot) (sym (rest_same lo i k hx hy le lt lt' same)),
      omega arith,
      omega arith,
    )
    | inr other ↦ elim (Bool-cases (ltb (at xind i) (at yind k))) [
      | inl below ↦
          rw (other, below)
            (
              ap (foldl num.add dot) (sym (rest_left lo i k hx hy le lt lt' (ground arith))),
              le,
              omega arith,
            )
      | inr above ↦
          rw (other, above)
            (
              ap (foldl num.add dot) (sym (rest_right lo i k hx hy le lt lt' (ground arith))),
              omega arith,
              omega arith,
            )
    ]
  ]

  -- With fuel for the positions that are left the loop has a result.
  merge_lem :
      (lo fuel i k : ℕ) (dot : F)
      → IsIncreasing xind 0 nx
      → IsIncreasing yind lo ny
      → lo ≤ k
      → (nx - i) + (ny - k) ≤ fuel
      → merge xind nx yind ny product fuel (i, k, dot) ≡ some (foldl num.add dot (rest i k))
  unfolding merge
  merge_lem lo zero i k dot hx hy le enough =
      let a : nx - i ≡ 0 = omega arith in let b : ltb i nx ≡ false = ground arith in rw (a, b) refl
  merge_lem lo (suc fuel) i k dot hx hy le enough = elim (Bool-cases (ltb i nx && ltb k ny)) [
    | inr over ↦ rw over (ap (λ l. some (foldl num.add dot l)) (sym (rest_over i k over)))
    | inl more ↦
        let (same, le', less) = advance_rest lo i k dot hx hy le (ground arith) (ground arith) in
        let (i', k', dot') = advance xind yind product (i, k, dot) in
        rw more (merge_lem lo fuel i' k' dot' hx hy le' (omega arith) ∙ ap some same)
  ]

module _ {F : Type 0} ⦃num : Num F⦄ where
  -- For two vectors of indices that rise, `sparse_dot` has a result, the sum of the products of the
  -- values at equal indices, added up in the order of the indices.
  pub sparse_dot-matches :
      (xind : List ℕ) (xval : List F) (yind : List ℕ) (yval : List F)
      → IsIncreasing xind 0 (length xind)
      → IsIncreasing yind 0 (length yind)
      → sparse_dot xind xval yind yval
        ≡ some (
            foldl num.add num.nought (
              matches xind yind
                (λ i j. num.mul (val xval i) (val yval j))
                (span 0 (length xind))
                (span 0 (length yind))))
  unfolding sparse_dot
  sparse_dot-matches xind xval yind yval hx hy =
      rw (sub-zero (length xind), sub-zero (length yind)) at
        (merge_lem xind yind (λ i j. num.mul (val xval i) (val yval j)) (length xind) (length yind)
          0 (length xind + length yind) 0 0 num.nought hx hy (omega arith) (omega arith))

  -- For indices that rise and a column of Y whose indices rise, `sparse_dot` with the column has a
  -- result, the sum of the products of the values at equal indices, added up in the order of the
  -- indices.
  pub sparse_dot_column-matches :
      (xind : List ℕ) (xval : List F) (Y : Csc F) (j : ℕ)
      → IsIncreasing xind 0 (length xind)
      → IsIncreasing Y.i (at Y.col_start j) (at Y.col_start (suc j))
      → sparse_dot_column xind xval Y j
        ≡ some (
            foldl num.add num.nought (
              matches xind Y.i
                (λ i k. num.mul (val Y.x k) (val xval i))
                (span 0 (length xind))
                (span (at Y.col_start j) (width (cols Y) j))))
  unfolding sparse_dot_column
  sparse_dot_column-matches xind xval Y j hx hy =
      let start = at Y.col_start j in
      let end = at Y.col_start (suc j) in
      rw sub-zero at (
        merge_lem xind Y.i (λ i k. num.mul (val Y.x k) (val xval i)) (length xind) end start
          (length xind + (end - start)) 0 start num.nought hx hy (omega arith) (omega arith))
