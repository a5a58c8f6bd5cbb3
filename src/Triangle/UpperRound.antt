-- ===== src/Triangle/UpperRound.antt =====
-- A round of the outer loop of `upper_triangular_solve` in cpp/src/dual_simplex/triangle_solve.cpp,
-- for values that obey the laws of a field (numbers without rounding).
use mathlib.Core.List.{foldl-map}
use nvcuopt.Prelude.{
  ℕ, suc, ◌-◌, ◌<◌, ◌≡◌, refl, sym, subst, ap, ap₂, ◌∙◌, List, [], ◌∷◌, arith, ◌==◌, ltb, inl, inr,
  Bool-cases, true, false, Bool, if◌then◌else◌, length, length-set, get_or-set_self, get_or-set_ne,
  set, span, All,
}
use nvcuopt.Prelude.Num.{Num}
use nvcuopt.Sparse.Matrix.{Csc, at, val}
use nvcuopt.Sparse.Layout.{cols, entry}
use nvcuopt.Sparse.Algebra.{cell, cell-append, coefficient, add_nought}
use nvcuopt.Triangle.{subtract_entry, solve_upper_column}
use nvcuopt.Triangle.Lower.{IsField, subtract, cell_none, subtract-val}
use nvcuopt.Triangle.Upper.{IsUpper, init, init-All, segment-init}

module _ {F : Type 0} ⦃num : Num F⦄ (laws : IsField num) where
  solve_upper_column-subtract :
      (U : Csc F) (j : ℕ) (x : List F)
      → solve_upper_column U j x ≡ (
          if num.eq (val x j) num.nought
          then x
          else subtract j
              (init U j)
              (set x j (num.div (val x j) (val U.x (at U.col_start (suc j) - 1)))))
  unfolding solve_upper_column subtract_entry
  solve_upper_column-subtract U j x =
      let start = at U.col_start j in
      let col_end = at U.col_start (suc j) - 1 in
      let divided = set x j (num.div (val x j) (val U.x col_end)) in
      ap (λ y. if num.eq (val x j) num.nought then x else y)
        (sym (
          foldl-map (entry (cols U))
            (λ (y : List F) (e : ℕ × F). set y e.0 (num.sub (val y e.0) (num.mul e.1 (val y j))))
            (span start (col_end - start)) divided))

  -- What a round leaves: the value at j times column j is what it took away.
  abbrev pub Round : Csc F → ℕ → List F → List F → Type 0
  Round U j x y =
      (length y ≡ U.n)
      × ((r : ℕ) → j < r → val y r ≡ val x r)
      × ((r : ℕ)
          → num.add (if ltb r j then val y r else num.nought)
              (num.mul (coefficient U r j) (val y j))
            ≡ (if ltb r (suc j) then val x r else num.nought))

  Round-skipped :
      (U : Csc F) (j : ℕ) (x : List F) → length x ≡ U.n → val x j ≡ num.nought → Round U j x x
  Round-skipped U j x size none = (
    size,
    λ r lt. refl,
    λ r.
        ap (num.add (if ltb r j then val x r else num.nought))
          (ap (num.mul (coefficient U r j)) none ∙ laws.semiring.mul_nought (coefficient U r j))
        ∙ add_nought laws.semiring (if ltb r j then val x r else num.nought)
        ∙ elim (Bool-cases (j == r)) [
          | inl hit ↦
              let e : j ≡ r = ground arith in
              let here : val x r ≡ num.nought = subst (λ t. val x t ≡ num.nought) e none in
              let low : ltb r (suc j) ≡ true = ground arith in
              let not_low : ltb r j ≡ false = ground arith in rw (low, not_low) (sym here)
          | inr miss ↦
              let same : ltb r j ≡ ltb r (suc j) = ground arith in
              ap (λ c. if c then val x r else num.nought) same
        ],
  )

  -- The coefficients of column j.
  coefficient-init :
      (U : Csc F) (j r : ℕ)
      → IsUpper U
      → j < U.n
      → coefficient U r j
        ≡ num.add
            (cell (init U j) r)
            (if j == r then val U.x (at U.col_start (suc j) - 1) else num.nought)
  coefficient-init U j r h lt =
      let d = val U.x (at U.col_start (suc j) - 1) in
      ap (λ l. cell l r) (segment-init U j h lt)
      ∙ cell-append laws.semiring r (init U j) ((j, d) ∷ [])
      ∙ ap (num.add (cell (init U j) r)) (elim (Bool-cases (j == r)) [
        | inl hit ↦ rw hit (add_nought laws.semiring d)
        | inr miss ↦ rw miss refl
      ])

  All-both :
      (j n : ℕ) (l : List (ℕ × F))
      → j < n
      → All (λ e. e.0 < j) l
      → All (λ e. (e.0 < j) × (e.0 < n)) l
  All-both j n [] lt a = tt
  All-both j n (e ∷ l) lt a = ((a.0, omega (arith, a.0)), All-both j n l lt a.1)

  Round-solved :
      (U : Csc F) (j : ℕ) (x : List F)
      → IsUpper U
      → j < U.n
      → length x ≡ U.n
      → Round U j x (
          subtract j
            (init U j)
            (set x j (num.div (val x j) (val U.x (at U.col_start (suc j) - 1)))))
  Round-solved U j x h lt size =
      let d = val U.x (at U.col_start (suc j) - 1) in
      let u = num.div (val x j) d in
      let z = set x j u in
      let t = init U j in
      let rows = All-both j U.n t lt (init-All U j h lt) in
      let (len, kept, sums) =
        subtract-val laws (λ s. s < j) j U.n t z rows (λ s a. omega (arith, a))
          (length-set x j u ∙ size) in
      let y = subtract j t z in
      let at_j : val z j ≡ u = get_or-set_self x j u num.nought (omega (arith, size)) in
      let solved : val y j ≡ u = kept j (λ s a. omega (arith, a)) ∙ at_j in
      (
        len,
        λ r above.
            kept r (λ s a. omega (arith, a)) ∙ get_or-set_ne x j r u num.nought (omega arith),
        λ r.
            ap₂ (λ a c. num.add (if ltb r j then val y r else num.nought) (num.mul a c))
              (coefficient-init U j r h lt) solved
            ∙ elim (Bool-cases (ltb r j)) [
              | inl low ↦
                  let miss : j == r ≡ false = ground arith in
                  let low' : ltb r (suc j) ≡ true = ground arith in
                  rw (miss, low, low')
                    (ap (λ a. num.add (val y r) (num.mul a u)) (add_nought laws.semiring (cell t r))
                      ∙ ap (λ a. num.add (val y r) (num.mul (cell t r) a)) (sym at_j)
                      ∙ sums r
                      ∙ get_or-set_ne x j r u num.nought (ground arith))
              | inr high ↦
                  let none = cell_none (λ s. s < j) r U.n t rows (λ s a. ground (arith, a)) in
                  elim (Bool-cases (j == r)) [
                    | inl hit ↦
                        let e : j ≡ r = ground arith in
                        let low' : ltb r (suc j) ≡ true = ground arith in
                        rw (hit, high, low', none)
                          (laws.semiring.nought_add (num.mul (num.add num.nought d) u)
                            ∙ ap (λ a. num.mul a u) (laws.semiring.nought_add d)
                            ∙ laws.mul_div (val x j) d (h.nonzero j lt)
                            ∙ ap (val x) e)
                    | inr miss ↦
                        let high' : ltb r (suc j) ≡ false = ground arith in
                        rw (miss, high, high', none)
                          (laws.semiring.nought_add (num.mul (num.add num.nought num.nought) u)
                            ∙ ap (λ a. num.mul a u) (laws.semiring.nought_add num.nought)
                            ∙ laws.semiring.nought_mul u)
                  ]
            ],
      )

  pub solve_upper_column-Round :
      (U : Csc F) (j : ℕ) (x : List F)
      → IsUpper U
      → j < U.n
      → length x ≡ U.n
      → Round U j x (solve_upper_column U j x)
  solve_upper_column-Round U j x h lt size =
      let branch : Bool → List F = λ c.
        if c
        then x
        else subtract j (init U j)
            (set x j (num.div (val x j) (val U.x (at U.col_start (suc j) - 1)))) in
      subst (Round U j x) (sym (solve_upper_column-subtract U j x))
        (elim (Bool-cases (num.eq (val x j) num.nought)) [
          | inl none ↦
              subst (λ c. Round U j x (branch c)) (sym none)
                (Round-skipped U j x size (laws.semiring.eq_sound (val x j) num.nought none))
          | inr some ↦ subst (λ c. Round U j x (branch c)) (sym some) (Round-solved U j x h lt size)
        ])
