-- ===== src/PseudoCosts/Selection.antt =====
-- `variable_selection` of cpp/src/dual_simplex/pseudo_costs.cpp finds a variable with the largest
-- score. The order of floating-point numbers has the laws of IsStrict, NaN included.
use nvcuopt.Prelude.{
  ℕ, suc, ◌<◌, ◌≡◌, ◌⊎◌, refl, sym, subst, ap₂, ◌∙◌, List, arith, ◌==◌, inl, inr, Bool-cases, true,
  false, length, length-replicate, replicate, for_loop_inv,
}
use nvcuopt.Prelude.Num.{Num}
use nvcuopt.Sparse.Matrix.{at, val}
use nvcuopt.Vectors.Norm.{IsStrict, not_below}
use nvcuopt.Vectors.Update.{update_range, update_range-Updated}
use nvcuopt.PseudoCosts.{PseudoCosts, Rounding, initialized, score_of, select, variable_selection}

module _ {F : Type 0} ⦃num : Num F⦄ where
  -- Before place k, either no score is above `start` and j is `first`, or j stands at a place whose
  -- score a is above `start` and has no score above it.
  abbrev pub IsBest : F → ℕ → List ℕ → (ℕ → F) → ℕ → ℕ → F → Type 0
  IsBest start first fractional score k j a =
      ((j ≡ first) × (a ≡ start) × ((r : ℕ) → r < k → num.lt start (score r) ≡ false))
      ⊎ ((q : ℕ) × (q < k)
          × (j ≡ at fractional q)
          × (a ≡ score q)
          × (num.lt start (score q) ≡ true)
          × ((r : ℕ) → r < k → num.lt (score q) (score r) ≡ false))

module _ {F : Type 0} ⦃num : Num F⦄ (order : IsStrict num) where
  -- The score so far has none above it.
  IsBest-bound :
      (start : F) (first : ℕ) (fractional : List ℕ) (score : ℕ → F) (k j : ℕ) (a : F)
      → IsBest start first fractional score k j a
      → (r : ℕ) → r < k
      → num.lt a (score r) ≡ false
  IsBest-bound start first fractional score k j a (inl (_, e, low)) r lt =
      subst (λ b. num.lt b (score r) ≡ false) (sym e) (low r lt)
  IsBest-bound start first fractional score k j a (inr (q, _, _, e, _, best)) r lt =
      subst (λ b. num.lt b (score r) ≡ false) (sym e) (best r lt)

  -- Scores that agree have the same best one.
  IsBest-congr :
      (start : F) (first : ℕ) (fractional : List ℕ) (score other : ℕ → F) (k j : ℕ) (a : F)
      → ((r : ℕ) → r < k → score r ≡ other r)
      → IsBest start first fractional score k j a
      → IsBest start first fractional other k j a
  IsBest-congr start first fractional score other k j a same (inl (ej, ea, low)) =
      inl (ej, ea, λ r lt. subst (λ b. num.lt start b ≡ false) (same r lt) (low r lt))
  IsBest-congr start first fractional score other k j a same (inr (q, lt, ej, ea, high, best)) =
      inr (
        q,
        lt,
        ej,
        ea ∙ same q lt,
        subst (λ b. num.lt start b ≡ true) (same q lt) high,
        λ r below. ap₂ num.lt (sym (same q lt)) (sym (same r below)) ∙ best r below,
      )

  select-IsBest :
      (start : F) (first : ℕ) (fractional : List ℕ) (score : List F) (k : ℕ) (s : ℕ × F)
      → IsBest start first fractional (val score) k s.0 s.1
      → let t = select fractional score k s in
        IsBest start first fractional (val score) (suc k) t.0 t.1
  unfolding select
  select-IsBest start first fractional score k (j, a) h =
      let t = val score k in
      let bound : (r : ℕ) → r < k → num.lt a (val score r) ≡ false =
        IsBest-bound start first fractional (val score) k j a h in
      elim (Bool-cases (num.lt a t)) [
        | inl up ↦ rw up (
            let above : num.lt start t ≡ true = elim h [
              | inl (_, e, low) ↦ subst (λ b. num.lt b t ≡ true) e up
              | inr (q, lt, _, e, high, best) ↦
                  order.transitive start (val score q) t high (subst (λ b. num.lt b t ≡ true) e up)
            ] in
            inr (
              k,
              omega arith,
              refl,
              refl,
              above,
              λ r lt. elim (Bool-cases (k == r)) [
                | inl hit ↦
                    let e : k ≡ r = ground arith in
                    subst (λ i. num.lt t (val score i) ≡ false) e (order.irreflexive t)
                | inr miss ↦ not_below order a t (val score r) (bound r (ground arith)) up
              ],
            ))
        | inr stay ↦ rw stay (elim h [
          | inl (ej, ea, low) ↦ inl (
            ej,
            ea,
            λ r lt. elim (Bool-cases (k == r)) [
              | inl hit ↦
                  let e : k ≡ r = ground arith in
                  subst (λ i. num.lt start (val score i) ≡ false) e
                    (subst (λ b. num.lt b t ≡ false) ea stay)
              | inr miss ↦ low r (ground arith)
            ],
          )
          | inr (q, lt, ej, ea, high, best) ↦ inr (
            q,
            omega arith,
            ej,
            ea,
            high,
            λ r below. elim (Bool-cases (k == r)) [
              | inl hit ↦
                  let e : k ≡ r = ground arith in
                  subst (λ i. num.lt (val score q) (val score i) ≡ false) e
                    (subst (λ b. num.lt b t ≡ false) ea stay)
              | inr miss ↦ best r (ground arith)
            ],
          )
        ])
      ]

  -- For an order that is irreflexive and transitive: either `variable_selection` gives a fractional
  -- variable whose score is above -1 and has no score of a fractional variable above it, or it gives
  -- the first fractional variable and no score is above -1.
  pub variable_selection-IsBest :
      (R : Rounding F) (pc : PseudoCosts F) (fractional : List ℕ) (solution : List F)
      → let score : ℕ → F = λ k. score_of R pc (initialized R pc) solution (at fractional k) in
        (a : F) × IsBest
          (num.sub num.nought num.one)
          (at fractional 0)
          fractional
          score
          (length fractional)
          (variable_selection R pc fractional solution)
          a
  unfolding variable_selection
  variable_selection-IsBest R pc fractional solution =
      let n = length fractional in
      let start = num.sub num.nought num.one in
      let first = at fractional 0 in
      let score : ℕ → F = λ k. score_of R pc (initialized R pc) solution (at fractional k) in
      let blank = replicate n num.nought in
      let scores = update_range num.nought (λ k b. score k) 0 n blank in
      let filled =
        update_range-Updated num.nought (λ k b. score k) 0 n blank (omega arith)
          (omega (arith, length-replicate n num.nought)) in
      (
        _,
        IsBest-congr start first fractional (val scores) score n _ _
            (λ r lt. filled.done r (omega arith) lt)
            (for_loop_inv (λ k (s : ℕ × F). IsBest start first fractional (val scores) k s.0 s.1)
              (select fractional scores) 0 n (omega arith)
              (λ k s from lt inv. select-IsBest start first fractional scores k s inv)
              (first, start) (inl (refl, refl, λ r lt. absurd (omega arith)))),
      )
