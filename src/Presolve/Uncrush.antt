-- ===== src/Presolve/Uncrush.antt =====
-- `uncrush_solution` of cpp/src/dual_simplex/presolve.cpp puts the values of the remaining and of the
-- removed variables in their places.
use nvcuopt.Prelude.{
  ℕ, zero, suc, ◌+◌, ◌<◌, ◌≡◌, ◌≢◌, refl, sym, subst, ap, ◌∙◌, List, [], ◌∷◌, foldl, arith, ◌==◌,
  false, length, length-set, length-resize, resize, get_or, get_or-set_self, get_or-set_ne,
  get_or-All, set, All,
}
use nvcuopt.Prelude.Num.{Num}
use nvcuopt.Sparse.Matrix.{at, val}
use nvcuopt.Presolve.Problem.{PresolveInfo}
use nvcuopt.Presolve.Crush.{uncrush_variable, uncrush_solution}

-- No entry of js is j.
abbrev pub Apart : ℕ → List ℕ → Type 0
Apart j js = All (λ i. j ≢ i) js

abbrev pub Distinct : List ℕ → Type 0
Distinct [] = Unit
Distinct (j ∷ js) = Apart j js × Distinct js

-- The lists share no variable, hold none twice, and all are below their number.
pub record IsPartition (remaining removed : List ℕ) : Type 0 where
  pub remaining_distinct : Distinct remaining
  pub removed_distinct : Distinct removed
  pub disjoint : All (λ j. Apart j removed) remaining
  pub remaining_below : All (λ j. j < length removed + length remaining) remaining
  pub removed_below : All (λ j. j < length removed + length remaining) removed

module _ {ℓ} {A : Type ℓ} where
  -- f k, f (k + 1), ... written to the places js.
  abbrev fill : ℕ → List ℕ → (ℕ → A) → List A → List A
  fill k [] f v = v
  fill k (j ∷ js) f v = fill (k + 1) js f (set v j (f k))

  length-fill : (k : ℕ) (js : List ℕ) (f : ℕ → A) (v : List A) → length (fill k js f v) ≡ length v
  length-fill k [] f v = refl
  length-fill k (j ∷ js) f v = length-fill (k + 1) js f (set v j (f k)) ∙ length-set v j (f k)

  fill-Apart :
      (k : ℕ) (js : List ℕ) (f : ℕ → A) (v : List A) (r : ℕ) (d : A)
      → Apart r js
      → get_or (fill k js f v) r d ≡ get_or v r d
  fill-Apart k [] f v r d h = refl
  fill-Apart k (j ∷ js) f v r d h =
      fill-Apart (k + 1) js f (set v j (f k)) r d h.1
      ∙ get_or-set_ne v j r (f k) d (λ e. h.0 (sym e))

  fill_hit :
      (k : ℕ) (js : List ℕ) (f : ℕ → A) (v : List A) (i : ℕ) (d : A)
      → Distinct js
      → All (λ j. j < length v) js
      → i < length js
      → get_or (fill k js f v) (at js i) d ≡ f (k + i)
  fill_hit k [] f v i d h below lt = elim lt [ ]
  fill_hit k (j ∷ js) f v zero d h below lt =
      fill-Apart (k + 1) js f (set v j (f k)) j d h.0
      ∙ get_or-set_self v j (f k) d below.0
      ∙ ap f (omega arith)
  fill_hit k (j ∷ js) f v (suc i) d h below lt =
      fill_hit (k + 1) js f (set v j (f k)) i d h.1
        (subst (λ n. All (λ j. j < n) js) (sym (length-set v j (f k))) below.1) (omega arith)
      ∙ ap f (omega arith)

module _ {F : Type 0} ⦃num : Num F⦄ where
  uncrush_loop :
      (xs zs : List F) (js : List ℕ) (k : ℕ) (x z : List F)
      → let t = foldl (λ s j. uncrush_variable xs zs j s) (k, x, z) js in
        (t.1 ≡ fill k js (val xs) x) × (t.2 ≡ fill k js (val zs) z)
  unfolding uncrush_variable
  uncrush_loop xs zs [] k x z = (refl, refl)
  uncrush_loop xs zs (j ∷ js) k x z =
      uncrush_loop xs zs js (k + 1) (set x j (val xs k)) (set z j (val zs k))

  -- One vector of the result, from those of the reduced problem and of the removed variables.
  abbrev uncrushed : PresolveInfo F → List F → List F → List F → List F
  uncrushed info crushed removed target = fill 0 info.removed_variables (val removed) (
      fill 0 info.remaining_variables (val crushed) (
        resize (length info.removed_variables + length info.remaining_variables) num.nought target))

  -- The vector has the size of the original problem, and each variable its value.
  abbrev pub Restores : PresolveInfo F → List F → List F → List F → Type 0
  Restores info crushed removed v =
      (length v ≡ length info.removed_variables + length info.remaining_variables)
      × ((k : ℕ)
          → k < length info.remaining_variables
          → val v (at info.remaining_variables k) ≡ val crushed k)
      × ((k : ℕ)
          → k < length info.removed_variables
          → val v (at info.removed_variables k) ≡ val removed k)

  uncrushed-Restores :
      (info : PresolveInfo F) (crushed removed target : List F)
      → IsPartition info.remaining_variables info.removed_variables
      → Restores info crushed removed (uncrushed info crushed removed target)
  uncrushed-Restores info crushed removed target h =
      let n = length info.removed_variables + length info.remaining_variables in
      let js = info.remaining_variables in
      let gone = info.removed_variables in
      let start = resize n num.nought target in
      let first = fill 0 js (val crushed) start in
      let size : length start ≡ n = length-resize n num.nought target in
      let size' : length first ≡ n = length-fill 0 js (val crushed) start ∙ size in
      (
        length-fill 0 gone (val removed) first ∙ size',
        λ k lt.
            fill-Apart 0 gone (val removed) first (at js k) num.nought
              (get_or-All (λ j. Apart j gone) 0 js h.disjoint k lt)
            ∙ fill_hit 0 js (val crushed) start k num.nought h.remaining_distinct
                (subst (λ m. All (λ j. j < m) js) (sym size) h.remaining_below) lt
            ∙ ap (val crushed) (omega arith),
        λ k lt.
            fill_hit 0 gone (val removed) first k num.nought h.removed_distinct
              (subst (λ m. All (λ j. j < m) gone) (sym size') h.removed_below) lt
            ∙ ap (val removed) (omega arith),
      )

  -- Where the remaining and the removed variables, of which there are some, are those of the
  -- original problem, each once, `uncrush_solution`, whatever the targets held, gives vectors of the
  -- size of the original problem: the remaining variables have the values and reduced costs of the
  -- reduced problem, and the removed ones those that presolve_info keeps.
  pub uncrush_solution-Restores :
      (info : PresolveInfo F) (crushed_x crushed_z x z : List F)
      → IsPartition info.remaining_variables info.removed_variables
      → 0 < length info.removed_variables
      → let (ux, uz) = uncrush_solution info crushed_x crushed_z x z in
        Restores info crushed_x info.removed_values ux
        × Restores info crushed_z info.removed_reduced_costs uz
  unfolding uncrush_solution
  uncrush_solution-Restores info crushed_x crushed_z x z h some =
      let n = length info.removed_variables + length info.remaining_variables in
      let x0 = resize n num.nought x in
      let z0 = resize n num.nought z in
      let (ex, ez) = uncrush_loop crushed_x crushed_z info.remaining_variables 0 x0 z0 in
      let t =
        foldl (λ s j. uncrush_variable crushed_x crushed_z j s) (0, x0, z0)
          info.remaining_variables in
      let (fx, fz) =
        uncrush_loop info.removed_values info.removed_reduced_costs info.removed_variables 0 t.1
          t.2 in
      let more : length info.removed_variables == 0 ≡ false = ground arith in
      rw more (
        subst (Restores info crushed_x info.removed_values)
            (sym (fx ∙ ap (fill 0 info.removed_variables (val info.removed_values)) ex))
            (uncrushed-Restores info crushed_x info.removed_values x h),
        subst (Restores info crushed_z info.removed_reduced_costs)
            (sym (fz ∙ ap (fill 0 info.removed_variables (val info.removed_reduced_costs)) ez))
            (uncrushed-Restores info crushed_z info.removed_reduced_costs z h),
      )
