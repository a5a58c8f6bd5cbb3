-- ===== src/Vectors/Update.antt =====
-- Loops that change each entry of a range of a vector, as those of cpp/src/dual_simplex/scaling.cpp
-- and of cpp/src/dual_simplex/pseudo_costs.cpp do.
use nvcuopt.Prelude.{
  ℕ, ◌≤◌, ◌<◌, ◌≡◌, refl, subst, ap, ◌∙◌, List, arith, ◌==◌, inl, inr, Bool-cases, length,
  length-set, set, get_or, get_or-set_self, get_or-set_ne, for_loop, for_loop_inv,
}

module _ {ℓ} {A : Type ℓ} (d : A) where
  -- for (p = lo; p < hi; ++p) x[p] = f(p, x[p]);
  abbrev pub update_range : (ℕ → A → A) → ℕ → ℕ → List A → List A
  update_range f lo hi x = for_loop lo hi (λ p y. set y p (f p (get_or y p d))) x

  -- Up to place q the entries from lo on are changed, the others are as they were.
  pub record Updated (f : ℕ → A → A) (lo q : ℕ) (x y : List A) : Type ℓ where
    pub size : length y ≡ length x
    pub done : (p : ℕ) → lo ≤ p → p < q → get_or y p d ≡ f p (get_or x p d)
    pub before : (p : ℕ) → p < lo → get_or y p d ≡ get_or x p d
    pub after : (p : ℕ) → q ≤ p → get_or y p d ≡ get_or x p d

  pub update_range-Updated :
      (f : ℕ → A → A) (lo hi : ℕ) (x : List A)
      → lo ≤ hi
      → hi ≤ length x
      → Updated f lo hi x (update_range f lo hi x)
  update_range-Updated f lo hi x le room =
      for_loop_inv (λ q y. Updated f lo q x y) (λ p y. set y p (f p (get_or y p d))) lo hi le
        (λ q y from under inv.
          let v = f q (get_or y q d) in
          record {
            size = length-set y q v ∙ inv.size;
            done = λ p low high. elim (Bool-cases (q == p)) [
              | inl hit ↦
                  let e : q ≡ p = ground arith in
                  subst (λ r. get_or (set y q v) r d ≡ f r (get_or x r d)) e
                    (get_or-set_self y q v d (omega (arith, inv.size))
                      ∙ ap (f q) (inv.after q (omega arith)))
              | inr miss ↦ get_or-set_ne y q p v d (ground arith) ∙ inv.done p low (ground arith)
            ];
            before = λ p low. get_or-set_ne y q p v d (omega arith) ∙ inv.before p low;
            after = λ p high. get_or-set_ne y q p v d (omega arith) ∙ inv.after p (omega arith);
          })
        x
        (record {
          size = refl;
          done = λ p low high. absurd (omega arith);
          before = λ p low. refl;
          after = λ p high. refl;
        })
