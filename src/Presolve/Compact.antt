-- ===== src/Presolve/Compact.antt =====
-- The loops of cpp/src/dual_simplex/presolve.cpp that write the entries of rows or columns that
-- remain one after the other, and sums over these.
use mathlib.Core.List.{append_assoc, append-nil}
use nvcuopt.Prelude.{
  ℕ, zero, suc, ◌+◌, ◌<◌, ◌≡◌, refl, sym, ap, ap₂, ◌∙◌, List, [], ◌∷◌, ◌++◌, map, arith, ◌==◌, Bool,
  inl, inr, Bool-cases, if◌then◌else◌, length, length-append, get_or, set, span,
}
use nvcuopt.Prelude.Num.{Num}
use nvcuopt.Sparse.Matrix.{at}
use nvcuopt.Sparse.Remove.Columns.{unmarked}
use nvcuopt.Sparse.Algebra.{IsSemiring, sum_below, sum_below_congr, add_nought}

module _ {ℓ} {A : Type ℓ} where
  -- The values vs written to x from place k on.
  abbrev pub write_from : ℕ → List A → List A → List A
  write_from k [] x = x
  write_from k (v ∷ vs) x = write_from (suc k) vs (set x k v)

  set-append : (ws rest : List A) (r v : A) → set (ws ++ r ∷ rest) (length ws) v ≡ ws ++ v ∷ rest
  set-append [] rest r v = refl
  set-append (w ∷ ws) rest r v = ap (◌∷◌ w) (set-append ws rest r v)

  write_from-append :
      (ws vs rest : List A)
      → length rest ≡ length vs
      → write_from (length ws) vs (ws ++ rest) ≡ ws ++ vs
  write_from-append ws [] [] e = refl
  write_from-append ws [] (r ∷ rest) e = absurd (omega arith)
  write_from-append ws (v ∷ vs) [] e = absurd (omega arith)
  write_from-append ws (v ∷ vs) (r ∷ rest) e =
      let size : suc (length ws) ≡ length (ws ++ v ∷ []) =
        omega (arith, length-append ws (v ∷ [])) in
      ap (write_from (suc (length ws)) vs)
        (set-append ws rest r v ∙ sym (append_assoc ws (v ∷ []) rest))
      ∙ ap (λ k. write_from k vs ((ws ++ v ∷ []) ++ rest)) size
      ∙ write_from-append (ws ++ v ∷ []) vs rest (omega arith)
      ∙ append_assoc ws (v ∷ []) vs

  -- Writing as many values as there are places leaves these values.
  pub write_from_all : (vs x : List A) → length x ≡ length vs → write_from 0 vs x ≡ vs
  write_from_all vs x e = write_from-append [] vs x e

  pub get_or-append_left :
      (xs ys : List A) (k : ℕ) (d : A) → k < length xs → get_or (xs ++ ys) k d ≡ get_or xs k d
  get_or-append_left [] ys k d lt = elim lt [ ]
  get_or-append_left (x ∷ xs) ys zero d lt = refl
  get_or-append_left (x ∷ xs) ys (suc k) d lt = get_or-append_left xs ys k d (omega arith)

  pub get_or-append_last : (xs : List A) (y : A) (d : A) → get_or (xs ++ y ∷ []) (length xs) d ≡ y
  get_or-append_last [] y d = refl
  get_or-append_last (x ∷ xs) y d = get_or-append_last xs y d

-- The last of the numbers comes last.
pub unmarked_last :
    (marker : List ℕ) (lo k last : ℕ)
    → lo + k ≡ last
    → unmarked marker lo (suc k)
      ≡ unmarked marker lo k ++ (if at marker last == 0 then last ∷ [] else [])
unmarked_last marker lo zero last e = let e' : last ≡ lo = omega arith in rw e' refl
unmarked_last marker lo (suc k) last e = elim (Bool-cases (at marker lo == 0)) [
  | inl stays ↦ rw stays (ap (◌∷◌ lo) (unmarked_last marker (suc lo) k last (omega arith)))
  | inr goes ↦ rw goes (unmarked_last marker (suc lo) k last (omega arith))
]

-- The numbers from lo on, k of them, whose mark is not 0.
abbrev pub marked : List ℕ → ℕ → ℕ → List ℕ
marked marker lo zero = []
marked marker lo (suc k) =
    if at marker lo == 0 then marked marker (suc lo) k else lo ∷ marked marker (suc lo) k

pub marked_last :
    (marker : List ℕ) (lo k last : ℕ)
    → lo + k ≡ last
    → marked marker lo (suc k)
      ≡ marked marker lo k ++ (if at marker last == 0 then [] else last ∷ [])
marked_last marker lo zero last e = let e' : last ≡ lo = omega arith in rw e' refl
marked_last marker lo (suc k) last e = elim (Bool-cases (at marker lo == 0)) [
  | inl stays ↦ rw stays (marked_last marker (suc lo) k last (omega arith))
  | inr goes ↦ rw goes (ap (◌∷◌ lo) (marked_last marker (suc lo) k last (omega arith)))
]

pub get_or-map-span {ℓ} :
    {A : Type ℓ} (f : ℕ → A) (d : A) (lo n k i : ℕ)
    → k < n
    → lo + k ≡ i
    → get_or (map f (span lo n)) k d ≡ f i
get_or-map-span f d lo zero k i lt e = elim lt [ ]
get_or-map-span f d lo (suc n) zero i lt e = let e' : i ≡ lo = omega arith in rw e'
get_or-map-span f d lo (suc n) (suc k) i lt e =
    get_or-map-span f d (suc lo) n k i (omega arith) (omega arith)

pub get_or-map {ℓ κ} :
    {A : Type ℓ} {B : Type κ} (f : A → B) (xs : List A) (k : ℕ) (d : B) (e : A)
    → k < length xs
    → get_or (map f xs) k d ≡ f (get_or xs k e)
get_or-map f [] k d e lt = elim lt [ ]
get_or-map f (x ∷ xs) zero d e lt = refl
get_or-map f (x ∷ xs) (suc k) d e lt = get_or-map f xs k d e (omega arith)

module _ {F : Type 0} ⦃num : Num F⦄ (laws : IsSemiring num) where
  -- A sum over the numbers whose mark is 0 is one over all numbers.
  pub sum_below-unmarked :
      (marker : List ℕ) (g : ℕ → F) (n : ℕ)
      → sum_below (length (unmarked marker 0 n)) (λ k. g (at (unmarked marker 0 n) k))
        ≡ sum_below n (λ j. if at marker j == 0 then g j else num.nought)
  sum_below-unmarked marker g zero = refl
  sum_below-unmarked marker g (suc n) =
      let js = unmarked marker 0 n in
      let over : List ℕ → F = λ ks. sum_below (length ks) (λ k. g (at ks k)) in
      let last : Bool → F = λ b. if b then g n else num.nought in
      let kept = sum_below n (λ j. if at marker j == 0 then g j else num.nought) in
      ap over (unmarked_last marker 0 n n (omega arith)) ∙ elim (Bool-cases (at marker n == 0)) [
        | inl stays ↦
            let size : length (js ++ n ∷ []) ≡ suc (length js) =
              omega (arith, length-append js (n ∷ [])) in
            ap (λ (b : Bool). over (js ++ (if b then n ∷ [] else []))) stays
            ∙ ap (λ t. sum_below t (λ k. g (at (js ++ n ∷ []) k))) size
            ∙ ap₂ num.add
                (sum_below_congr laws (length js) _ _
                    (λ k lt. ap g (get_or-append_left js (n ∷ []) k 0 lt))
                  ∙ sum_below-unmarked marker g n)
                (ap g (get_or-append_last js n 0))
            ∙ ap (λ b. num.add kept (last b)) (sym stays)
        | inr goes ↦
            ap (λ (b : Bool). over (js ++ (if b then n ∷ [] else []))) goes
            ∙ ap over (append-nil js)
            ∙ sum_below-unmarked marker g n
            ∙ sym (add_nought laws kept)
            ∙ ap (λ b. num.add kept (last b)) (sym goes)
      ]
