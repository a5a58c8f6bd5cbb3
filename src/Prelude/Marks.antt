-- ===== src/Prelude/Marks.antt =====
-- Counting marks, and the pigeonhole principle on them.
use Prim.Native.Nat.{ℕ, zero, suc, ◌≤◌, ◌<◌}
use mathlib.Core.Path.{◌≡◌, refl, ◌∙◌}
use mathlib.Core.List.{List, [], ◌∷◌}
use mathlib.Core.Logic.{inl, inr}
use native.Mathlib.Omega.{arith}
use nvcuopt.Prelude.Tests.{ltb, ◌==◌, if◌then◌else◌, Bool-cases}
use nvcuopt.Prelude.Lists.{
  length, length-set, length-replicate, get_or, get_or-set, get_or-replicate, set, replicate,
}
use nvcuopt.Prelude.Loops.{for_loop_inv}

-- The marks that reach a bound, counted.
abbrev pub marks : ℕ → List ℕ → ℕ
marks mark [] = 0
marks mark (w ∷ ws) = if ltb w mark then marks mark ws else suc (marks mark ws)

pub marks_bound : (mark : ℕ) (ws : List ℕ) → marks mark ws ≤ length ws
marks_bound mark [] = omega arith
marks_bound mark (w ∷ ws) = ground (arith, marks_bound mark ws)

pub marks-set :
    (mark i : ℕ) (ws : List ℕ)
    → get_or ws i 0 < mark
    → i < length ws
    → marks mark (set ws i mark) ≡ suc (marks mark ws)
marks-set mark i [] lt h = ground arith
marks-set mark zero (w ∷ ws) lt h = ground arith
marks-set mark (suc i) (w ∷ ws) lt h = ground (arith, marks-set mark i ws)

pub marks_none : (mark : ℕ) (ws : List ℕ) → ((r : ℕ) → get_or ws r 0 < mark) → marks mark ws ≡ 0
marks_none mark [] h = refl
marks_none mark (w ∷ ws) h = ground (arith, h 0, marks_none mark ws (λ r. h (suc r)))

-- When all are counted each is a mark.
marks_full :
    (mark : ℕ) (ws : List ℕ)
    → length ws ≤ marks mark ws
    → (r : ℕ) → r < length ws
    → mark ≤ get_or ws r 0
marks_full mark [] h r lt = absurd (omega arith)
marks_full mark (w ∷ ws) h zero lt = ground (arith, marks_bound mark ws)
marks_full mark (w ∷ ws) h (suc r) lt =
    marks_full mark ws (ground (arith, marks_bound mark ws)) r (omega arith)

-- After j steps the values of the numbers below j are marked, and no others.
record Marked (n : ℕ) (f : ℕ → ℕ) (j : ℕ) (w : List ℕ) : Type 0 where
  size : length w ≡ n
  counted : marks 1 w ≡ j
  from : (r : ℕ) → 1 ≤ get_or w r 0 → (k : ℕ) × (k < j) × (f k ≡ r)

module _ (n : ℕ) (f : ℕ → ℕ) (range : (k : ℕ) → k < n → f k < n)
    (injective : (i k : ℕ) → i < n → k < n → f i ≡ f k → i ≡ k) where
  Marked-set : (j : ℕ) (w : List ℕ) → j < n → Marked n f j w → Marked n f (suc j) (set w (f j) 1)
  Marked-set j w lt h = record {
    size = length-set w (f j) 1 ∙ h.size;
    counted = marks-set 1 (f j) w fresh room ∙ omega (arith, h.counted);
    from = λ r one. elim (Bool-cases (f j == r)) [
      | inl hit ↦ (j, omega arith, ground arith)
      | inr miss ↦
          let (k, below, same) = h.from r (ground (arith, get_or-set w (f j) r 1 0 room)) in
          (k, omega arith, same)
    ];
  }
    where
      room : f j < length w
      room = omega (arith, h.size, range j lt)

      fresh : get_or w (f j) 0 < 1
      fresh = elim (Bool-cases (ltb (get_or w (f j) 0) 1)) [
        | inl low ↦ ground arith
        | inr high ↦
            let (k, below, same) = h.from (f j) (ground arith) in
            absurd (omega (arith, injective k j (omega arith) lt same))
      ]

  -- A function from the numbers below n to themselves that takes no value twice takes each.
  pub below_surjective : (r : ℕ) → r < n → (k : ℕ) × (k < n) × (f k ≡ r)
  below_surjective r lt =
      let start : List ℕ = replicate n 0 in
      let end =
        for_loop_inv (Marked n f) (λ k w. set w (f k) 1) 0 n (omega arith)
          (λ k w _ below h. Marked-set k w below h) start
          record {
            size = length-replicate n 0;
            counted =
                marks_none 1 start (λ r. let e = get_or-replicate {A = ℕ} n 0 r in omega arith);
            from = λ r one. let e = get_or-replicate {A = ℕ} n 0 r in absurd (omega arith);
          } in
      end.from r (marks_full 1 _ (omega (arith, end.size, end.counted)) r (omega (arith, end.size)))
