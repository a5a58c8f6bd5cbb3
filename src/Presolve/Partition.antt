-- ===== src/Presolve/Partition.antt =====
-- The numbers whose mark is 0 and the others, as lists of variables for
-- cpp/src/dual_simplex/presolve.cpp.
use nvcuopt.Prelude.{
  ℕ, zero, suc, ◌+◌, ◌≤◌, ◌<◌, ◌≡◌, ◌≢◌, refl, List, [], ◌∷◌, arith, ◌==◌, true, false, inl, inr,
  Bool-cases, length, All,
}
use nvcuopt.Sparse.Matrix.{at}
use nvcuopt.Sparse.Remove.Columns.{unmarked}
use nvcuopt.Presolve.Compact.{marked}
use nvcuopt.Presolve.Uncrush.{Apart, Distinct, IsPartition}

-- What holds of all entries and what follows from it.
All-weaken {κ μ} :
    (P : ℕ → Type κ) (Q : ℕ → Type μ) (js : List ℕ) → ((j : ℕ) → P j → Q j) → All P js → All Q js
All-weaken P Q [] f h = tt
All-weaken P Q (j ∷ js) f h = (f j h.0, All-weaken P Q js f h.1)

-- The numbers from lo to hi with mark 0, and with another mark.
abbrev Stays : List ℕ → ℕ → ℕ → ℕ → Type 0
Stays marker lo hi j = (lo ≤ j) × (j < hi) × (at marker j == 0 ≡ true)

abbrev Goes : List ℕ → ℕ → ℕ → ℕ → Type 0
Goes marker lo hi j = (lo ≤ j) × (j < hi) × (at marker j == 0 ≡ false)

unmarked-Stays :
    (marker : List ℕ) (lo n hi : ℕ)
    → lo + n ≤ hi
    → All (Stays marker lo hi) (unmarked marker lo n) × Distinct (unmarked marker lo n)
unmarked-Stays marker lo zero hi le = (tt, tt)
unmarked-Stays marker lo (suc n) hi le =
    let (rest, distinct) = unmarked-Stays marker (suc lo) n hi (omega arith) in
    let js = unmarked marker (suc lo) n in
    let later =
      All-weaken (Stays marker (suc lo) hi) (Stays marker lo hi) js (λ j h. (omega arith, h.1, h.2))
        rest in
    elim (Bool-cases (at marker lo == 0)) [
      | inl stays ↦ rw stays (
        ((omega arith, omega arith, stays), later),
        (
          All-weaken (Stays marker (suc lo) hi) (λ j. lo ≢ j) js (λ j h. omega arith) rest,
          distinct,
        ),
      )
      | inr goes ↦ rw goes (later, distinct)
    ]

marked-Goes :
    (marker : List ℕ) (lo n hi : ℕ)
    → lo + n ≤ hi
    → All (Goes marker lo hi) (marked marker lo n) × Distinct (marked marker lo n)
marked-Goes marker lo zero hi le = (tt, tt)
marked-Goes marker lo (suc n) hi le =
    let (rest, distinct) = marked-Goes marker (suc lo) n hi (omega arith) in
    let js = marked marker (suc lo) n in
    let later =
      All-weaken (Goes marker (suc lo) hi) (Goes marker lo hi) js (λ j h. (omega arith, h.1, h.2))
        rest in
    elim (Bool-cases (at marker lo == 0)) [
      | inl stays ↦ rw stays (later, distinct)
      | inr goes ↦ rw goes (
        ((omega arith, omega arith, goes), later),
        (All-weaken (Goes marker (suc lo) hi) (λ j. lo ≢ j) js (λ j h. omega arith) rest, distinct),
      )
    ]

pub length-marked :
    (marker : List ℕ) (lo n : ℕ) → length (marked marker lo n) + length (unmarked marker lo n) ≡ n
length-marked marker lo zero = omega arith
length-marked marker lo (suc n) = elim (Bool-cases (at marker lo == 0)) [
  | inl stays ↦ rw stays (omega (arith, length-marked marker (suc lo) n))
  | inr goes ↦ rw goes (omega (arith, length-marked marker (suc lo) n))
]

-- Both lists together hold each number below n once.
pub marked-IsPartition :
    (marker : List ℕ) (n : ℕ) → IsPartition (unmarked marker 0 n) (marked marker 0 n)
marked-IsPartition marker n =
    let js = unmarked marker 0 n in
    let gone = marked marker 0 n in
    let (stays, distinct) = unmarked-Stays marker 0 n n (omega arith) in
    let (goes, distinct') = marked-Goes marker 0 n n (omega arith) in
    let total = length-marked marker 0 n in
    record {
      remaining_distinct = distinct;
      removed_distinct = distinct';
      disjoint =
          All-weaken (Stays marker 0 n) (λ j. Apart j gone) js
            (λ j s.
              All-weaken (Goes marker 0 n) (λ i. j ≢ i) gone (λ i g e. ground (arith, s.2, g.2))
                goes)
            stays;
      remaining_below =
          All-weaken (Stays marker 0 n) (λ j. j < length gone + length js) js
            (λ j s. omega (arith, s.1)) stays;
      removed_below =
          All-weaken (Goes marker 0 n) (λ j. j < length gone + length js) gone
            (λ j g. omega (arith, g.1)) goes;
    }

-- A number with another mark than 0 has a place in the list.
pub marked_index :
    (marker : List ℕ) (lo n j : ℕ)
    → lo ≤ j
    → j < lo + n
    → at marker j == 0 ≡ false
    → (k : ℕ) × (k < length (marked marker lo n)) × (at (marked marker lo n) k ≡ j)
marked_index marker lo zero j le lt goes = absurd (omega arith)
marked_index marker lo (suc n) j le lt goes = elim (Bool-cases (lo == j)) [
  | inl hit ↦
      let e : j ≡ lo = ground arith in
      let here = rw e at goes in rw (here, e) (0, omega arith, refl)
  | inr miss ↦
      let low : suc lo ≤ j = ground arith in
      let (k, below, found) = marked_index marker (suc lo) n j low (omega arith) goes in
      elim (Bool-cases (at marker lo == 0)) [
        | inl stays ↦ rw stays (k, below, found)
        | inr other ↦ rw other (suc k, omega arith, found)
      ]
]
