-- ===== src/PseudoCosts/Tests.antt =====
-- Runs of cpp/src/dual_simplex/pseudo_costs.cpp. Values are counted in tenths.
use nvcuopt.Prelude.{ℕ, suc, ◌+◌, ◌*◌, ◌/◌, ◌<◌, ◌≡◌, ◌⊎◌, refl, List, [], ◌∷◌, arith}
use nvcuopt.Prelude.Num.{nat_num}
use nvcuopt.Sparse.Matrix.{at}
use nvcuopt.Vectors.Norm.{IsStrict}
use nvcuopt.PseudoCosts.{
  PseudoCosts, Rounding, get_partitioning, record_change, fraction,
  update_pseudo_costs_from_strong_branching, count_initialized, initialized, max_of, cost_of,
  score_of, select, variable_selection,
}
use nvcuopt.PseudoCosts.Selection.{IsBest, variable_selection-IsBest}
use nvcuopt.PseudoCosts.Partition.{get_partitioning-Covers}

abbrev tenths : Rounding ℕ
tenths = record {
  floor = λ a. a / 10 * 10;
  ceil = λ a. (a + 9) / 10 * 10;
  from_int = λ n. n;
  eps = 1;
}

-- Variable 1 has no history.
abbrev costs : PseudoCosts ℕ
costs = record {
  sum_up = 4 ∷ 0 ∷ 9 ∷ [];
  sum_down = 6 ∷ 0 ∷ 8 ∷ [];
  num_up = 2 ∷ 0 ∷ 3 ∷ [];
  num_down = 2 ∷ 0 ∷ 2 ∷ [];
}

abbrev fractional : List ℕ
fractional = 0 ∷ 1 ∷ 2 ∷ []

abbrev solution : List ℕ
solution = 12 ∷ 25 ∷ 37 ∷ []

initialized_runs :
    initialized tenths costs
    ≡ record { num_initialized_down = 2; num_initialized_up = 2; down_avg = 3; up_avg = 2 }
unfolding initialized count_initialized
initialized_runs = refl

-- The scores are 96, 150 and 252.
variable_selection_runs : variable_selection tenths costs fractional solution ≡ 2
unfolding variable_selection initialized count_initialized score_of max_of cost_of fraction select
variable_selection_runs = refl

strong_branching_runs :
    update_pseudo_costs_from_strong_branching tenths (2 ∷ []) solution (14 ∷ []) (9 ∷ []) costs
    ≡ record {
      sum_up = 4 ∷ 0 ∷ 12 ∷ [];
      sum_down = 6 ∷ 0 ∷ 10 ∷ [];
      num_up = 2 ∷ 0 ∷ 4 ∷ [];
      num_down = 2 ∷ 0 ∷ 3 ∷ [];
    }
unfolding update_pseudo_costs_from_strong_branching record_change fraction
strong_branching_runs = refl

nat_order : IsStrict nat_num
nat_order = record { irreflexive = λ a. ground arith; transitive = λ a b c e f. ground arith }

variable_selection_example :
    (a : ℕ) × IsBest 0 0 fractional
      (λ k. score_of tenths costs (initialized tenths costs) solution (at fractional k))
      3
      (variable_selection tenths costs fractional solution)
      a
variable_selection_example = variable_selection-IsBest nat_order tenths costs fractional solution

get_partitioning_example :
    let part = get_partitioning 10 4 in
    ((part 0).0 ≡ 0)
    × ((t : ℕ) → suc t < 4 → (part (suc t)).0 ≡ (part t).1)
    × ((part 3).1 ≡ 10)
    × ((t : ℕ) → ((part t).1 ≡ (part t).0 + 2) ⊎ ((part t).1 ≡ (part t).0 + 2 + 1))
get_partitioning_example = get_partitioning-Covers 10 4 (omega arith)
