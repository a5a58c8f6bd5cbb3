-- ===== src/PseudoCosts.antt =====
-- cpp/src/dual_simplex/pseudo_costs.cpp and its header: the pseudo costs of the variables, by which
-- branch and bound chooses the next variable, and how the strong branching is shared out among the
-- threads. std::floor, std::ceil, the conversion from i_t to f_t and the constant eps are arguments.
mod Selection
mod Partition
mod Tests
use nvcuopt.Prelude.{
  ℕ, suc, ◌+◌, ◌*◌, ◌/◌, ◌%◌, List, Option, none, some, length, set, replicate, for_loop, ltb, ◌==◌,
  if◌then◌else◌, ◌>>=◌,
}
use nvcuopt.Prelude.Num.{Num}
use nvcuopt.Sparse.Matrix.{at, val}
use nvcuopt.Tree.{MipNode}

-- pseudo_costs_t; the fields have the code's names without pseudo_cost_.
pub record PseudoCosts (F : Type 0) : Type 0 where
  pub sum_up : List F
  pub sum_down : List F
  pub num_up : List ℕ
  pub num_down : List ℕ

-- What the code takes from the standard library and from its number types.
pub record Rounding (F : Type 0) : Type 0 where
  pub floor : F → F
  pub ceil : F → F
  pub from_int : ℕ → F
  pub eps : F

-- The results of `initialized`.
pub record Averages (F : Type 0) : Type 0 where
  pub num_initialized_down : ℕ
  pub num_initialized_up : ℕ
  pub down_avg : F
  pub up_avg : F

-- begin and end of thread tid.
unfoldable pub get_partitioning : ℕ → ℕ → ℕ → ℕ × ℕ
get_partitioning N num_threads tid =
    let base_tasks = N / num_threads in
    let remaining_tasks = N % num_threads in
    if ltb tid remaining_tasks
    then (tid * (base_tasks + 1), tid * (base_tasks + 1) + base_tasks + 1)
    else (tid * base_tasks + remaining_tasks, tid * base_tasks + remaining_tasks + base_tasks)

module _ {F : Type 0} ⦃num : Num F⦄ where
  -- Adds change_in_obj / frac in the direction `branch`, 0 for down, of variable j.
  unfoldable pub record_change : ℕ → ℕ → F → F → PseudoCosts F → PseudoCosts F
  record_change branch j change_in_obj frac pc =
      if branch == 0
      then record pc {
        sum_down = set pc.sum_down j (num.add (val pc.sum_down j) (num.div change_in_obj frac));
        num_down = set pc.num_down j (at pc.num_down j + 1);
      }
      else record pc {
        sum_up = set pc.sum_up j (num.add (val pc.sum_up j) (num.div change_in_obj frac));
        num_up = set pc.num_up j (at pc.num_up j + 1);
      }

  -- The distance of a value to the bound of the branch.
  unfoldable pub fraction : Rounding F → ℕ → F → F
  fraction R branch a = if branch == 0 then num.sub a (R.floor a) else num.sub (R.ceil a) a

  -- `none` stands for the access with the branch variable of a node that has none.
  unfoldable pub update_pseudo_costs :
      Rounding F → MipNode F → F → PseudoCosts F → Option (PseudoCosts F)
  unfolding record_change fraction
  update_pseudo_costs R node leaf_objective pc = do
    j ← node.branch_var
    some (
        record_change node.branch_dir j (num.sub leaf_objective node.lower_bound)
          (fraction R node.branch_dir node.fractional_val) pc)

  unfoldable pub update_pseudo_costs_from_strong_branching :
      Rounding F → List ℕ → List F → List F → List F → PseudoCosts F → PseudoCosts F
  unfolding record_change fraction
  update_pseudo_costs_from_strong_branching R fractional root_soln strong_branch_down
        strong_branch_up pc =
      for_loop 0 (length fractional)
        (λ k pc.
          let j = at fractional k in
          for_loop 0 2
            (λ branch pc.
              record_change branch j
                (if branch == 0 then val strong_branch_down k else val strong_branch_up k)
                (fraction R branch (val root_soln j)) pc)
            pc)
        pc

  -- One round of the loop of `initialized`.
  unfoldable pub count_initialized : Rounding F → PseudoCosts F → ℕ → Averages F → Averages F
  count_initialized R pc j a =
      let b =
        if ltb 0 (at pc.num_down j)
        then record a {
          num_initialized_down = a.num_initialized_down + 1;
          down_avg =
              num.add a.down_avg (num.div (val pc.sum_down j) (R.from_int (at pc.num_down j)));
        }
        else a in
      if ltb 0 (at pc.num_up j)
      then record b {
        num_initialized_up = b.num_initialized_up + 1;
        up_avg = num.add b.up_avg (num.div (val pc.sum_up j) (R.from_int (at pc.num_up j)));
      }
      else b

  unfoldable pub initialized : Rounding F → PseudoCosts F → Averages F
  unfolding count_initialized
  initialized R pc =
      let a = for_loop 0 (length pc.sum_down) (count_initialized R pc) (record {
        num_initialized_down = 0;
        num_initialized_up = 0;
        down_avg = num.nought;
        up_avg = num.nought;
      }) in
      record a {
        down_avg =
            if ltb 0 a.num_initialized_down
            then num.div a.down_avg (R.from_int a.num_initialized_down)
            else num.one;
        up_avg =
            if ltb 0 a.num_initialized_up
            then num.div a.up_avg (R.from_int a.num_initialized_up)
            else num.one;
      }

  -- std::max
  unfoldable pub max_of : F → F → F
  max_of a b = if num.lt a b then b else a

  -- The pseudo cost of variable j, or the average of the others.
  unfoldable pub cost_of : Rounding F → List F → List ℕ → F → ℕ → F
  cost_of R sums nums avg j =
      if at nums j == 0 then avg else num.div (val sums j) (R.from_int (at nums j))

  -- The score of variable j.
  unfoldable pub score_of : Rounding F → PseudoCosts F → Averages F → List F → ℕ → F
  unfolding max_of cost_of fraction
  score_of R pc a solution j =
      num.mul
        (max_of
          (num.mul (fraction R 0 (val solution j)) (cost_of R pc.sum_down pc.num_down a.down_avg j))
          R.eps)
        (max_of (num.mul (fraction R 1 (val solution j)) (cost_of R pc.sum_up pc.num_up a.up_avg j))
          R.eps)

  -- One round of the loop that finds the largest score, on branch_var and max_score.
  unfoldable pub select : List ℕ → List F → ℕ → ℕ × F → ℕ × F
  select fractional score k (branch_var, max_score) =
      if num.lt max_score (val score k)
      then (at fractional k, val score k)
      else (branch_var, max_score)

  -- The code reads fractional[0] of an empty list, which is undefined, and has a value here. The call
  -- of the log, which reads score[-1] where no score is above -1, is left out.
  unfoldable pub variable_selection : Rounding F → PseudoCosts F → List ℕ → List F → ℕ
  unfolding initialized score_of select
  variable_selection R pc fractional solution =
      let n = length fractional in
      let a = initialized R pc in
      let score =
        for_loop 0 n (λ k s. set s k (score_of R pc a solution (at fractional k)))
          (replicate n num.nought) in
      (for_loop 0 n (select fractional score) (at fractional 0, num.sub num.nought num.one)).0
