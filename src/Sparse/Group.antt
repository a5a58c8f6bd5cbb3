-- ===== src/Sparse/Group.antt =====
-- The bucket sort of cpp/src/dual_simplex/sparse_matrix.cpp, which `coo_to_csc`,
-- `to_compressed_row`, `to_compressed_col` and `transpose` share: count the keys, turn the counts
-- into starts with `cumulative_sum`, place the entries.
use nvcuopt.Prelude.{
  ℕ, zero, suc, ◌+◌, ◌-◌, ◌≤◌, ◌<◌, ◌≡◌, refl, ◌∙◌, List, [], ◌∷◌, arith, ltb, if◌then◌else◌,
  length, length-map, All,
}
use nvcuopt.Prelude.Num.{Num}
use nvcuopt.Sparse.Matrix.{at, Sums, cumulative_sum, Placed}
use nvcuopt.Sparse.Bucket.{Entry, count, bucket, keys}
use nvcuopt.Sparse.Sums.{sum_before, sum_before_mono, IsCumulative, cumulative_sum-IsCumulative}
use nvcuopt.Sparse.Place.{place_all, place_all-Filled, Room}
use nvcuopt.Sparse.Layout.{Layout, segment}

-- The keys below m.
count_below : List ℕ → ℕ → ℕ
count_below ks zero = 0
count_below ks (suc m) = count_below ks m + count m ks

count_below-nil : (m : ℕ) → count_below [] m ≡ 0
unfolding count_below
count_below-nil zero = refl
count_below-nil (suc m) = omega (arith, count_below-nil m)

count_below-cons :
    (k : ℕ) (ks : List ℕ) (m : ℕ)
    → count_below (k ∷ ks) m ≡ (if ltb k m then 1 else 0) + count_below ks m
unfolding count_below
count_below-cons k ks zero = ground arith
count_below-cons k ks (suc m) = ground (arith, count_below-cons k ks m)

count_below-length : (m : ℕ) (ks : List ℕ) → All (λ k. k < m) ks → count_below ks m ≡ length ks
count_below-length m [] h = count_below-nil m
count_below-length m (k ∷ ks) h =
    ground (arith, count_below-cons k ks m, count_below-length m ks h.1)

sum_before-count :
    (ks ws : List ℕ) (m k : ℕ)
    → ((r : ℕ) → r < m → at ws r ≡ count r ks)
    → k ≤ m
    → sum_before ws k ≡ count_below ks k
unfolding count_below
sum_before-count ks ws m zero h le = refl
sum_before-count ks ws m (suc k) h le =
    omega (arith, h k (omega arith), sum_before-count ks ws m k h (omega arith))

module _ {F : Type 0} ⦃num : Num F⦄ where
  -- R is a layout of m segments, and segment r is the bucket of r among the entries.
  pub record IsGrouped (m : ℕ) (es : List (Entry F)) (R : Layout F) : Type 0 where
    pub starts_size : length R.starts ≡ suc m
    pub first : at R.starts 0 ≡ 0
    pub next : (r : ℕ) → r < m → at R.starts (suc r) ≡ at R.starts r + count r (keys es)
    pub last : at R.starts m ≡ length es
    pub index_room : length es ≤ length R.index
    pub value_room : length es ≤ length R.value
    pub segments : (r : ℕ) → r < m → segment R r ≡ bucket r es

  module _ (m : ℕ) (es : List (Entry F)) (counts out : List ℕ) (index : List ℕ) (value : List F)
      (size : length counts ≡ m) (counted : (r : ℕ) → r < m → at counts r ≡ count r (keys es))
      (keyed : All (λ k. k < m) (keys es)) (out_size : length out ≡ suc m)
      (index_room : length es ≤ length index) (value_room : length es ≤ length value) where
    abbrev sums : Sums
    sums = cumulative_sum counts out

    abbrev before : Placed F
    before = record { workspace = sums.inout; index = index; value = value }

    abbrev after : Placed F
    after = place_all es before

    summed : IsCumulative counts sums
    summed = cumulative_sum-IsCumulative counts out (omega arith)

    total : sum_before counts m ≡ length es
    total =
        sum_before-count (keys es) counts m m counted (omega arith)
        ∙ count_below-length m (keys es) keyed
        ∙ length-map (λ e. e.0) es

    Room-before : Room m es before
    Room-before = record {
      width = omega (arith, summed.sizes);
      keyed = keyed;
      apart = λ r t lt below. omega (
        arith,
        counted r (omega arith),
        summed.inout_sum r (omega arith),
        summed.inout_sum t (omega arith),
        sum_before_mono counts (suc r) t lt,
      );
      fits = λ r lt. omega (
        arith,
        total,
        counted r lt,
        summed.inout_sum r (omega arith),
        sum_before_mono counts (suc r) m lt,
      );
    }

    pub regroup-IsGrouped :
        IsGrouped m es (record { starts = sums.output; index = after.index; value = after.value })
    regroup-IsGrouped =
        let filled = place_all-Filled m es before Room-before in
        record {
          starts_size = omega (arith, summed.sizes);
          first = summed.output_sum 0 (omega arith);
          next = λ r lt. omega (
            arith,
            counted r lt,
            summed.output_sum r (omega arith),
            summed.output_sum (suc r) (omega arith),
          );
          last = omega (arith, total, summed.output_sum m (omega arith));
          index_room = omega (arith, filled.index_size);
          value_room = omega (arith, filled.value_size);
          segments = λ r lt.
              let same : at sums.output r ≡ at sums.inout r =
                omega
                  (arith, summed.output_sum r (omega arith), summed.inout_sum r (omega arith)) in
              let wide : at sums.output (suc r) - at sums.inout r ≡ count r (keys es) = omega (
                arith,
                counted r lt,
                summed.output_sum (suc r) (omega arith),
                summed.inout_sum r (omega arith),
              ) in
              rw (same, wide) (filled.filled r lt);
        }
