-- ===== src/Sparse/Sums.antt =====
-- `cumulative_sum` of cpp/src/dual_simplex/sparse_matrix.cpp.
use nvcuopt.Prelude.{
  ℕ, zero, suc, ◌+◌, ◌≤◌, ◌<◌, ◌≡◌, refl, List, arith, length, set, length-set, get_or-set,
  for_loop, for_loop_inv,
}
use nvcuopt.Sparse.Matrix.{at, Sums, cumulate, cumulative_sum}

-- The sum of the first k entries.
abbrev pub sum_before : List ℕ → ℕ → ℕ
sum_before xs zero = 0
sum_before xs (suc k) = sum_before xs k + at xs k

pub sum_before_mono : (xs : List ℕ) (k n : ℕ) → k ≤ n → sum_before xs k ≤ sum_before xs n
sum_before_mono xs k zero h = let e : k ≡ 0 = omega arith in rw e (omega arith)
sum_before_mono xs k (suc n) h = ground (arith, sum_before_mono xs k n)

-- What `cumulative_sum` computes: both arrays hold the sums of the entries before each index, and
-- the last place of the longer one the sum of them all.
pub record IsCumulative (inout : List ℕ) (s : Sums) : Type 0 where
  pub sizes : (length s.inout ≡ length inout) × (length s.output ≡ suc (length inout))
  pub inout_sum : (r : ℕ) → r < length inout → at s.inout r ≡ sum_before inout r
  pub output_sum : (r : ℕ) → r ≤ length inout → at s.output r ≡ sum_before inout r

module _ (inout output : List ℕ) where
  -- The state of the loop of `cumulative_sum` before round k.
  record Cumulated (k : ℕ) (s : Sums) : Type 0 where
    sizes : (length s.inout ≡ length inout) × (length s.output ≡ length output)
    total : s.nz ≡ sum_before inout k
    starts :
        (r : ℕ) → r < k → (at s.inout r ≡ sum_before inout r) × (at s.output r ≡ sum_before inout r)
    rest : (r : ℕ) → k ≤ r → at s.inout r ≡ at inout r

  Cumulated-cumulate :
      length output ≡ suc (length inout)
      → (k : ℕ) (s : Sums) → k < length inout
      → Cumulated k s
      → Cumulated (suc k) (cumulate k s)
  unfolding cumulate
  Cumulated-cumulate e k s lt h = record {
    sizes =
        omega
          (arith, length-set s.inout k (at (set s.output k s.nz) k), length-set s.output k s.nz);
    total = omega (arith, h.rest k);
    starts = λ r lt'. ground (
      arith,
      h.starts r,
      get_or-set s.output k k s.nz 0,
      get_or-set s.output k r s.nz 0,
      get_or-set s.inout k r (at (set s.output k s.nz) k) 0,
    );
    rest = λ r lt'. ground (arith, h.rest r, get_or-set s.inout k r (at (set s.output k s.nz) k) 0);
  }

  -- When the second array is one longer than the first, both end up with the sum of the entries before
  -- each index, and the second one's last place with the sum of them all.
  pub cumulative_sum-IsCumulative :
      length output ≡ suc (length inout) → IsCumulative inout (cumulative_sum inout output)
  unfolding cumulative_sum
  cumulative_sum-IsCumulative e = record {
    sizes = omega (arith, looped.sizes, length-set t.output n t.nz);
    inout_sum = λ r lt. (looped.starts r lt).0;
    output_sum = λ r le.
        ground (arith, looped.starts r, looped.sizes, looped.total, get_or-set t.output n r t.nz 0);
  }
    where
      n : ℕ
      n = length inout

      s0 : Sums
      s0 = record { inout = inout; output = output; nz = 0 }

      t : Sums
      t = for_loop 0 n cumulate s0

      looped : Cumulated n t
      looped =
          for_loop_inv Cumulated cumulate 0 n (omega arith) (λ p u a b. Cumulated-cumulate e p u b)
            s0
            (record {
              sizes = (refl, refl);
              total = refl;
              starts = λ r lt. absurd (omega arith);
              rest = λ r le. refl;
            })
