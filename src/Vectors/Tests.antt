-- ===== src/Vectors/Tests.antt =====
-- Runs of the vector operations of cpp/src/dual_simplex/vector_math.cpp.
use nvcuopt.Prelude.{ℕ, suc, ◌<◌, ◌≡◌, refl, [], ◌∷◌, arith, some, All, All-span, span}
use nvcuopt.Prelude.Num.{nat_num}
use nvcuopt.Sparse.Matrix.{Csc, at}
use nvcuopt.Vectors.{inverse_permutation, sparse_dot, vector_norm_inf, vector_norm2}
use nvcuopt.Vectors.Norm.{IsStrict}
use nvcuopt.Vectors.Permute.{IsPermutation, IsInverse, inverse_permutation-IsInverse}
use nvcuopt.Vectors.SparseDot.{IsIncreasing, sparse_dot-matches}

inverse_permutation_runs : inverse_permutation (2 ∷ 0 ∷ 1 ∷ []) [] ≡ 1 ∷ 2 ∷ 0 ∷ []
unfolding inverse_permutation
inverse_permutation_runs = refl

sparse_dot_runs :
    sparse_dot {F = ℕ} (1 ∷ 3 ∷ 4 ∷ []) (10 ∷ 20 ∷ 30 ∷ []) (0 ∷ 3 ∷ 4 ∷ []) (5 ∷ 6 ∷ 7 ∷ [])
    ≡ some 330
unfolding sparse_dot
sparse_dot_runs = refl

rotation-IsPermutation : IsPermutation (2 ∷ 0 ∷ 1 ∷ [])
rotation-IsPermutation = record {
  in_range = λ k lt. All-span (λ k. at (2 ∷ 0 ∷ 1 ∷ []) k < 3) 0 3 (omega arith) k (omega arith) lt;
  injective = λ i k il kl e.
      All-span (λ b. at (2 ∷ 0 ∷ 1 ∷ []) i ≡ at (2 ∷ 0 ∷ 1 ∷ []) b → i ≡ b) 0 3
        (All-span (λ a. All (λ b. at (2 ∷ 0 ∷ 1 ∷ []) a ≡ at (2 ∷ 0 ∷ 1 ∷ []) b → a ≡ b) (span 0 3))
          0 3 (omega arith) i (omega arith) il)
        k (omega arith) kl e;
}

inverse_permutation_example :
    IsInverse (2 ∷ 0 ∷ 1 ∷ []) (inverse_permutation (2 ∷ 0 ∷ 1 ∷ []) (7 ∷ []))
inverse_permutation_example =
    inverse_permutation-IsInverse (2 ∷ 0 ∷ 1 ∷ []) (7 ∷ []) rotation-IsPermutation

rising : IsIncreasing (1 ∷ 3 ∷ 4 ∷ []) 0 3
rising a b _ ab lt =
    All-span (λ i. a < i → at (1 ∷ 3 ∷ 4 ∷ []) a < at (1 ∷ 3 ∷ 4 ∷ []) i) 0 3
      (All-span (λ j. All (λ i. j < i → at (1 ∷ 3 ∷ 4 ∷ []) j < at (1 ∷ 3 ∷ 4 ∷ []) i) (span 0 3)) 0
        3 (omega arith) a (omega arith) (omega arith))
      b (omega arith) lt ab

sparse_dot_example :
    sparse_dot {F = ℕ} (1 ∷ 3 ∷ 4 ∷ []) (10 ∷ 20 ∷ 30 ∷ []) (1 ∷ 3 ∷ 4 ∷ []) (5 ∷ 6 ∷ 7 ∷ [])
    ≡ some 380
sparse_dot_example =
    sparse_dot-matches (1 ∷ 3 ∷ 4 ∷ []) (10 ∷ 20 ∷ 30 ∷ []) (1 ∷ 3 ∷ 4 ∷ []) (5 ∷ 6 ∷ 7 ∷ []) rising
      rising

-- One column with entries in rows 1, 3 and 4.
abbrev column : Csc ℕ
column = record {
  nz_max = 3;
  m = 5;
  n = 1;
  col_start = 0 ∷ 3 ∷ [];
  i = 1 ∷ 3 ∷ 4 ∷ [];
  x = 5 ∷ 6 ∷ 7 ∷ [];
}

vector_norm_inf_runs : vector_norm_inf {F = ℕ} (λ a. a) (3 ∷ 7 ∷ 2 ∷ []) ≡ 7
unfolding vector_norm_inf
vector_norm_inf_runs = refl

vector_norm2_runs : vector_norm2 {F = ℕ} (λ a. suc a) (3 ∷ 4 ∷ []) ≡ 26
unfolding vector_norm2
vector_norm2_runs = refl

nat_num-IsStrict : IsStrict nat_num
nat_num-IsStrict = record {
  irreflexive = λ a. ground arith;
  transitive = λ a b c e f. ground arith;
}
