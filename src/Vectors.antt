-- ===== src/Vectors.antt =====
-- cpp/src/dual_simplex/vector_math.cpp: permutations of vectors, and products of dense and sparse
-- vectors (the sparse ones stand in sparse_matrix.cpp too, one of them with a column of a matrix).
-- The status that the permutations return is always 0 and is left out.
pub mod Permute
pub mod SparseDot
pub mod Norm
pub mod Update
mod Tests
use nvcuopt.Prelude.{
  ℕ, zero, suc, ◌+◌, ◌-◌, List, Option, none, some, ◌==◌, ltb, ◌&&◌, if◌then◌else◌, length, set,
  resize, for_loop,
}
use nvcuopt.Prelude.Num.{Num}
use nvcuopt.Sparse.Matrix.{Csc, at, val}

-- pinv is resized when it has another size.
unfoldable pub inverse_permutation : List ℕ → List ℕ → List ℕ
inverse_permutation p pinv =
    let n = length p in
    let sized = if length pinv == n then pinv else resize n 0 pinv in
    for_loop 0 n (λ k v. set v (at p k) k) sized

module _ {F : Type 0} ⦃num : Num F⦄ where
  -- x = b(p)
  unfoldable pub permute_vector : List ℕ → List F → List F → List F
  permute_vector p b x = for_loop 0 (length p) (λ k v. set v k (val b (at p k))) x

  -- x(p) = b
  unfoldable pub inverse_permute_vector : List ℕ → List F → List F → List F
  inverse_permute_vector p b x = for_loop 0 (length p) (λ k v. set v (at p k) (val b k)) x

  -- One round of the loop in `vector_norm_inf`.
  unfoldable pub larger : (F → F) → List F → ℕ → F → F
  larger abs x j a = let t = abs (val x j) in if num.lt a t then t else a

  -- abs is std::abs.
  unfoldable pub vector_norm_inf : (F → F) → List F → F
  unfolding larger
  vector_norm_inf abs x = for_loop 0 (length x) (larger abs x) num.nought

  unfoldable pub vector_norm2_squared : List F → F
  vector_norm2_squared x =
      for_loop 0 (length x) (λ j sum. num.add sum (num.mul (val x j) (val x j))) num.nought

  -- sqrt is std::sqrt.
  unfoldable pub vector_norm2 : (F → F) → List F → F
  unfolding vector_norm2_squared
  vector_norm2 sqrt x = sqrt (vector_norm2_squared x)

  unfoldable pub dot : List F → List F → F
  dot x y = for_loop 0 (length x) (λ k s. num.add s (num.mul (val x k) (val y k))) num.nought

  -- One round of the loop in `sparse_dot`, on i, the position in the other vector, and the sum.
  unfoldable pub advance : List ℕ → List ℕ → (ℕ → ℕ → F) → ℕ × ℕ × F → ℕ × ℕ × F
  advance xind yind product (i, k, dot) =
      let p = at xind i in
      let q = at yind k in
      if p == q
      then (suc i, suc k, num.add dot (product i k))
      else if ltb p q
      then (suc i, k, dot)
      else (i, suc k, dot)

  -- The loop, over xind to nx and over yind to ny, adding `product i k` where the indices agree.
  -- With the fuel used up it has no result.
  unfoldable pub merge : List ℕ → ℕ → List ℕ → ℕ → (ℕ → ℕ → F) → ℕ → ℕ × ℕ × F → Option F
  unfolding advance
  merge xind nx yind ny product zero (i, k, dot) = if ltb i nx && ltb k ny then none else some dot
  merge xind nx yind ny product (suc fuel) (i, k, dot) =
      let rest = merge xind nx yind ny product fuel (advance xind yind product (i, k, dot)) in
      if ltb i nx && ltb k ny then rest else some dot

  unfoldable pub sparse_dot : List ℕ → List F → List ℕ → List F → Option F
  unfolding merge
  sparse_dot xind xval yind yval =
      let nx = length xind in
      let ny = length yind in
      merge xind nx yind ny (λ i j. num.mul (val xval i) (val yval j)) (nx + ny) (0, 0, num.nought)

  -- The same with column y_col of Y.
  unfoldable pub sparse_dot_column : List ℕ → List F → Csc F → ℕ → Option F
  unfolding merge
  sparse_dot_column xind xval Y y_col =
      let nx = length xind in
      let col_start = at Y.col_start y_col in
      let col_end = at Y.col_start (suc y_col) in
      merge xind nx Y.i col_end (λ i k. num.mul (val Y.x k) (val xval i))
        (nx + (col_end - col_start)) (0, col_start, num.nought)
