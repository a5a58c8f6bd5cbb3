-- ===== src/Vectors/Permute.antt =====
-- The permutations of cpp/src/dual_simplex/vector_math.cpp.
use nvcuopt.Prelude.{
  ℕ, ◌<◌, ◌≡◌, sym, ap, ◌∙◌, List, arith, ◌==◌, inl, inr, Bool-cases, ==_iff, length, length-set,
  length-resize, get_or, get_or-set_self, get_or-set_ne, list_ext, set, resize, for_loop,
  for_loop_inv, if◌then◌else◌,
}
use nvcuopt.Prelude.Marks.{below_surjective}
use nvcuopt.Prelude.Num.{Num}
use nvcuopt.Sparse.Matrix.{at, val}
use nvcuopt.Vectors.{inverse_permutation, permute_vector, inverse_permute_vector}

-- r says where in p each index stands.
pub record IsInverse (p r : List ℕ) : Type 0 where
  pub size : length r ≡ length p
  pub back : (k : ℕ) → k < length p → at r (at p k) ≡ k
  pub forth : (i : ℕ) → i < length p → at p (at r i) ≡ i

-- p lists indices below its length, each once.
pub record IsPermutation (p : List ℕ) : Type 0 where
  pub in_range : (k : ℕ) → k < length p → at p k < length p
  pub injective : (i k : ℕ) → i < length p → k < length p → at p i ≡ at p k → i ≡ k

-- A permutation takes every index below its length.
IsPermutation-surjective :
    (p : List ℕ)
    → IsPermutation p
    → (r : ℕ) → r < length p
    → (k : ℕ) × (k < length p) × (at p k ≡ r)
IsPermutation-surjective p h = below_surjective (length p) (at p) h.in_range h.injective

-- Writing f k to place p[k] for each k leaves f k at p[k].
scattered {ℓ} :
    {A : Type ℓ} (d : A) (p : List ℕ) (f : ℕ → A) (x : List A)
    → IsPermutation p
    → length x ≡ length p
    → let y = for_loop 0 (length p) (λ k v. set v (at p k) (f k)) x in
      (length y ≡ length p) × ((k : ℕ) → k < length p → get_or y (at p k) d ≡ f k)
scattered d p f x h size =
    for_loop_inv (λ j y. (length y ≡ length p) × ((k : ℕ) → k < j → get_or y (at p k) d ≡ f k))
      (λ k v. set v (at p k) (f k)) 0 (length p) (omega arith)
      (λ j y _ lt inv. (
        length-set y (at p j) (f j) ∙ inv.0,
        λ k below. elim (Bool-cases (k == j)) [
          | inl hit ↦
              let e : k ≡ j = ground arith in
              rw e (get_or-set_self y (at p j) (f j) d (omega (arith, inv.0, h.in_range j lt)))
          | inr miss ↦
              get_or-set_ne y (at p j) (at p k) (f j) d
                (λ e. let same = h.injective j k lt (omega arith) e in ground (arith, same))
              ∙ inv.1 k (ground arith)
        ],
      ))
      x (size, λ k lt. absurd (omega arith))

-- Writing f k to place k for each k gives the values of f.
written {ℓ} :
    {A : Type ℓ} (d : A) (n : ℕ) (f : ℕ → A) (x : List A)
    → length x ≡ n
    → let y = for_loop 0 n (λ k v. set v k (f k)) x in
      (length y ≡ n) × ((k : ℕ) → k < n → get_or y k d ≡ f k)
written d n f x size =
    for_loop_inv (λ j y. (length y ≡ n) × ((k : ℕ) → k < j → get_or y k d ≡ f k))
      (λ k v. set v k (f k)) 0 n (omega arith)
      (λ j y _ lt inv. (
        length-set y j (f j) ∙ inv.0,
        λ k below. elim (Bool-cases (k == j)) [
          | inl hit ↦
              let e : k ≡ j = ground arith in
              rw e (get_or-set_self y j (f j) d (omega (arith, inv.0)))
          | inr miss ↦ get_or-set_ne y j k (f j) d (ground arith) ∙ inv.1 k (ground arith)
        ],
      ))
      x (size, λ k lt. absurd (omega arith))

-- For a permutation p, whatever pinv held and whatever its size, `inverse_permutation` gives the
-- inverse: pinv[p[k]] = k and p[pinv[i]] = i for all indices.
pub inverse_permutation-IsInverse :
    (p pinv : List ℕ) → IsPermutation p → IsInverse p (inverse_permutation p pinv)
unfolding inverse_permutation
inverse_permutation-IsInverse p pinv h =
    let sized = if length pinv == length p then pinv else resize (length p) 0 pinv in
    let size : length sized ≡ length p = elim (Bool-cases (length pinv == length p)) [
      | inl same ↦ rw same ((==_iff (length pinv) (length p)).0 same)
      | inr other ↦ rw other (length-resize (length p) 0 pinv)
    ] in
    let (len, back) = scattered 0 p (λ k. k) sized h size in
    record {
      size = len;
      back = back;
      forth = λ i lt.
          let (k, below, e) = IsPermutation-surjective p h i lt in
          rw (← e) (ap (at p) (back k below));
    }

module _ {F : Type 0} ⦃num : Num F⦄ where
  -- For a permutation p and vectors of its length, permuting after permuting inversely gives the
  -- vector back.
  pub permute_vector-inverse_permute_vector :
      (p : List ℕ) (b x y : List F)
      → IsPermutation p
      → length b ≡ length p
      → length x ≡ length p
      → length y ≡ length p
      → permute_vector p (inverse_permute_vector p b x) y ≡ b
  unfolding permute_vector inverse_permute_vector
  permute_vector-inverse_permute_vector p b x y h hb hx hy =
      let z = inverse_permute_vector p b x in
      let (_, put) = scattered num.nought p (val b) x h hx in
      let (len, got) = written num.nought (length p) (λ k. val z (at p k)) y hy in
      list_ext num.nought _ b (len ∙ sym hb)
        (λ k lt. got k (omega (arith, len)) ∙ put k (omega (arith, len)))

  -- For a permutation p and vectors of its length, permuting inversely after permuting gives the
  -- vector back.
  pub inverse_permute_vector-permute_vector :
      (p : List ℕ) (b x y : List F)
      → IsPermutation p
      → length b ≡ length p
      → length x ≡ length p
      → length y ≡ length p
      → inverse_permute_vector p (permute_vector p b x) y ≡ b
  unfolding permute_vector inverse_permute_vector
  inverse_permute_vector-permute_vector p b x y h hb hx hy =
      let z = permute_vector p b x in
      let (_, got) = written num.nought (length p) (λ k. val b (at p k)) x hx in
      let (len, put) = scattered num.nought p (val z) y h hy in
      list_ext num.nought _ b (len ∙ sym hb) (λ i lt.
        let (k, below, e) = IsPermutation-surjective p h i (omega (arith, len)) in
        rw (← e) (put k below ∙ got k below))
