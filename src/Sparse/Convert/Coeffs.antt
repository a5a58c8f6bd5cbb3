-- ===== src/Sparse/Convert/Coeffs.antt =====
-- Which values stand at which place, before and after the conversions of
-- cpp/src/dual_simplex/sparse_matrix.cpp.
use mathlib.Core.List.{append-nil}
use nvcuopt.Prelude.{
  ℕ, zero, suc, ◌+◌, ◌≤◌, ◌<◌, ◌≡◌, refl, ap, ap₂, ◌∙◌, List, [], ◌∷◌, ◌++◌, map, arith, ◌==◌, ltb,
  leb, ◌&&◌, if◌then◌else◌, span, All, All-append,
}
use nvcuopt.Prelude.Num.{Num}
use nvcuopt.Sparse.Matrix.{at, val}
use nvcuopt.Sparse.Bucket.{Entry, bucket}
use nvcuopt.Sparse.Layout.{Layout, segment, entry, keyed_segment, keyed_from, width, IsLayout}
use nvcuopt.Sparse.Group.{IsGrouped}

module _ {F : Type 0} where
  -- The values that stand at index i, in the order in which they are stored.
  abbrev pub values : ℕ → List (ℕ × F) → List F
  values i [] = []
  values i ((c, v) ∷ l) = if c == i then v ∷ values i l else values i l

  pub values-append : (i : ℕ) (k l : List (ℕ × F)) → values i (k ++ l) ≡ values i k ++ values i l
  values-append i [] l = refl
  values-append i ((c, v) ∷ k) l = ground (arith, values-append i k l)

  pub bucket-append :
      (r : ℕ) (es fs : List (Entry F)) → bucket r (es ++ fs) ≡ bucket r es ++ bucket r fs
  bucket-append r [] fs = refl
  bucket-append r ((k, c, v) ∷ es) fs = ground (arith, bucket-append r es fs)

module _ {F : Type 0} ⦃num : Num F⦄ where
  -- The values that segment j of a layout holds at index i.
  abbrev pub coeffs : Layout F → ℕ → ℕ → List F
  coeffs L j i = values i (segment L j)

  values-bucket :
      (L : Layout F) (lo j r : ℕ) (ps : List ℕ)
      → values j (bucket r (map (λ p. (at L.index p, lo, val L.value p)) ps))
        ≡ (if lo == j then values r (map (entry L) ps) else [])
  values-bucket L lo j r [] = ground arith
  values-bucket L lo j r (p ∷ ps) = ground (arith, values-bucket L lo j r ps)

  join_first :
      (P : ℕ → List F) (lo j hi : ℕ)
      → lo < hi
      → (if lo == j then P lo else []) ++ (if leb (suc lo) j && ltb j hi then P j else [])
        ≡ (if leb lo j && ltb j hi then P j else [])
  join_first P lo j hi lt = ground (arith, append-nil (P lo))

  coeffs-from :
      (L : Layout F) (j r lo k hi : ℕ)
      → lo + k ≡ hi
      → values j (bucket r (keyed_from L lo k))
        ≡ (if leb lo j && ltb j hi then coeffs L j r else [])
  coeffs-from L j r lo zero hi e = ground arith
  coeffs-from L j r lo (suc k) hi e =
      ap (values j) (bucket-append r (keyed_segment L lo) (keyed_from L (suc lo) k))
      ∙ values-append j (bucket r (keyed_segment L lo)) (bucket r (keyed_from L (suc lo) k))
      ∙ ap₂ ◌++◌ (values-bucket L lo j r (span (at L.starts lo) (width L lo)))
          (coeffs-from L j r (suc lo) k hi (omega arith))
      ∙ join_first (λ t. coeffs L t r) lo j hi (omega arith)

  -- Bucket sort by index swaps the two coordinates and loses nothing.
  pub IsGrouped-coeffs :
      (n m : ℕ) (L R : Layout F)
      → IsGrouped m (keyed_from L 0 n) R
      → (r j : ℕ) → r < m
      → j < n
      → coeffs R r j ≡ coeffs L j r
  IsGrouped-coeffs n m L R g r j rm jn =
      ap (values j) (g.segments r rm) ∙ coeffs-from L j r 0 n n (omega arith) ∙ ground arith

  All-bucket :
      (n j r : ℕ) (L : Layout F) (ps : List ℕ)
      → j < n
      → All (λ e. e.0 < n) (bucket r (map (λ p. (at L.index p, j, val L.value p)) ps))
  All-bucket n j r L [] lt = tt
  All-bucket n j r L (p ∷ ps) lt = ground (arith, All-bucket n j r L ps lt)

  bucket-All :
      (n r lo k : ℕ) (L : Layout F) → lo + k ≤ n → All (λ e. e.0 < n) (bucket r (keyed_from L lo k))
  bucket-All n r lo zero L le = tt
  bucket-All n r lo (suc k) L le =
      rw (bucket-append r (keyed_segment L lo) (keyed_from L (suc lo) k)) (
        All-append (λ e. e.0 < n) (bucket r (keyed_segment L lo)) _
          (All-bucket n lo r L (span (at L.starts lo) (width L lo)) (omega arith))
          (bucket-All n r (suc lo) k L (omega arith)))

  -- The sorted layout is well formed, with the numbers of segments and indices exchanged.
  pub IsGrouped-IsLayout :
      (n m : ℕ) (L R : Layout F) → IsGrouped m (keyed_from L 0 n) R → IsLayout m n R
  IsGrouped-IsLayout n m L R g = record {
    starts_size = g.starts_size;
    first = g.first;
    rising = λ j lt. omega (arith, g.next j lt);
    index_room = omega (arith, g.last, g.index_room);
    value_room = omega (arith, g.last, g.value_room);
    bounded = λ j lt. rw (g.segments j lt) (bucket-All n j 0 n L (omega arith));
  }
