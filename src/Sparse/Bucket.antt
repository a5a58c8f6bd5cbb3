-- ===== src/Sparse/Bucket.antt =====
-- Keyed entries and the buckets that they fall into: the reference for the counting loops of
-- cpp/src/dual_simplex/sparse_matrix.cpp.
use mathlib.Core.List.{foldl-map}
use nvcuopt.Prelude.{
  ℕ, suc, ◌+◌, ◌<◌, ◌≡◌, refl, sym, ◌∙◌, List, [], ◌∷◌, ◌++◌, map, foldl, arith, ◌==◌,
  if◌then◌else◌, length, span, for_loop-zero, length-set, get_or-set_self, get_or-set_ne,
}
use nvcuopt.Sparse.Matrix.{at, increment, count_keys}

-- A key, an index and a value.
abbrev pub Entry : Type 0 → Type 0
Entry F = ℕ × ℕ × F

-- How often `r` stands in a list.
abbrev pub count : ℕ → List ℕ → ℕ
count r [] = 0
count r (k ∷ ks) = (if k == r then 1 else 0) + count r ks

module _ {F : Type 0} where
  -- What is filed under `r`, in the order of the list.
  abbrev pub bucket : ℕ → List (Entry F) → List (ℕ × F)
  bucket r [] = []
  bucket r ((k, c, v) ∷ es) = if k == r then (c, v) ∷ bucket r es else bucket r es

  abbrev pub keys : List (Entry F) → List ℕ
  keys = map (λ e. e.0)

  pub length-bucket : (r : ℕ) (es : List (Entry F)) → length (bucket r es) ≡ count r (keys es)
  length-bucket r [] = refl
  length-bucket r ((k, c, v) ∷ es) = ground (arith, length-bucket r es)

pub count-append : (r : ℕ) (ks ls : List ℕ) → count r (ks ++ ls) ≡ count r ks + count r ls
count-append r [] ls = omega arith
count-append r (k ∷ ks) ls = omega (arith, count-append r ks ls)

pub length-increments : (ks ws : List ℕ) → length (foldl (λ w k. increment k w) ws ks) ≡ length ws
length-increments [] ws = refl
length-increments (k ∷ ks) ws =
    length-increments ks (increment k ws) ∙ length-set ws k (suc (at ws k))

pub at-increment :
    (ws : List ℕ) (k r : ℕ)
    → r < length ws
    → at (increment k ws) r ≡ at ws r + (if k == r then 1 else 0)
at-increment ws k r h =
    ground (arith, get_or-set_self ws k (suc (at ws k)) 0, get_or-set_ne ws k r (suc (at ws k)) 0)

pub at-increments :
    (ks ws : List ℕ) (r : ℕ)
    → r < length ws
    → at (foldl (λ w k. increment k w) ws ks) r ≡ at ws r + count r ks
at-increments [] ws r h = omega arith
at-increments (k ∷ ks) ws r h = omega (
  arith,
  at-increments ks (increment k ws) r (omega (arith, length-set ws k (suc (at ws k)))),
  at-increment ws k r h,
)

-- The keys that the counting loop reads.
abbrev pub read_keys : ℕ → List ℕ → List ℕ
read_keys nz v = map (at v) (span 0 nz)

pub count_keys_lem :
    (nz : ℕ) (v ws : List ℕ) → count_keys nz v ws ≡ foldl (λ w k. increment k w) ws (read_keys nz v)
unfolding count_keys
count_keys_lem nz v ws =
    for_loop-zero nz (λ p w. increment (at v p) w) ws
    ∙ sym (foldl-map (at v) (λ w k. increment k w) (span 0 nz) ws)

pub length-count_keys : (nz : ℕ) (v ws : List ℕ) → length (count_keys nz v ws) ≡ length ws
length-count_keys nz v ws = rw count_keys_lem (length-increments (read_keys nz v) ws)

-- The counting loop adds to each slot how often its index is read.
pub at-count_keys :
    (nz : ℕ) (v ws : List ℕ) (r : ℕ)
    → r < length ws
    → at (count_keys nz v ws) r ≡ at ws r + count r (read_keys nz v)
at-count_keys nz v ws r h = rw count_keys_lem (at-increments (read_keys nz v) ws r h)
