-- ===== src/Sparse/Layout.antt =====
-- What a compressed matrix holds, for the columns of csc_matrix_t and the rows of csr_matrix_t
-- (cpp/src/dual_simplex/sparse_matrix.hpp) alike: segments of (index, value) pairs.
use nvcuopt.Prelude.{
  ℕ, zero, suc, ◌+◌, ◌-◌, ◌≤◌, ◌<◌, ◌≡◌, refl, ap, ap₂, ◌∙◌, sym, List, [], ◌++◌, map, foldl, arith,
  length, span, span-append, All, for_loop, for_loop-zero, All-append, All-map,
}
use nvcuopt.Prelude.Num.{Num}
use nvcuopt.Sparse.Matrix.{Csc, Csr, at, val, Placed, place}
use nvcuopt.Sparse.Bucket.{Entry, keys, read_keys}
use nvcuopt.Sparse.Place.{place_all}
use mathlib.Core.List.{foldl-append, foldl-map, map-append, map-map}
use native.Mathlib.Nat.{le_refl}

pub record Layout (F : Type 0) : Type 0 where
  pub starts : List ℕ
  pub index : List ℕ
  pub value : List F

module _ {F : Type 0} where
  abbrev pub cols : Csc F → Layout F
  cols A = record { starts = A.col_start; index = A.i; value = A.x }

  abbrev pub rows : Csr F → Layout F
  rows A = record { starts = A.row_start; index = A.j; value = A.x }

  -- The length of segment j.
  abbrev pub width : Layout F → ℕ → ℕ
  width L j = at L.starts (suc j) - at L.starts j

module _ {F : Type 0} ⦃num : Num F⦄ where
  -- The entry at position p.
  abbrev pub entry : Layout F → ℕ → ℕ × F
  entry L p = (at L.index p, val L.value p)

  -- The entries of segment j in the order in which they are stored.
  abbrev pub segment : Layout F → ℕ → List (ℕ × F)
  segment L j = map (entry L) (span (at L.starts j) (width L j))

  -- The entries of segment j, each keyed by its index.
  abbrev pub keyed_segment : Layout F → ℕ → List (Entry F)
  keyed_segment L j = map (λ p. (at L.index p, j, val L.value p)) (span (at L.starts j) (width L j))

  -- The keyed entries of the k segments from segment lo on.
  abbrev pub keyed_from : Layout F → ℕ → ℕ → List (Entry F)
  keyed_from L lo zero = []
  keyed_from L lo (suc k) = keyed_segment L lo ++ keyed_from L (suc lo) k

  -- A layout of n segments with indices below m.
  pub record IsLayout (n m : ℕ) (L : Layout F) : Type 0 where
    pub starts_size : length L.starts ≡ suc n
    pub first : at L.starts 0 ≡ 0
    pub rising : (j : ℕ) → j < n → at L.starts j ≤ at L.starts (suc j)
    pub index_room : at L.starts n ≤ length L.index
    pub value_room : at L.starts n ≤ length L.value
    pub bounded : (j : ℕ) → j < n → All (λ e. e.0 < m) (segment L j)

  -- The nested loops place the keyed entries one after the other.
  abbrev pub step_segment : Layout F → Placed F → ℕ → Placed F
  step_segment L t j =
      for_loop (at L.starts j) (at L.starts (suc j)) (λ p. place (at L.index p) j (val L.value p)) t

  step_segment_lem :
      (L : Layout F) (t : Placed F) (j : ℕ) → step_segment L t j ≡ place_all (keyed_segment L j) t
  step_segment_lem L t j = sym (
      foldl-map (λ p. (at L.index p, j, val L.value p))
        (λ (u : Placed F) (e : Entry F). place e.0 e.1 e.2 u) (span (at L.starts j) (width L j)) t)

  place_segments :
      (L : Layout F) (lo k : ℕ) (s : Placed F)
      → foldl (step_segment L) s (span lo k) ≡ place_all (keyed_from L lo k) s
  place_segments L lo zero s = refl
  place_segments L lo (suc k) s =
      place_segments L (suc lo) k (step_segment L s lo)
      ∙ ap (place_all (keyed_from L (suc lo) k)) (step_segment_lem L s lo)
      ∙ sym (foldl-append _ s (keyed_segment L lo) (keyed_from L (suc lo) k))

  pub place_segments_lem :
      (L : Layout F) (n : ℕ) (s : Placed F)
      → for_loop 0 n (λ j t. step_segment L t j) s ≡ place_all (keyed_from L 0 n) s
  place_segments_lem L n s = for_loop-zero n (λ j t. step_segment L t j) s ∙ place_segments L 0 n s

  keys-keyed_segment :
      (L : Layout F) (j : ℕ)
      → keys (keyed_segment L j) ≡ map (at L.index) (span (at L.starts j) (width L j))
  keys-keyed_segment L j = map-map _ _ _

  keys-from :
      (L : Layout F) (lo k hi : ℕ)
      → lo + k ≡ hi
      → ((j : ℕ) → j < hi → at L.starts j ≤ at L.starts (suc j))
      → (at L.starts lo ≤ at L.starts hi)
        × (keys (keyed_from L lo k)
            ≡ map (at L.index) (span (at L.starts lo) (at L.starts hi - at L.starts lo)))
  keys-from L lo zero hi e rising =
      let e' : hi ≡ lo = omega arith in
      let nothing : at L.starts lo - at L.starts lo ≡ 0 = omega arith in
      rw e' (le_refl _, rw nothing)
  keys-from L lo (suc k) hi e rising =
      let (le, rest) = keys-from L (suc lo) k hi (omega arith) rising in
      let up = rising lo (omega arith) in
      (
        omega arith,
        map-append _ (keyed_segment L lo) (keyed_from L (suc lo) k)
            ∙ ap₂ ◌++◌ (keys-keyed_segment L lo) rest
            ∙ sym (map-append _ _ _)
            ∙ ap (map (at L.index)) (
                span-append (at L.starts lo) (width L lo) (at L.starts hi - at L.starts (suc lo))
                  (at L.starts (suc lo)) (at L.starts hi - at L.starts lo) (omega arith)
                  (omega arith)),
      )

  -- The counting loop sees the keys of the entries in the order of the segments.
  pub keys-read_keys :
      (n m : ℕ) (L : Layout F)
      → IsLayout n m L
      → keys (keyed_from L 0 n) ≡ read_keys (at L.starts n) L.index
  keys-read_keys n m L h =
      let (_, all) = keys-from L 0 n n (omega arith) h.rising in
      let e : at L.starts n - at L.starts 0 ≡ at L.starts n = omega (arith, h.first) in
      all ∙ rw (e, h.first)

  pub keyed_from-All :
      (m : ℕ) (L : Layout F) (lo k hi : ℕ)
      → lo + k ≡ hi
      → ((j : ℕ) → j < hi → All (λ e. e.0 < m) (segment L j))
      → All (λ r. r < m) (keys (keyed_from L lo k))
  keyed_from-All m L lo zero hi e h = tt
  keyed_from-All m L lo (suc k) hi e h =
      rw (map-append _ (keyed_segment L lo) (keyed_from L (suc lo) k)) (
        All-append (λ r. r < m) (keys (keyed_segment L lo)) _
          (rw (keys-keyed_segment L lo)
            (All-map (λ r. r < m) (entry L) (λ e. e.0) _ (h lo (omega arith))))
          (keyed_from-All m L (suc lo) k hi (omega arith) h))
