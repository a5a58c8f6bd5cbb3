-- ===== src/Sparse/Place.antt =====
-- The placing loop of cpp/src/dual_simplex/sparse_matrix.cpp against the buckets: when each key has
-- a stretch of its own, the loop fills every stretch with its bucket, in order.
use nvcuopt.Prelude.{
  ℕ, suc, ◌+◌, ◌≤◌, ◌<◌, ◌≡◌, refl, ap₂, ◌∙◌, ◌⊎◌, inl, inr, List, [], ◌∷◌, map, foldl, arith, ◌==◌,
  ==_iff, Bool-cases, if◌then◌else◌, length, span, length-set, get_or-set, All,
}
use nvcuopt.Prelude.Num.{Num}
use nvcuopt.Sparse.Matrix.{at, val, Placed, place}
use nvcuopt.Sparse.Bucket.{Entry, count, bucket, keys, at-increment}

module _ {F : Type 0} where
  abbrev pub place_all : List (Entry F) → Placed F → Placed F
  place_all es s = foldl (λ t e. place e.0 e.1 e.2 t) s es

  -- The stretches of the keys, `count` places each, are apart and inside the arrays.
  pub record Room (m : ℕ) (es : List (Entry F)) (s : Placed F) : Type 0 where
    pub width : length s.workspace ≡ m
    pub keyed : All (λ k. k < m) (keys es)
    pub apart : (r t : ℕ) → r < t → t < m → at s.workspace r + count r (keys es) ≤ at s.workspace t
    pub fits :
        (r : ℕ)
        → r < m
        → (at s.workspace r + count r (keys es) ≤ length s.index)
          × (at s.workspace r + count r (keys es) ≤ length s.value)

  -- Position q lies in no stretch.
  abbrev pub Outside : ℕ → List (Entry F) → Placed F → ℕ → Type 0
  Outside m es s q =
      (r : ℕ) → r < m → (q < at s.workspace r) ⊎ (at s.workspace r + count r (keys es) ≤ q)

  module _ (m k c : ℕ) (v : F) (es : List (Entry F)) (s : Placed F)
      (room : Room m ((k, c, v) ∷ es) s) where
    at-place :
        (r : ℕ)
        → r < m
        → at (place k c v s).workspace r ≡ at s.workspace r + (if k == r then 1 else 0)
    unfolding place
    at-place r h = at-increment s.workspace k r (omega (arith, room.width))

    Room-place : Room m es (place k c v s)
    unfolding place
    Room-place = record {
      width = omega (arith, room.width, length-set s.workspace k (suc (at s.workspace k)));
      keyed = room.keyed.1;
      apart = λ r t lt below.
          ground (arith, room.apart r t lt below, at-place r (omega arith), at-place t below);
      fits = λ r lt. ground (
        arith,
        room.fits r lt,
        at-place r lt,
        length-set s.index (at s.workspace k) c,
        length-set s.value (at s.workspace k) v,
      );
    }

    Outside-place : (q : ℕ) → Outside m ((k, c, v) ∷ es) s q → Outside m es (place k c v s) q
    Outside-place q out r lt = ground (arith, out r lt, at-place r lt)

    -- The place that is written lies outside what is still to be filled.
    Outside-written : Outside m es (place k c v s) (at s.workspace k)
    Outside-written r lt = ground (arith, at-place r lt, room.apart r k, room.apart k r, room.keyed)

module _ {F : Type 0} ⦃num : Num F⦄ where
  abbrev pub read : Placed F → ℕ → ℕ × F
  read s q = (at s.index q, val s.value q)

  pub record Filled (m : ℕ) (es : List (Entry F)) (s t : Placed F) : Type 0 where
    pub index_size : length t.index ≡ length s.index
    pub value_size : length t.value ≡ length s.value
    pub same : (q : ℕ) → Outside m es s q → read t q ≡ read s q
    pub filled :
        (r : ℕ) → r < m → map (read t) (span (at s.workspace r) (count r (keys es))) ≡ bucket r es

  read-place :
      (k c : ℕ) (v : F) (s : Placed F) (q : ℕ)
      → at s.workspace k < length s.index
      → at s.workspace k < length s.value
      → read (place k c v s) q ≡ (if at s.workspace k == q then (c, v) else read s q)
  unfolding place
  read-place k c v s q hi hv = ground (
    arith,
    get_or-set s.index (at s.workspace k) q c 0 hi,
    get_or-set s.value (at s.workspace k) q v num.nought hv,
  )

  module _ (m k c : ℕ) (v : F) (es : List (Entry F)) (s t : Placed F)
      (room : Room m ((k, c, v) ∷ es) s) (done : Filled m es (place k c v s) t) where
    in_range : (at s.workspace k < length s.index) × (at s.workspace k < length s.value)
    in_range = ground (arith, room.fits k, room.keyed)

    read_written : read t (at s.workspace k) ≡ (c, v)
    read_written =
        done.same (at s.workspace k) (Outside-written m k c v es s room)
        ∙ ground (arith, read-place k c v s (at s.workspace k) in_range.0 in_range.1)

    same_place : (q : ℕ) → Outside m ((k, c, v) ∷ es) s q → read t q ≡ read s q
    same_place q out =
        done.same q (Outside-place m k c v es s room q out)
        ∙ ground (arith, read-place k c v s q in_range.0 in_range.1, out k, room.keyed)

    filled_place :
        (r : ℕ)
        → r < m
        → map (read t) (span (at s.workspace r) (count r (keys ((k, c, v) ∷ es))))
          ≡ bucket r ((k, c, v) ∷ es)
    filled_place r lt = elim (Bool-cases (k == r)) [
      | inl hit ↦
          let one : 1 + count r (keys es) ≡ suc (count r (keys es)) = omega arith in
          let moved : at (place k c v s).workspace r ≡ suc (at s.workspace r) =
            ground (arith, at-place m k c v es s room r lt) in
          rw (hit, one)
            (ap₂ ◌∷◌ (rw ((==_iff k r).0 hit) at read_written) (rw moved at (done.filled r lt)))
      | inr miss ↦
          let none_more : 0 + count r (keys es) ≡ count r (keys es) = omega arith in
          let kept : at (place k c v s).workspace r ≡ at s.workspace r =
            ground (arith, at-place m k c v es s room r lt) in
          rw (miss, none_more) (rw kept at (done.filled r lt))
    ]

    Filled-place : Filled m ((k, c, v) ∷ es) s t
    unfolding place
    Filled-place = record {
      index_size = done.index_size ∙ length-set s.index (at s.workspace k) c;
      value_size = done.value_size ∙ length-set s.value (at s.workspace k) v;
      same = same_place;
      filled = filled_place;
    }

  pub place_all-Filled :
      (m : ℕ) (es : List (Entry F)) (s : Placed F) → Room m es s → Filled m es s (place_all es s)
  place_all-Filled m [] s room = record {
    index_size = refl;
    value_size = refl;
    same = λ q out. refl;
    filled = λ r lt. refl;
  }
  place_all-Filled m ((k, c, v) ∷ es) s room =
      Filled-place m k c v es s (place_all es (place k c v s)) room
        (place_all-Filled m es (place k c v s) (Room-place m k c v es s room))
