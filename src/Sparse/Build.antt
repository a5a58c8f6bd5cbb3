-- ===== src/Sparse/Build.antt =====
-- The loops of cpp/src/dual_simplex/sparse_matrix.cpp that write a matrix segment by segment:
-- `C.col_start[j] = nz` opens a segment, and `C.i[nz] = i; C.x[nz] = x; nz++` adds an entry to it.
use mathlib.Core.List.{foldl-map}
use nvcuopt.Prelude.{
  zero, for_loop-zero, length-map, length-span, ℕ, suc, ◌+◌, ◌≤◌, ◌<◌, ◌≡◌, refl, sym, ap, ap₂, ◌∙◌,
  List, [], ◌∷◌, map, foldl, arith, ◌==◌, if◌then◌else◌, length, length-set, get_or-set, set, span,
  map-span_congr, for_loop,
}
use nvcuopt.Prelude.Num.{Num}
use nvcuopt.Sparse.Matrix.{at, val}
use nvcuopt.Sparse.Layout.{Layout, entry, segment, width}

pub record Built (F : Type 0) : Type 0 where
  pub nz : ℕ
  pub starts : List ℕ
  pub index : List ℕ
  pub value : List F

module _ {F : Type 0} where
  -- starts[k] = nz;
  unfoldable pub open_segment : ℕ → Built F → Built F
  open_segment k s = record s { starts = set s.starts k s.nz }

  -- index[nz] = c; value[nz] = v; nz++;
  unfoldable pub push : ℕ → F → Built F → Built F
  push c v s = record s { nz = suc s.nz; index = set s.index s.nz c; value = set s.value s.nz v }

  abbrev pub push_all : List (ℕ × F) → Built F → Built F
  push_all l s = foldl (λ t e. push e.0 e.1 t) s l

  abbrev pub layout : Built F → Layout F
  layout s = record { starts = s.starts; index = s.index; value = s.value }

  -- The segments, one after the other from number k on, and the start behind the last.
  abbrev pub emit : ℕ → List (List (ℕ × F)) → Built F → Built F
  emit k [] s = open_segment k s
  emit k (l ∷ ls) s = emit (suc k) ls (push_all l (open_segment k s))

  -- The number of entries of some segments.
  abbrev pub total : List (List (ℕ × F)) → ℕ
  total [] = 0
  total (l ∷ ls) = length l + total ls

module _ {F : Type 0} ⦃num : Num F⦄ where
  -- for (p = start; p < end; ++p) push(index[p], value[p])
  unfoldable pub copy_segment : Layout F → ℕ → Built F → Built F
  unfolding push
  copy_segment L j =
      for_loop (at L.starts j) (at L.starts (suc j)) λ p. push (at L.index p) (val L.value p)

  pub copy_segment_lem :
      (L : Layout F) (j : ℕ) (s : Built F) → copy_segment L j s ≡ push_all (segment L j) s
  unfolding copy_segment
  copy_segment_lem L j s = sym (
      foldl-map (entry L) (λ (t : Built F) (e : ℕ × F). push e.0 e.1 t)
        (span (at L.starts j) (width L j)) s)

  -- The segments of L from number k on are the given ones, and the first starts at q.
  abbrev pub Laid : Layout F → ℕ → ℕ → List (List (ℕ × F)) → Type 0
  Laid L k q [] = at L.starts k ≡ q
  Laid L k q (l ∷ ls) =
      (at L.starts k ≡ q)
      × (map (entry L) (span q (length l)) ≡ l)
      × Laid L (suc k) (q + length l) ls

  pub Laid-start :
      (L : Layout F) (k q : ℕ) (ls : List (List (ℕ × F))) → Laid L k q ls → at L.starts k ≡ q
  Laid-start L k q [] h = h
  Laid-start L k q (l ∷ ls) h = h.0

  pub Laid-segments :
      (L : Layout F) (k q : ℕ) (ls : List (List (ℕ × F)))
      → Laid L k q ls
      → map (segment L) (span k (length ls)) ≡ ls
  Laid-segments L k q [] h = refl
  Laid-segments L k q (l ∷ ls) h =
      let wide : width L k ≡ length l =
        omega (arith, h.0, Laid-start L (suc k) (q + length l) ls h.2) in
      ap₂ ◌∷◌ (rw (wide, h.0) h.1) (Laid-segments L (suc k) (q + length l) ls h.2)

  -- What the entries of one segment leave.
  record Pushed (l : List (ℕ × F)) (s t : Built F) : Type 0 where
    nz : t.nz ≡ s.nz + length l
    starts : t.starts ≡ s.starts
    sizes : (length t.index ≡ length s.index) × (length t.value ≡ length s.value)
    same : (p : ℕ) → p < s.nz → entry (layout t) p ≡ entry (layout s) p
    added : map (entry (layout t)) (span s.nz (length l)) ≡ l

  entry-push :
      (c : ℕ) (v : F) (s : Built F) (p : ℕ)
      → s.nz < length s.index
      → s.nz < length s.value
      → entry (layout (push c v s)) p ≡ (if s.nz == p then (c, v) else entry (layout s) p)
  unfolding push
  entry-push c v s p hi hv =
      ground (arith, get_or-set s.index s.nz p c 0 hi, get_or-set s.value s.nz p v num.nought hv)

  push_all-Pushed :
      (l : List (ℕ × F)) (s : Built F)
      → s.nz + length l ≤ length s.index
      → s.nz + length l ≤ length s.value
      → Pushed l s (push_all l s)
  unfolding push
  push_all-Pushed [] s hi hv = record {
    nz = omega arith;
    starts = refl;
    sizes = (refl, refl);
    same = λ p lt. refl;
    added = refl;
  }
  push_all-Pushed ((c, v) ∷ l) s hi hv =
      let later =
        push_all-Pushed l (push c v s) (omega (arith, length-set s.index s.nz c))
          (omega (arith, length-set s.value s.nz v)) in
      record {
        nz = omega (arith, later.nz);
        starts = later.starts;
        sizes = omega (arith, later.sizes, length-set s.index s.nz c, length-set s.value s.nz v);
        same = λ p lt. later.same p (omega arith) ∙ ground (arith, entry-push c v s p);
        added =
            ap₂ ◌∷◌ (later.same s.nz (omega arith) ∙ ground (arith, entry-push c v s s.nz))
              later.added;
      }

  pub record Emitted (k : ℕ) (ls : List (List (ℕ × F))) (s t : Built F) : Type 0 where
    pub nz : t.nz ≡ s.nz + total ls
    pub starts_size : length t.starts ≡ length s.starts
    pub sizes : (length t.index ≡ length s.index) × (length t.value ≡ length s.value)
    pub starts_same : (j : ℕ) → j < k → at t.starts j ≡ at s.starts j
    pub same : (p : ℕ) → p < s.nz → entry (layout t) p ≡ entry (layout s) p
    pub laid : Laid (layout t) k s.nz ls

  -- When the arrays have the places, the segments stand in the result as they were given.
  pub emit-Emitted :
      (k : ℕ) (ls : List (List (ℕ × F))) (s : Built F)
      → k + length ls < length s.starts
      → s.nz + total ls ≤ length s.index
      → s.nz + total ls ≤ length s.value
      → Emitted k ls s (emit k ls s)
  unfolding open_segment
  emit-Emitted k [] s hk hi hv = record {
    nz = omega arith;
    starts_size = length-set s.starts k s.nz;
    sizes = (refl, refl);
    starts_same = λ j lt. ground (arith, get_or-set s.starts k j s.nz 0);
    same = λ p lt. refl;
    laid = ground (arith, get_or-set s.starts k k s.nz 0);
  }
  emit-Emitted k (l ∷ ls) s hk hi hv =
      let opened = open_segment k s in
      let here = push_all-Pushed l opened (omega arith) (omega arith) in
      let filled = push_all l opened in
      let size : length filled.starts ≡ length s.starts =
        ap length here.starts ∙ length-set s.starts k s.nz in
      let later =
        emit-Emitted (suc k) ls filled (omega arith) (omega (arith, here.nz, here.sizes))
          (omega (arith, here.nz, here.sizes)) in
      record {
        nz = omega (arith, later.nz, here.nz);
        starts_size = later.starts_size ∙ size;
        sizes = omega (arith, later.sizes, here.sizes);
        starts_same = λ j lt.
            later.starts_same j (omega arith)
            ∙ ap (λ st. at st j) here.starts
            ∙ ground (arith, get_or-set s.starts k j s.nz 0);
        same = λ p lt. later.same p (omega (arith, here.nz)) ∙ here.same p lt;
        laid = (
          later.starts_same k (omega arith)
              ∙ ap (λ st. at st k) here.starts
              ∙ ground (arith, get_or-set s.starts k k s.nz 0),
          map-span_congr _ (entry (layout filled)) s.nz (length l)
                (λ p _ b. later.same p (omega (arith, here.nz)))
              ∙ here.added,
          rw here.nz at later.laid,
        );
      }

  -- A start with empty arrays of the right sizes, filled with the segments, has these segments.
  pub emit-segments :
      (ls : List (List (ℕ × F))) (s : Built F)
      → s.nz ≡ 0
      → length ls < length s.starts
      → total ls ≤ length s.index
      → total ls ≤ length s.value
      → map (segment (layout (emit 0 ls s))) (span 0 (length ls)) ≡ ls
  emit-segments ls s e hk hi hv =
      Laid-segments _ 0 s.nz ls (emit-Emitted 0 ls s (omega arith) (omega arith) (omega arith)).laid

module _ {F : Type 0} where
  -- A loop that opens segment j and fills it with f j, for each j in turn, emits the segments f j.
  pub emit_loop :
      (f : ℕ → List (ℕ × F)) (body : ℕ → Built F → Built F) (lo n hi : ℕ)
      → ((j : ℕ) (t : Built F) → body j t ≡ push_all (f j) (open_segment j t))
      → lo + n ≡ hi
      → (s : Built F)
      → open_segment hi (foldl (λ t j. body j t) s (span lo n)) ≡ emit lo (map f (span lo n)) s
  emit_loop f body lo zero hi h e s = let e' : hi ≡ lo = omega arith in rw e'
  emit_loop f body lo (suc n) hi h e s =
      emit_loop f body (suc lo) n hi h (omega arith) (body lo s)
      ∙ ap (emit (suc lo) (map f (span (suc lo) n))) (h lo s)

module _ {F : Type 0} ⦃num : Num F⦄ where
  -- Segments as wide as those of L have as many entries as L.
  pub total_width :
      (L : Layout F) (f : ℕ → List (ℕ × F)) (lo k hi : ℕ)
      → lo + k ≡ hi
      → ((j : ℕ) → j < hi → at L.starts j ≤ at L.starts (suc j))
      → ((j : ℕ) → length (f j) ≡ width L j)
      → at L.starts lo + total (map f (span lo k)) ≡ at L.starts hi
  total_width L f lo zero hi e rising wide = let e' : hi ≡ lo = omega arith in rw e' (omega arith)
  total_width L f lo (suc k) hi e rising wide = omega (
    arith,
    wide lo,
    rising lo (omega arith),
    total_width L f (suc lo) k hi (omega arith) rising wide,
  )

  -- A loop that opens and fills n segments, and closes the last, leaves these segments.
  pub loop-segments :
      (f : ℕ → List (ℕ × F)) (body : ℕ → Built F → Built F) (n : ℕ) (s : Built F)
      → ((j : ℕ) (t : Built F) → body j t ≡ push_all (f j) (open_segment j t))
      → s.nz ≡ 0
      → n < length s.starts
      → total (map f (span 0 n)) ≤ length s.index
      → total (map f (span 0 n)) ≤ length s.value
      → map (segment (layout (open_segment n (for_loop 0 n body s)))) (span 0 n) ≡ map f (span 0 n)
  loop-segments f body n s h e hk hi hv =
      let ls = map f (span 0 n) in
      let size : length ls ≡ n = length-map f (span 0 n) ∙ length-span 0 n in
      rw (for_loop-zero n body s, emit_loop f body 0 n n h (omega arith) s)
        (rw size at (emit-segments ls s e (omega arith) hi hv))
