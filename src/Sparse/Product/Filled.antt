-- ===== src/Sparse/Product/Filled.antt =====
-- The columns of a result of `multiply` or `add` (cpp/src/dual_simplex/sparse_matrix.cpp) that are
-- finished: they outlive `reallocate` and the work on later columns.
use nvcuopt.Prelude.{
  ℕ, zero, suc, ◌+◌, ◌-◌, ◌≤◌, ◌<◌, ◌≡◌, refl, ap, ap₂, ◌∙◌, List, [], ◌∷◌, map, foldl, arith, ◌==◌,
  inl, inr, Bool-cases, length, length-set, length-map, length-resize, get_or, get_or-set,
  get_or-set_ne, get_or-set_self, resize, set, span, All, map-span_congr,
}
use nvcuopt.Prelude.Num.{Num}
use nvcuopt.Sparse.Matrix.{Csc, at, val, reallocate}
use nvcuopt.Sparse.Layout.{cols, segment, entry, width, IsLayout}
use nvcuopt.Sparse.Product.{Work, gather, start_column, finish}
use nvcuopt.Sparse.Product.Scatter.{put_all, Dense, Going}

module _ {ℓ} {A : Type ℓ} where
  length-put_all : (q : ℕ) (ks a : List A) → length (put_all q ks a) ≡ length a
  length-put_all q [] a = refl
  length-put_all q (k ∷ ks) a = length-put_all (suc q) ks (set a q k) ∙ length-set a q k

module _ {A : Type 0} where
  get_or-resize :
      (k p : ℕ) (d : A) (xs : List A) → p < k → get_or (resize k d xs) p d ≡ get_or xs p d
  get_or-resize zero p d xs lt = absurd (omega arith)
  get_or-resize (suc k) zero d [] lt = refl
  get_or-resize (suc k) zero d (x ∷ xs) lt = refl
  get_or-resize (suc k) (suc p) d [] lt = get_or-resize k p d [] (omega arith)
  get_or-resize (suc k) (suc p) d (x ∷ xs) lt = get_or-resize k p d xs (omega arith)

  -- What was written before position q is still there.
  put_all_before :
      (q p : ℕ) (d : A) (ks a : List A) → p < q → get_or (put_all q ks a) p d ≡ get_or a p d
  put_all_before q p d [] a lt = refl
  put_all_before q p d (k ∷ ks) a lt =
      put_all_before (suc q) p d ks (set a q k) (omega arith)
      ∙ get_or-set_ne a q p k d (omega arith)

  -- And what is written now is read again.
  put_all_read :
      (q : ℕ) (d : A) (ks a : List A)
      → q + length ks ≤ length a
      → map (λ p. get_or (put_all q ks a) p d) (span q (length ks)) ≡ ks
  put_all_read q d [] a le = refl
  put_all_read q d (k ∷ ks) a le =
      ap₂ ◌∷◌
        (put_all_before (suc q) q d ks (set a q k) (omega arith)
          ∙ get_or-set_self a q k d (omega arith))
        (put_all_read (suc q) d ks (set a q k) (omega (arith, length-set a q k)))

module _ {F : Type 0} ⦃num : Num F⦄ where
  abbrev fsts : List (ℕ × F) → List ℕ
  fsts l = map (λ e. e.0) l

  abbrev snds : List (ℕ × F) → List F
  snds l = map (λ e. e.1) l

  -- `gather` writes the values of the column behind each other.
  gather_span :
      (q : ℕ) (I : List ℕ) (x V : List F) (l : List (ℕ × F))
      → map (at I) (span q (length l)) ≡ fsts l
      → Dense x l
      → foldl (λ v p. set v p (val x (at I p))) V (span q (length l)) ≡ put_all q (snds l) V
  gather_span q I x V [] e d = refl
  gather_span q I x V ((c, w) ∷ l) e d =
      let first : at I q ≡ c = cc e in
      let rest : map (at I) (span (suc q) (length l)) ≡ fsts l = cc e in
      let value : val x (at I q) ≡ w = ap (val x) first ∙ d.0 in
      gather_span (suc q) I x (set V q (val x (at I q))) l rest d.1
      ∙ ap (λ u. put_all (suc q) (snds l) (set V q u)) value

  pub gather_lem :
      (q mark m j : ℕ) (C0 : Csc F) (l : List (ℕ × F)) (s : Work F)
      → Going q mark m C0 l s
      → at C0.col_start j ≡ q
      → q + length l ≤ length C0.i
      → gather j s
        ≡ record s { C = record C0 { i = put_all q (fsts l) C0.i; x = put_all q (snds l) C0.x } }
  unfolding gather
  gather_lem q mark m j C0 l s g e room =
      let number : s.nz - q ≡ length l = omega (arith, g.nz) in
      rw (g.built, e, number)
        (ap (λ v. record s { C = record C0 { i = put_all q (fsts l) C0.i; x = v } })
          (gather_span q (put_all q (fsts l) C0.i) s.x C0.x l
            (rw (length-map (λ (e : ℕ × F). e.0) l) at
              (put_all_read q 0 (fsts l) C0.i (omega (arith, length-map (λ (e : ℕ × F). e.0) l))))
            g.dense))

  -- The number of entries of the columns before j.
  abbrev pub before : (ℕ → List (ℕ × F)) → ℕ → ℕ
  before f zero = 0
  before f (suc j) = before f j + length (f j)

  before_mono : (f : ℕ → List (ℕ × F)) (t j : ℕ) → t < j → before f (suc t) ≤ before f j
  before_mono f t zero lt = absurd (omega arith)
  before_mono f t (suc j) lt = elim (Bool-cases (t == j)) [
    | inl hit ↦ let e : t ≡ j = ground arith in rw e (omega arith)
    | inr miss ↦ let le = before_mono f t j (ground arith) in omega (arith, le)
  ]

  -- The columns before j of a result with n columns are those that f says, and nz is where they end.
  pub record Filled (f : ℕ → List (ℕ × F)) (n j : ℕ) (C : Csc F) (nz : ℕ) : Type 0 where
    pub end : nz ≡ before f j
    pub starts : (t : ℕ) → t < j → at C.col_start t ≡ before f t
    pub columns : (t : ℕ) → t < j → map (entry (cols C)) (span (before f t) (length (f t))) ≡ f t
    pub starts_size : length C.col_start ≡ suc n
    pub index_size : length C.i ≡ C.nz_max
    pub value_size : length C.x ≡ C.nz_max
    pub full : nz ≤ C.nz_max

  -- Enough space keeps the finished columns.
  pub Filled-reallocate :
      (f : ℕ → List (ℕ × F)) (n j : ℕ) (C : Csc F) (nz k : ℕ)
      → nz ≤ k
      → Filled f n j C nz
      → Filled f n j (reallocate k C) nz
  unfolding reallocate
  Filled-reallocate f n j C nz k le h = record {
    end = h.end;
    starts = h.starts;
    columns = λ t lt.
        map-span_congr (entry (cols (reallocate k C))) (entry (cols C)) (before f t) (length (f t))
          (λ p _ b.
            let in_k : p < k = omega (arith, before_mono f t j lt, h.end) in
            ap₂ (λ c v. (c, v)) (get_or-resize k p 0 C.i in_k)
              (get_or-resize k p num.nought C.x in_k))
        ∙ h.columns t lt;
    starts_size = h.starts_size;
    index_size = length-resize k 0 C.i;
    value_size = length-resize k num.nought C.x;
    full = le;
  }

  entries-zip :
      (I : List ℕ) (V : List F) (ps : List ℕ) (l : List (ℕ × F))
      → map (at I) ps ≡ fsts l
      → map (val V) ps ≡ snds l
      → map (λ p. (at I p, val V p)) ps ≡ l
  entries-zip I V [] [] e h = refl
  entries-zip I V [] (y ∷ l) e h = cc e
  entries-zip I V (p ∷ ps) [] e h = cc e
  entries-zip I V (p ∷ ps) ((c, w) ∷ l) e h =
      let first : at I p ≡ c = cc e in
      let value : val V p ≡ w = cc h in
      ap₂ ◌∷◌ (ap₂ (λ a b. (a, b)) first value) (entries-zip I V ps l (cc e) (cc h))

  -- One more column.
  abbrev pub with_column : ℕ → ℕ → List (ℕ × F) → Csc F → Csc F
  with_column j nz l C = record C {
    col_start = set C.col_start j nz;
    i = put_all nz (fsts l) C.i;
    x = put_all nz (snds l) C.x;
  }

  pub Filled-column :
      (f : ℕ → List (ℕ × F)) (n j : ℕ) (C : Csc F) (nz : ℕ)
      → j < n
      → nz + length (f j) ≤ C.nz_max
      → Filled f n j C nz
      → Filled f n (suc j) (with_column j nz (f j) C) (nz + length (f j))
  Filled-column f n j C nz lt room h =
      let l = f j in
      let size = length-map (λ (e : ℕ × F). e.0) l in
      let size' = length-map (λ (e : ℕ × F). e.1) l in
      record {
        end = omega (arith, h.end);
        starts = λ t tj. ground (
          arith,
          get_or-set C.col_start j t nz 0 (omega (arith, h.starts_size)),
          h.starts t,
          h.end,
        );
        columns = λ t tj. elim (Bool-cases (t == j)) [
          | inl hit ↦
              let e : t ≡ j = ground arith in
              rw (e, ← h.end)
                (entries-zip _ _ (span nz (length l)) l
                  (rw size at (put_all_read nz 0 (fsts l) C.i (omega (arith, size, h.index_size))))
                  (rw size' at
                    (put_all_read nz num.nought (snds l) C.x (omega (arith, size', h.value_size)))))
          | inr miss ↦
              let old : t < j = ground arith in
              map-span_congr (entry (cols (with_column j nz l C))) (entry (cols C)) (before f t)
                (length (f t))
                (λ p _ b.
                  let low : p < nz = omega (arith, before_mono f t j old, h.end) in
                  ap₂ (λ c v. (c, v)) (put_all_before nz p 0 (fsts l) C.i low)
                    (put_all_before nz p num.nought (snds l) C.x low))
              ∙ h.columns t old
        ];
        starts_size = length-set C.col_start j nz ∙ h.starts_size;
        index_size = length-put_all nz (fsts l) C.i ∙ h.index_size;
        value_size = length-put_all nz (snds l) C.x ∙ h.value_size;
        full = room;
      }

  closed_starts :
      (f : ℕ → List (ℕ × F)) (n : ℕ) (C : Csc F) (nz t : ℕ)
      → Filled f n n C nz
      → t ≤ n
      → at (set C.col_start n nz) t ≡ before f t
  closed_starts f n C nz t h le = elim (Bool-cases (t == n)) [
    | inl hit ↦
        let e : t ≡ n = ground arith in
        rw e (get_or-set_self C.col_start n nz 0 (omega (arith, h.starts_size)) ∙ h.end)
    | inr miss ↦ get_or-set_ne C.col_start n t nz 0 (ground arith) ∙ h.starts t (ground arith)
  ]

  -- At the end the columns are those of f, one behind the other.
  pub Filled-finish :
      (f : ℕ → List (ℕ × F)) (n m : ℕ) (s : Work F)
      → Filled f n n s.C s.nz
      → ((j : ℕ) → j < n → All (λ e. e.0 < m) (f j))
      → IsLayout n m (cols (finish n s)) × ((j : ℕ) → j < n → segment (cols (finish n s)) j ≡ f j)
  unfolding finish start_column reallocate
  Filled-finish f n m s h low =
      let st = λ (t : ℕ). closed_starts f n s.C s.nz t h in
      let kept = Filled-reallocate f n n s.C s.nz s.nz (omega arith) h in
      let column : (j : ℕ) → j < n → segment (cols (finish n s)) j ≡ f j = λ j lt.
        let first = st j (omega arith) in
        let wide : width (cols (finish n s)) j ≡ length (f j) =
          omega (arith, first, st (suc j) lt) in
        rw (wide, first) (kept.columns j lt) in
      (
        record {
          starts_size = length-set s.C.col_start n s.nz ∙ h.starts_size;
          first = st 0 (omega arith);
          rising = λ j lt. omega (arith, st j (omega arith), st (suc j) lt);
          index_room = omega (arith, st n (omega arith), h.end, length-resize s.nz 0 s.C.i);
          value_room =
              omega (arith, st n (omega arith), h.end, length-resize s.nz num.nought s.C.x);
          bounded = λ j lt. rw (column j lt) (low j lt);
        },
        column,
      )
