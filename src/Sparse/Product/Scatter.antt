-- ===== src/Sparse/Product/Scatter.antt =====
-- `scatter` and `gather` of cpp/src/dual_simplex/sparse_matrix.cpp: what they leave of one column.
use mathlib.Core.List.{foldl-map, map-append}
use nvcuopt.Prelude.{
  ℕ, suc, ◌+◌, ◌≤◌, ◌<◌, ◌≡◌, refl, sym, ap, ◌∙◌, List, [], ◌∷◌, ◌++◌, map, foldl, arith, ◌==◌, ltb,
  true, false, not, inl, inr, Bool-cases, length, length-map, length-set, get_or-set,
  get_or-set_self, set, span, All,
}
use nvcuopt.Prelude.Num.{Num}
use nvcuopt.Prelude.Marks.{marks, marks_bound, marks-set, marks_none}
use nvcuopt.Sparse.Matrix.{Csc, at, val}
use nvcuopt.Sparse.Layout.{cols, segment, entry, width}
use nvcuopt.Sparse.Product.{Work, scatter_value, scatter}
use nvcuopt.Sparse.Product.Collect.{
  has, Distinct, add_entry, collect, scaled, add_entry-new, rows-add_entry, has-add_entry,
  Distinct-add_entry,
}

length-snoc {ℓ} : {A : Type ℓ} (l : List A) (a : A) → length (l ++ a ∷ []) ≡ suc (length l)
length-snoc [] a = refl
length-snoc (b ∷ l) a = ap suc (length-snoc l a)

-- The numbers ks written from position q on.
abbrev pub put_all {ℓ} : {A : Type ℓ} → ℕ → List A → List A → List A
put_all q [] a = a
put_all q (k ∷ ks) a = put_all (suc q) ks (set a q k)

pub put_all-append {ℓ} :
    {A : Type ℓ} (q : ℕ) (ks : List A) (k : A) (a : List A)
    → put_all q (ks ++ k ∷ []) a ≡ set (put_all q ks a) (q + length ks) k
put_all-append q [] k a = let e : q + 0 ≡ q = omega arith in rw e
put_all-append q (h ∷ ks) k a =
    let e : q + suc (length ks) ≡ suc q + length ks = omega arith in
    rw e (put_all-append (suc q) ks k (set a q h))

module _ {F : Type 0} ⦃num : Num F⦄ where
  -- In x stand the sums of the entries collected.
  abbrev pub Dense : List F → List (ℕ × F) → Type 0
  Dense x l = All (λ e. val x e.0 ≡ e.1) l

  Dense-set :
      (r : ℕ) (v : F) (x : List F) (l : List (ℕ × F))
      → r < length x
      → has r l ≡ false
      → Dense x l
      → Dense (set x r v) l
  Dense-set r v x [] lt h d = tt
  Dense-set r v x ((c, w) ∷ l) lt h d = (
    ground (arith, get_or-set x r c v num.nought lt, d.0),
    Dense-set r v x l lt (ground arith) d.1,
  )

  Dense-new :
      (r : ℕ) (v : F) (x : List F) (l : List (ℕ × F))
      → r < length x
      → has r l ≡ false
      → Dense x l
      → Dense (set x r v) (add_entry r v l)
  Dense-new r v x [] lt h d = (ground (arith, get_or-set x r r v num.nought lt), tt)
  Dense-new r v x ((c, w) ∷ l) lt h d =
      let miss : c == r ≡ false = ground arith in
      rw miss (
        ground (arith, get_or-set x r c v num.nought lt, d.0),
        Dense-new r v x l lt (ground arith) d.1,
      )

  Dense-again :
      (r : ℕ) (v : F) (x : List F) (l : List (ℕ × F))
      → r < length x
      → has r l ≡ true
      → Distinct l
      → Dense x l
      → Dense (set x r (num.add (val x r) v)) (add_entry r v l)
  Dense-again r v x [] lt h u d = ground arith
  Dense-again r v x ((c, w) ∷ l) lt h u d = elim (Bool-cases (c == r)) [
    | inl hit ↦
        let e : c ≡ r = ground arith in
        rw hit (
          rw e (get_or-set_self x r (num.add (val x r) v) num.nought lt)
              ∙ ap (λ t. num.add t v) (rw e at d.0),
          Dense-set r (num.add (val x r) v) x l lt (rw e at u.0) d.1,
        )
    | inr miss ↦ rw miss (
      ground (arith, get_or-set x r c (num.add (val x r) v) num.nought lt, d.0),
      Dense-again r v x l lt (ground arith) u.1 d.1,
    )
  ]

  -- The work on one column, begun at number q of the entries with the result C0: the entries so far
  -- amount to l.
  pub record Going (q mark m : ℕ) (C0 : Csc F) (l : List (ℕ × F)) (s : Work F) : Type 0 where
    pub nz : s.nz ≡ q + length l
    pub built : s.C ≡ record C0 { i = put_all q (map (λ e. e.0) l) C0.i }
    pub marked : (r : ℕ) → ltb (at s.workspace r) mark ≡ not (has r l)
    pub below : (r : ℕ) → at s.workspace r ≤ mark
    pub counted : length l ≡ marks mark s.workspace
    pub dense : Dense s.x l
    pub distinct : Distinct l
    pub sizes : (length s.workspace ≡ m) × (length s.x ≡ m)

  Going-new :
      (q mark m r : ℕ) (v : F) (C0 : Csc F) (l : List (ℕ × F)) (s : Work F)
      → r < m
      → 0 < mark
      → has r l ≡ false
      → Going q mark m C0 l s
      → Going q mark m C0 (add_entry r v l) (scatter_value mark r v s)
  unfolding scatter_value
  Going-new q mark m r v C0 l s lt pos h g =
      let low : ltb (at s.workspace r) mark ≡ true = g.marked r ∙ ap not h in
      let room : r < length s.workspace = omega (arith, g.sizes) in
      let long : length (add_entry r v l) ≡ suc (length l) =
        ap length (add_entry-new r v l h) ∙ length-snoc l (r, v) in
      let ks = map (λ (e : ℕ × F). e.0) l in
      let last : q + length ks ≡ s.nz = omega (arith, g.nz, length-map (λ (e : ℕ × F). e.0) l) in
      let more : put_all q (map (λ e. e.0) (add_entry r v l)) C0.i
          ≡ set (put_all q ks C0.i) s.nz r =
        ap (λ k. put_all q (map (λ (e : ℕ × F). e.0) k) C0.i) (add_entry-new r v l h)
        ∙ ap (λ k. put_all q k C0.i) (map-append (λ (e : ℕ × F). e.0) l ((r, v) ∷ []))
        ∙ put_all-append q ks r C0.i
        ∙ ap (λ n. set (put_all q ks C0.i) n r) last in
      rw low record {
        nz = omega (arith, g.nz, long);
        built =
            ap (λ (D : Csc F). record D { i = set D.i s.nz r }) g.built
            ∙ ap (λ a. record C0 { i = a }) (sym more);
        marked = λ k.
            ground
              (arith, get_or-set s.workspace r k mark 0 room, g.marked k, has-add_entry k r v l);
        below = λ k. ground (arith, get_or-set s.workspace r k mark 0 room, g.below k);
        counted = ground (arith, marks-set mark r s.workspace, g.counted);
        dense = Dense-new r v s.x l (omega (arith, g.sizes)) h g.dense;
        distinct = Distinct-add_entry r v l g.distinct;
        sizes = omega (arith, g.sizes, length-set s.workspace r mark, length-set s.x r v);
      }

  Going-again :
      (q mark m r : ℕ) (v : F) (C0 : Csc F) (l : List (ℕ × F)) (s : Work F)
      → r < m
      → has r l ≡ true
      → Going q mark m C0 l s
      → Going q mark m C0 (add_entry r v l) (scatter_value mark r v s)
  unfolding scatter_value
  Going-again q mark m r v C0 l s lt h g =
      let high : ltb (at s.workspace r) mark ≡ false = g.marked r ∙ ap not h in
      let same = rows-add_entry r v l h in
      let long : length (add_entry r v l) ≡ length l =
        sym (length-map (λ (e : ℕ × F). e.0) (add_entry r v l))
        ∙ ap length same
        ∙ length-map (λ (e : ℕ × F). e.0) l in
      rw high record {
        nz = omega (arith, g.nz, long);
        built = rw same g.built;
        marked = λ k. ground (arith, g.marked k, has-add_entry k r v l);
        below = g.below;
        counted = omega (arith, g.counted, long);
        dense = Dense-again r v s.x l (omega (arith, g.sizes)) h g.distinct g.dense;
        distinct = Distinct-add_entry r v l g.distinct;
        sizes = omega (arith, g.sizes, length-set s.x r (num.add (val s.x r) v));
      }

  -- A run of `scatter` over entries collects them.
  pub Going-collect :
      (q mark m : ℕ) (C0 : Csc F) (es l : List (ℕ × F)) (s : Work F)
      → 0 < mark
      → All (λ e. e.0 < m) es
      → Going q mark m C0 l s
      → Going q mark m C0 (collect l es) (foldl (λ t e. scatter_value mark e.0 e.1 t) s es)
  Going-collect q mark m C0 [] l s pos h g = g
  Going-collect q mark m C0 ((r, v) ∷ es) l s pos h g =
      Going-collect q mark m C0 es (add_entry r v l) (scatter_value mark r v s) pos h.1
        elim (Bool-cases (has r l)) [
          | inl old ↦ Going-again q mark m r v C0 l s h.0 old g
          | inr new ↦ Going-new q mark m r v C0 l s h.0 pos new g
        ]

  pub scatter_lem :
      (A : Csc F) (j : ℕ) (beta : F) (mark : ℕ) (s : Work F)
      → scatter A j beta mark s
        ≡ foldl (λ t e. scatter_value mark e.0 e.1 t) s (scaled beta (segment (cols A) j))
  unfolding scatter
  scatter_lem A j beta mark s =
      let ps = span (at A.col_start j) (width (cols A) j) in
      let step = λ (t : Work F) (e : ℕ × F). scatter_value mark e.0 e.1 t in
      sym (
        foldl-map (λ (e : ℕ × F). (e.0, num.mul beta e.1)) step (map (entry (cols A)) ps) s
        ∙ foldl-map (entry (cols A)) (λ t e. step t (e.0, num.mul beta e.1)) ps s)

  -- A fresh column.
  pub Going-fresh :
      (mark m : ℕ) (s : Work F)
      → ((r : ℕ) → at s.workspace r < mark)
      → length s.workspace ≡ m
      → length s.x ≡ m
      → Going s.nz mark m s.C [] s
  Going-fresh mark m s low hw hx = record {
    nz = omega arith;
    built = refl;
    marked = λ r. ground (arith, low r);
    below = λ r. omega (arith, low r);
    counted = sym (marks_none mark s.workspace low);
    dense = tt;
    distinct = tt;
    sizes = (hw, hx);
  }

  -- A column has at most m entries.
  pub Going-length :
      (q mark m : ℕ) (C0 : Csc F) (l : List (ℕ × F)) (s : Work F)
      → Going q mark m C0 l s
      → length l ≤ m
  Going-length q mark m C0 l s g = omega (arith, g.counted, marks_bound mark s.workspace, g.sizes)
