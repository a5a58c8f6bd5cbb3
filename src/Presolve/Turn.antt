-- ===== src/Presolve/Turn.antt =====
-- Each round of the loop of `convert_greater_to_less` in cpp/src/dual_simplex/presolve.cpp, and all of
-- them.
use nvcuopt.Prelude.{
  ℕ, suc, ◌-◌, ◌≤◌, ◌<◌, ◌≡◌, refl, sym, subst, ap, ◌∙◌, List, arith, ◌==◌, true, false, inl, inr,
  Bool-cases, if◌then◌else◌, length, length-set, get_or, set, get_or-set_self, get_or-set_ne,
  for_loop, for_loop_inv,
}
use nvcuopt.Prelude.Num.{Num}
use nvcuopt.Sparse.Matrix.{Csr, at, val}
use nvcuopt.Sparse.Layout.{rows}
use nvcuopt.Presolve.Problem.{minus_one}
use nvcuopt.Presolve.Convert.{Senses, negate_greater_row}
use nvcuopt.Presolve.Negate.{
  lessened, turned, start_le, negate_row_lem, Turned, HasRoom, negate_greater_row_hit,
  negate_greater_row_miss,
}

module _ {ℓ} {A : Type ℓ} (d : A) (v : List A) (g : ℕ → A) (i : ℕ)
    (old : (r : ℕ) → r < i → get_or v r d ≡ g r) where
  -- What is known of the places below i, and of place i, after a write there and without one.
  set_known : (w : A) → i < length v → w ≡ g i → (r : ℕ) → r < suc i → get_or (set v i w) r d ≡ g r
  set_known w room e r lt = elim (Bool-cases (i == r)) [
    | inl hit ↦
        let same : i ≡ r = ground arith in
        subst (λ k. get_or (set v i w) k d ≡ g k) same (get_or-set_self v i w d room ∙ e)
    | inr miss ↦ get_or-set_ne v i r w d (ground arith) ∙ old r (ground arith)
  ]

  one_more : get_or v i d ≡ g i → (r : ℕ) → r < suc i → get_or v r d ≡ g r
  one_more e r lt = elim (Bool-cases (i == r)) [
    | inl hit ↦ let same : i ≡ r = ground arith in subst (λ k. get_or v k d ≡ g k) same e
    | inr miss ↦ old r (ground arith)
  ]

module _ {F : Type 0} ⦃num : Num F⦄ where
  Turned-hit :
      (A : Csr F) (x0 rhs0 : List F) (c0 : Senses) (n i : ℕ) (x rhs : List F) (c : Senses)
      → HasRoom A x0 rhs0 c0 n
      → i < n
      → at c0.row_sense i ≡ b'G'
      → Turned A x0 rhs0 c0 i (x, rhs, c)
      → Turned A x0 rhs0 c0 (suc i) (negate_greater_row A i (x, rhs, c))
  Turned-hit A x0 rhs0 c0 n i x rhs c room lt sense inv =
      let up = room.layout.rising i lt in
      let top =
        start_le n A.n (rows A) room.layout (suc i) (n - suc i) n (omega arith) (omega arith) in
      let now : at c.row_sense i ≡ b'G' = inv.sense_later i (omega arith) ∙ sense in
      let (ex, er, es) = negate_greater_row_hit A i x rhs c now in
      let hit : at c0.row_sense i == b'G' ≡ true = ground arith in
      let turn : (v : F) → turned (at c0.row_sense i) v ≡ num.mul v minus_one =
        λ v. ap (λ b. if b then num.mul v minus_one else v) hit in
      let (size, done, before, after) =
        negate_row_lem A i x up (omega (arith, inv.x_size, room.values)) in
      record {
        x_size = ap length ex ∙ size ∙ inv.x_size;
        x_done = λ r p low from under. ap (λ y. val y p) ex ∙ elim (Bool-cases (r == i)) [
          | inl same ↦
              let e : r ≡ i = ground arith in
              let from' = subst (λ k. at A.row_start k ≤ p) e from in
              let under' = subst (λ k. p < at A.row_start (suc k)) e under in
              done p from' under'
              ∙ ap (λ a. num.mul a minus_one) (inv.x_later p from')
              ∙ sym (turn (val x0 p))
              ∙ ap (λ k. turned (at c0.row_sense k) (val x0 p)) (sym e)
          | inr other ↦
              let lower : r < i = ground arith in
              let le =
                start_le n A.n (rows A) room.layout (suc r) (i - suc r) i (omega arith)
                  (omega arith) in
              before p (omega arith) ∙ inv.x_done r p lower from under
        ];
        x_later = λ p high. ap (λ y. val y p) ex ∙ after p high ∙ inv.x_later p (omega arith);
        rhs_size = ap length er ∙ length-set rhs i _ ∙ inv.rhs_size;
        rhs_done = λ r low.
            ap (λ y. val y r) er
            ∙ set_known num.nought rhs (λ k. turned (at c0.row_sense k) (val rhs0 k)) i inv.rhs_done
                (num.mul (val rhs i) minus_one) (omega (arith, inv.rhs_size, room.sides))
                (ap (λ a. num.mul a minus_one) (inv.rhs_later i (omega arith))
                  ∙ sym (turn (val rhs0 i)))
                r low;
        rhs_later = λ r high.
            ap (λ y. val y r) er
            ∙ get_or-set_ne rhs i r _ num.nought (omega arith)
            ∙ inv.rhs_later r (omega arith);
        sense_size = ap length es ∙ length-set c.row_sense i b'L' ∙ inv.sense_size;
        sense_done = λ r low.
            ap (λ y. at y r) es
            ∙ set_known 0 c.row_sense (λ k. lessened (at c0.row_sense k)) i inv.sense_done b'L'
                (omega (arith, inv.sense_size, room.senses))
                (ap (λ b. if b then b'L' else at c0.row_sense i) (sym hit)) r low;
        sense_later = λ r high.
            ap (λ y. at y r) es
            ∙ get_or-set_ne c.row_sense i r b'L' 0 (omega arith)
            ∙ inv.sense_later r (omega arith);
      }

  Turned-miss :
      (A : Csr F) (x0 rhs0 : List F) (c0 : Senses) (n i : ℕ) (x rhs : List F) (c : Senses)
      → HasRoom A x0 rhs0 c0 n
      → i < n
      → at c0.row_sense i == b'G' ≡ false
      → Turned A x0 rhs0 c0 i (x, rhs, c)
      → Turned A x0 rhs0 c0 (suc i) (negate_greater_row A i (x, rhs, c))
  Turned-miss A x0 rhs0 c0 n i x rhs c room lt miss inv =
      let up = room.layout.rising i lt in
      let here = inv.sense_later i (omega arith) in
      let now : at c.row_sense i == b'G' ≡ false = ap (λ s. s == b'G') here ∙ miss in
      let turn : (v : F) → v ≡ turned (at c0.row_sense i) v =
        λ v. ap (λ b. if b then num.mul v minus_one else v) (sym miss) in
      subst (Turned A x0 rhs0 c0 (suc i)) (sym (negate_greater_row_miss A i x rhs c now)) (record {
        x_size = inv.x_size;
        x_done = λ r p low from under. elim (Bool-cases (r == i)) [
          | inl same ↦
              let e : r ≡ i = ground arith in
              let from' = subst (λ k. at A.row_start k ≤ p) e from in
              inv.x_later p from'
              ∙ turn (val x0 p)
              ∙ ap (λ k. turned (at c0.row_sense k) (val x0 p)) (sym e)
          | inr other ↦ inv.x_done r p (ground arith) from under
        ];
        x_later = λ p high. inv.x_later p (omega arith);
        rhs_size = inv.rhs_size;
        rhs_done =
            one_more num.nought rhs (λ k. turned (at c0.row_sense k) (val rhs0 k)) i inv.rhs_done
              (inv.rhs_later i (omega arith) ∙ turn (val rhs0 i));
        rhs_later = λ r high. inv.rhs_later r (omega arith);
        sense_size = inv.sense_size;
        sense_done =
            one_more 0 c.row_sense (λ k. lessened (at c0.row_sense k)) i inv.sense_done
              (here ∙ ap (λ b. if b then b'L' else at c0.row_sense i) (sym miss));
        sense_later = λ r high. inv.sense_later r (omega arith);
      })

  pub negated :
      (A : Csr F) (x0 rhs0 : List F) (c0 : Senses) (n : ℕ)
      → HasRoom A x0 rhs0 c0 n
      → Turned A x0 rhs0 c0 n (for_loop 0 n (negate_greater_row A) (x0, rhs0, c0))
  negated A x0 rhs0 c0 n room =
      for_loop_inv (Turned A x0 rhs0 c0) (negate_greater_row A) 0 n (omega arith)
        (λ i s _ lt inv. elim (Bool-cases (at c0.row_sense i == b'G')) [
          | inl hit ↦ Turned-hit A x0 rhs0 c0 n i s.0 s.1 s.2 room lt (ground arith) inv
          | inr miss ↦ Turned-miss A x0 rhs0 c0 n i s.0 s.1 s.2 room lt miss inv
        ])
        (x0, rhs0, c0)
        (record {
          x_size = refl;
          x_done = λ r p low from under. absurd (omega arith);
          x_later = λ p high. refl;
          rhs_size = refl;
          rhs_done = λ r low. absurd (omega arith);
          rhs_later = λ r high. refl;
          sense_size = refl;
          sense_done = λ r low. absurd (omega arith);
          sense_later = λ r high. refl;
        })
