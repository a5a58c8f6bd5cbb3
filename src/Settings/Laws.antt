-- ===== src/Settings/Laws.antt =====
-- `set_parameter` and `get_parameter` of cpp/src/math_optimization/solver_settings.cu: what a loop
-- over a table does to the fields.
use Prim.Native.String.{String}
use mathlib.Core.Bool.{or-true}
use text.Mathlib.Text.{◌==◌ as str_eq}
use text.Mathlib.TextEquality.{eq_iff}
use nvcuopt.Prelude.{
  ℕ, ◌<◌, ◌≡◌, refl, sym, ap, subst, ◌∙◌, List, [], ◌∷◌, Bool, true, false, not, ◌&&◌, ◌||◌, ◌==◌,
  Option, none, some, set, get_or, get_or-set, get_or-set_self, get_or-set_ne, arith, length,
  length-set, All, foldl, inl, inr, Bool-cases, if◌then◌else◌,
}
use nvcuopt.Settings.Entries.{Exception, Parsed, ParameterInfo, set_entry, get_parameter}

-- The parts of a conjunction that holds.
pub both : (a b : Bool) → (a && b) ≡ true → (a ≡ true) × (b ≡ true)
both true b h = (refl, h)
both false b h = absurd (ground arith)

-- A disjunction that holds, without its first part.
pub otherwise : (a b : Bool) → (a || not b) ≡ true → a ≡ false → b ≡ false
otherwise true b h e = absurd (ground arith)
otherwise false true h e = absurd (ground arith)
otherwise false false h e = refl

module _ {A : Type 0} where
  -- Some entry of the table has the name.
  unfoldable pub known : String → List (ParameterInfo A) → Bool
  known name [] = false
  known name (p ∷ ps) = str_eq p.param_name name || known name ps

  -- Every entry of the name answers the question of the range in one way.
  abbrev pub Unanimous :
      (A → Option (A × A) → Bool) → String → A → Bool → List (ParameterInfo A) → Type 0
  Unanimous refuses name v refused =
      All (λ p. str_eq p.param_name name ≡ true → refuses v p.range ≡ refused)

  -- Two entries that share a field have one name.
  unfoldable pub apart : ParameterInfo A → List (ParameterInfo A) → Bool
  apart p [] = true
  apart p (q ∷ qs) =
      (str_eq p.param_name q.param_name || not (p.value_ptr == q.value_ptr)) && apart p qs

  -- The fields lie in the list, and no two names share one.
  unfoldable pub separate : List (ParameterInfo A) → List (ParameterInfo A) → Bool
  unfolding apart
  separate [] all = true
  separate (p ∷ ps) all = apart p all && separate ps all

  -- Each field of the table is one of n.
  abbrev pub InFields : ℕ → List (ParameterInfo A) → Type 0
  InFields n = All (λ p. p.value_ptr < n)

  -- The fields with each one of the name written.
  unfoldable pub write_all : String → A → List (ParameterInfo A) → List A → List A
  write_all name v [] vs = vs
  write_all name v (p ∷ ps) vs =
      write_all name v ps (if str_eq p.param_name name then set vs p.value_ptr v else vs)

  pub length-write_all :
      (name : String) (v : A) (ps : List (ParameterInfo A)) (vs : List A)
      → length (write_all name v ps vs) ≡ length vs
  unfolding write_all
  length-write_all name v [] vs = refl
  length-write_all name v (p ∷ ps) vs =
      length-write_all name v ps _ ∙ elim (Bool-cases (str_eq p.param_name name)) [
        | inl hit ↦ rw hit (length-set vs p.value_ptr v)
        | inr miss ↦ rw miss refl
      ]

  -- A loop left by an exception changes nothing more.
  pub set_entries-thrown :
      (refuses : A → Option (A × A) → Bool) (name : String) (value : Parsed A)
      (ps : List (ParameterInfo A)) (vs : List A) (found : Bool) (e : Exception)
      → foldl
          (set_entry refuses name value)
          (record { values = vs; found = found; thrown = some e })
          ps
        ≡ record { values = vs; found = found; thrown = some e }
  unfolding set_entry
  set_entries-thrown refuses name value [] vs found e = refl
  set_entries-thrown refuses name value (p ∷ ps) vs found e =
      set_entries-thrown refuses name value ps vs found e

  -- Where each entry of the name accepts the value, all of them are written.
  pub set_entries-accepted :
      (refuses : A → Option (A × A) → Bool) (name : String) (v : A) (ps : List (ParameterInfo A))
      (vs : List A) (found : Bool)
      → Unanimous refuses name v false ps
      → foldl
          (set_entry refuses name (Parsed.parsed v))
          (record { values = vs; found = found; thrown = none })
          ps
        ≡ record { values = write_all name v ps vs; found = found || known name ps; thrown = none }
  unfolding set_entry known write_all
  set_entries-accepted refuses name v [] vs true h = refl
  set_entries-accepted refuses name v [] vs false h = refl
  set_entries-accepted refuses name v (p ∷ ps) vs found h =
      elim (Bool-cases (str_eq p.param_name name)) [
        | inl hit ↦
            rw (hit, h.0 hit)
              (set_entries-accepted refuses name v ps _ true h.1
                ∙ ap
                    (λ b. record {
                      values = write_all name v ps (set vs p.value_ptr v);
                      found = b;
                      thrown = none;
                    })
                    (sym (or-true found)))
        | inr miss ↦ rw miss (set_entries-accepted refuses name v ps vs found h.1)
      ]

  -- Where each refuses it, the first one ends the loop, and none is written.
  pub set_entries-refused :
      (refuses : A → Option (A × A) → Bool) (name : String) (v : A) (ps : List (ParameterInfo A))
      (vs : List A) (found : Bool)
      → Unanimous refuses name v true ps
      → foldl
          (set_entry refuses name (Parsed.parsed v))
          (record { values = vs; found = found; thrown = none })
          ps
        ≡ record {
          values = vs;
          found = found;
          thrown = if known name ps then some Exception.invalid_argument else none;
        }
  unfolding set_entry known
  set_entries-refused refuses name v [] vs found h = refl
  set_entries-refused refuses name v (p ∷ ps) vs found h =
      elim (Bool-cases (str_eq p.param_name name)) [
        | inl hit ↦
            rw (hit, h.0 hit)
              (set_entries-thrown refuses name (Parsed.parsed v) ps vs found
                Exception.invalid_argument)
        | inr miss ↦ rw miss (set_entries-refused refuses name v ps vs found h.1)
      ]

  -- A field that has the value keeps it.
  write_all-keeps :
      (name : String) (v d : A) (ps : List (ParameterInfo A)) (vs : List A) (k : ℕ)
      → k < length vs
      → InFields (length vs) ps
      → get_or vs k d ≡ v
      → get_or (write_all name v ps vs) k d ≡ v
  unfolding write_all
  write_all-keeps name v d [] vs k lt h e = e
  write_all-keeps name v d (p ∷ ps) vs k lt h e = elim (Bool-cases (str_eq p.param_name name)) [
    | inl hit ↦
        let size = length-set vs p.value_ptr v in
        rw hit (
          write_all-keeps name v d ps (set vs p.value_ptr v) k (subst (λ n. k < n) (sym size) lt)
            (subst (λ n. InFields n ps) (sym size) h.1)
            (get_or-set vs p.value_ptr k v d h.0 ∙ elim (Bool-cases (p.value_ptr == k)) [
              | inl same ↦ rw same refl
              | inr other ↦ rw other e
            ]))
    | inr miss ↦ rw miss (write_all-keeps name v d ps vs k lt h.1 e)
  ]

  -- After the loop the parameter of the name has the value.
  pub get_parameter-write_all :
      (name : String) (v d : A) (ps : List (ParameterInfo A)) (vs : List A)
      → InFields (length vs) ps
      → get_parameter d name ps (write_all name v ps vs) ≡ (if known name ps then some v else none)
  unfolding get_parameter known write_all
  get_parameter-write_all name v d [] vs h = refl
  get_parameter-write_all name v d (p ∷ ps) vs h = elim (Bool-cases (str_eq p.param_name name)) [
    | inl hit ↦
        let size = length-set vs p.value_ptr v in
        rw hit (
          ap some (
            write_all-keeps name v d ps (set vs p.value_ptr v) p.value_ptr
              (subst (λ n. p.value_ptr < n) (sym size) h.0)
              (subst (λ n. InFields n ps) (sym size) h.1) (get_or-set_self vs p.value_ptr v d h.0)))
    | inr miss ↦ rw miss (get_parameter-write_all name v d ps vs h.1)
  ]

  -- A field apart from those of the table keeps its value.
  write_all-apart :
      (name : String) (v d : A) (q : ParameterInfo A) (ps : List (ParameterInfo A)) (vs : List A)
      → apart q ps ≡ true
      → str_eq q.param_name name ≡ false
      → get_or (write_all name v ps vs) q.value_ptr d ≡ get_or vs q.value_ptr d
  unfolding write_all apart
  write_all-apart name v d q [] vs sep ne = refl
  write_all-apart name v d q (p ∷ ps) vs sep ne = elim (Bool-cases (str_eq p.param_name name)) [
    | inl hit ↦
        let same : p.param_name ≡ name = (eq_iff p.param_name name).0 hit in
        let differ : str_eq q.param_name p.param_name ≡ false = rw same ne in
        let alone : (q.value_ptr == p.value_ptr) ≡ false = otherwise _ _ (both _ _ sep).0 differ in
        rw hit (
          write_all-apart name v d q ps (set vs p.value_ptr v) (both _ _ sep).1 ne
          ∙ get_or-set_ne vs p.value_ptr q.value_ptr v d (ground arith))
    | inr miss ↦ rw miss (write_all-apart name v d q ps vs (both _ _ sep).1 ne)
  ]

  get_parameter-write_all_rest :
      (name other : String) (v d : A) (qs ps : List (ParameterInfo A)) (vs : List A)
      → separate qs ps ≡ true
      → str_eq other name ≡ false
      → get_parameter d other qs (write_all name v ps vs) ≡ get_parameter d other qs vs
  unfolding get_parameter separate
  get_parameter-write_all_rest name other v d [] ps vs sep ne = refl
  get_parameter-write_all_rest name other v d (q ∷ qs) ps vs sep ne =
      elim (Bool-cases (str_eq q.param_name other)) [
        | inl hit ↦
            let same : q.param_name ≡ other = (eq_iff q.param_name other).0 hit in
            rw hit (ap some (write_all-apart name v d q ps vs (both _ _ sep).0 (rw same ne)))
        | inr miss ↦
            rw miss (get_parameter-write_all_rest name other v d qs ps vs (both _ _ sep).1 ne)
      ]

  -- And those of other names have what they had.
  pub get_parameter-write_all_other :
      (name other : String) (v d : A) (ps : List (ParameterInfo A)) (vs : List A)
      → separate ps ps ≡ true
      → str_eq other name ≡ false
      → get_parameter d other ps (write_all name v ps vs) ≡ get_parameter d other ps vs
  get_parameter-write_all_other name other v d ps vs sep ne =
      get_parameter-write_all_rest name other v d ps ps vs sep ne
