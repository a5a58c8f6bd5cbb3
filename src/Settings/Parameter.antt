-- ===== src/Settings/Parameter.antt =====
-- `set_parameter` of cpp/src/math_optimization/solver_settings.cu on every branch.
use Prim.Native.String.{String}
use text.Mathlib.Text.{◌==◌ as str_eq}
use nvcuopt.Prelude.{
  ◌≡◌, refl, ap, ◌∙◌, ◌⊎◌, inl, inr, List, [], ◌∷◌, arith, Bool, true, false, not, ◌&&◌, Option,
  none, some, length, Bool-cases, if◌then◌else◌,
}
use nvcuopt.Settings.Entries.{
  Exception, unrestricted, ParameterInfo, Assigning, set_parameter, get_parameter, not_found,
}
use nvcuopt.Settings.Laws.{
  known, Unanimous, separate, InFields, write_all, set_entries-accepted, set_entries-refused,
  get_parameter-write_all, get_parameter-write_all_other,
}

module _ {A : Type 0} where
  -- A table that knows the name and accepts the value.
  pub set_parameter-accepted :
      (refuses : A → Option (A × A) → Bool) (name : String) (v : A) (ps : List (ParameterInfo A))
      (vs : List A)
      → Unanimous refuses name v false ps
      → known name ps ≡ true
      → set_parameter refuses name v ps vs ≡ (write_all name v ps vs, none)
  unfolding set_parameter not_found
  set_parameter-accepted refuses name v ps vs h is_known =
      ap (λ (s : Assigning A). (s.values, not_found s.found s.thrown))
        (set_entries-accepted refuses name v ps vs false h)
      ∙ rw is_known refl

  -- A table that refuses the value.
  pub set_parameter-refused :
      (refuses : A → Option (A × A) → Bool) (name : String) (v : A) (ps : List (ParameterInfo A))
      (vs : List A)
      → Unanimous refuses name v true ps
      → set_parameter refuses name v ps vs ≡ (vs, some Exception.invalid_argument)
  unfolding set_parameter not_found
  set_parameter-refused refuses name v ps vs h =
      ap (λ (s : Assigning A). (s.values, not_found s.found s.thrown))
        (set_entries-refused refuses name v ps vs false h)
      ∙ elim (Bool-cases (known name ps)) [ inl e ↦ rw e refl | inr e ↦ rw e refl ]

  -- Without an entry of the name, nothing is asked of the ranges.
  pub known-Unanimous :
      (refuses : A → Option (A × A) → Bool) (name : String) (v : A) (refused : Bool)
      (ps : List (ParameterInfo A))
      → known name ps ≡ false
      → Unanimous refuses name v refused ps
  unfolding known
  known-Unanimous refuses name v refused [] h = tt
  known-Unanimous refuses name v refused (p ∷ ps) h = elim (Bool-cases (str_eq p.param_name name)) [
    | inl hit ↦ absurd (ground arith)
    | inr miss ↦
        (λ hit. absurd (ground arith), known-Unanimous refuses name v refused ps (ground arith))
  ]

  -- A table that does not know the name.
  pub set_parameter-unknown :
      (refuses : A → Option (A × A) → Bool) (name : String) (v : A) (ps : List (ParameterInfo A))
      (vs : List A)
      → known name ps ≡ false
      → set_parameter refuses name v ps vs ≡ (vs, some Exception.invalid_argument)
  set_parameter-unknown refuses name v ps vs h =
      set_parameter-refused refuses name v ps vs (known-Unanimous refuses name v true ps h)

  pub unrestricted-Unanimous :
      (name : String) (v : A) (ps : List (ParameterInfo A)) → Unanimous unrestricted name v false ps
  unrestricted-Unanimous name v [] = tt
  unrestricted-Unanimous name v (p ∷ ps) = (λ hit. refl, unrestricted-Unanimous name v ps)

  pub get_parameter-unknown :
      (name : String) (d : A) (ps : List (ParameterInfo A)) (vs : List A)
      → known name ps ≡ false
      → get_parameter d name ps vs ≡ none
  unfolding get_parameter known
  get_parameter-unknown name d [] vs h = refl
  get_parameter-unknown name d (p ∷ ps) vs h = elim (Bool-cases (str_eq p.param_name name)) [
    | inl hit ↦ absurd (ground arith)
    | inr miss ↦ rw miss (get_parameter-unknown name d ps vs (ground arith))
  ]

  -- For a table whose fields exist and whose names share no field, and where the entries of the
  -- name agree on whether they accept the value: `set_parameter` throws invalid_argument exactly
  -- where no entry has the name or the value is refused, and then changes no field; otherwise
  -- `get_parameter` gives the value. Every other parameter has what it had.
  pub set_parameter-get_parameter :
      (refuses : A → Option (A × A) → Bool) (name : String) (v d : A) (refused : Bool)
      (ps : List (ParameterInfo A)) (vs : List A)
      → separate ps ps ≡ true
      → InFields (length vs) ps
      → Unanimous refuses name v refused ps
      → let (vs', thrown) = set_parameter refuses name v ps vs in
        let accepted = known name ps && not refused in
        (thrown ≡ (if accepted then none else some Exception.invalid_argument))
        × (get_parameter d name ps vs' ≡ (if accepted then some v else get_parameter d name ps vs))
        × ((other : String)
            → str_eq other name ≡ false
            → get_parameter d other ps vs' ≡ get_parameter d other ps vs)
        × ((accepted ≡ true) ⊎ (vs' ≡ vs))
  set_parameter-get_parameter refuses name v d true ps vs sep fields h =
      let e = set_parameter-refused refuses name v ps vs h in
      elim (Bool-cases (known name ps)) [
        | inl is_known ↦ rw (e, is_known) (refl, refl, λ other ne. refl, inr refl)
        | inr unknown ↦ rw (e, unknown) (refl, refl, λ other ne. refl, inr refl)
      ]
  set_parameter-get_parameter refuses name v d false ps vs sep fields h =
      elim (Bool-cases (known name ps)) [
        | inl is_known ↦
            rw (set_parameter-accepted refuses name v ps vs h is_known, is_known)
              (
                refl,
                get_parameter-write_all name v d ps vs fields ∙ rw is_known refl,
                λ other ne. get_parameter-write_all_other name other v d ps vs sep ne,
                inl refl,
              )
        | inr unknown ↦
            rw (set_parameter-unknown refuses name v ps vs unknown, unknown)
              (refl, refl, λ other ne. refl, inr refl)
      ]
