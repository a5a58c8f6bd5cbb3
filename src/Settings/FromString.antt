-- ===== src/Settings/FromString.antt =====
-- `set_parameter_from_string` of cpp/src/math_optimization/solver_settings.cu against
-- `set_parameter`, and cuOptSetParameter against cuOptSetIntegerParameter.
use Prim.Native.String.{String}
use text.Mathlib.Text.{◌==◌ as str_eq}
use nvcuopt.Prelude.{
  ◌≡◌, refl, sym, ap, ◌∙◌, inl, inr, List, [], ◌∷◌, Bool, true, false, foldl, Option, none, some,
  Bool-cases, Option-cases, arith,
}
use nvcuopt.Prelude.Num.{Num}
use nvcuopt.Settings.Entries.{
  Parsed, ParameterInfo, Assigning, SolverSettings, outside, unrestricted, set_entry, set_parameter,
  set_parameter_from_string, string_to_bool,
}
use nvcuopt.Settings.Api.{
  cuopt_invalid_argument, caught, set_int, or_bool, cuopt_set_parameter,
  cuopt_set_integer_parameter,
}
use nvcuopt.Settings.Laws.{known, Unanimous}
use nvcuopt.Settings.Parameter.{set_parameter-accepted, set_parameter-refused}
use nvcuopt.Settings.Integer.{set_integer_refused}

module _ {A : Type 0} where
  -- An entry of another name is passed over.
  set_entry-other :
      (refuses : A → Option (A × A) → Bool) (name : String) (value : Parsed A) (s : Assigning A)
      (p : ParameterInfo A)
      → str_eq p.param_name name ≡ false
      → set_entry refuses name value s p ≡ s
  unfolding set_entry
  set_entry-other refuses name value s p miss = elim (Option-cases s.thrown) [
    | inl e ↦ rw (e, miss) refl
    | inr (x, e) ↦ rw e refl
  ]

  -- A table that does not know the name is passed over.
  pub set_entries-unknown :
      (refuses : A → Option (A × A) → Bool) (name : String) (value : Parsed A)
      (ps : List (ParameterInfo A)) (s : Assigning A)
      → known name ps ≡ false
      → foldl (set_entry refuses name value) s ps ≡ s
  unfolding set_entry known
  set_entries-unknown refuses name value [] s h = refl
  set_entries-unknown refuses name value (p ∷ ps) s h =
      elim (Bool-cases (str_eq p.param_name name)) [
        | inl hit ↦ absurd (ground arith)
        | inr miss ↦
            ap (λ t. foldl (set_entry refuses name value) t ps)
              (set_entry-other refuses name value s p miss)
            ∙ set_entries-unknown refuses name value ps s (ground arith)
      ]

module _ {I F : Type 0} ⦃num_i : Num I⦄ ⦃num_f : Num F⦄ where
  -- For a name of no other table, a text that std::stoi reads is set as the integer that it reads.
  pub set_parameter_from_string-set_int :
      (stoi : String → Parsed I) (stod : String → Parsed F) (name text : String) (v : I)
      (s : SolverSettings I F)
      → known name s.float_parameters ≡ false
      → known name s.bool_parameters ≡ false
      → known name s.string_parameters ≡ false
      → stoi text ≡ Parsed.parsed v
      → set_parameter_from_string stoi stod name text s ≡ set_int name v s
  unfolding set_parameter_from_string set_int set_parameter
  set_parameter_from_string-set_int stoi stod name text v s no_float no_bool no_string e =
      let i =
        foldl (set_entry outside name (Parsed.parsed v))
          (record { values = s.ints; found = false; thrown = none }) s.int_parameters in
      rw
        (
          e,
          set_entries-unknown outside name (stod text) s.float_parameters
              (record { values = s.floats; found = i.found; thrown = i.thrown }) no_float,
          set_entries-unknown unrestricted name (string_to_bool text) s.bool_parameters
              (record { values = s.bools; found = i.found; thrown = i.thrown }) no_bool,
          set_entries-unknown unrestricted name (Parsed.parsed text) s.string_parameters
              (record { values = s.strings; found = i.found; thrown = i.thrown }) no_string,
        )
        refl

  -- For a name of no other table, whose entries agree on whether they accept the value, and a text
  -- that std::stoi reads, cuOptSetParameter does what cuOptSetIntegerParameter does with the
  -- integer that it reads: the code and the settings are the same.
  pub cuopt_set_parameter-cuopt_set_integer_parameter :
      (stoi : String → Parsed I) (stod : String → Parsed F) (name text : String) (v : I)
      (refused : Bool) (s : SolverSettings I F)
      → known name s.int_parameters ≡ true
      → known name s.float_parameters ≡ false
      → known name s.bool_parameters ≡ false
      → known name s.string_parameters ≡ false
      → Unanimous outside name v refused s.int_parameters
      → stoi text ≡ Parsed.parsed v
      → cuopt_set_parameter stoi stod (some s) (some name) (some text)
        ≡ cuopt_set_integer_parameter (some s) (some name) v
  unfolding cuopt_set_parameter cuopt_set_integer_parameter set_int or_bool caught
  cuopt_set_parameter-cuopt_set_integer_parameter stoi stod name text v true s is_int no_float
        no_bool no_string h e =
      let refuse = set_parameter-refused outside name v s.int_parameters s.ints h in
      let left : cuopt_set_parameter stoi stod (some s) (some name) (some text)
          ≡ (cuopt_invalid_argument, some s) =
        rw
          (
            set_parameter_from_string-set_int stoi stod name text v s no_float no_bool no_string e,
            refuse,
          )
          refl in
      left ∙ sym (set_integer_refused s name v refuse no_bool)
  cuopt_set_parameter-cuopt_set_integer_parameter stoi stod name text v false s is_int no_float
        no_bool no_string h e =
      rw
        (
          set_parameter_from_string-set_int stoi stod name text v s no_float no_bool no_string e,
          set_parameter-accepted outside name v s.int_parameters s.ints h is_int,
        )
        refl
