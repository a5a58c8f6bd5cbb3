-- ===== src/Settings/Entries.antt =====
-- The tables of parameters and `set_parameter`, `set_parameter_from_string` and `get_parameter` of
-- cpp/src/math_optimization/solver_settings.cu. Logging is left out.
use Prim.Native.String.{String}
use text.Mathlib.Text.{◌==◌ as str_eq}
use nvcuopt.Prelude.{
  ℕ, List, [], ◌∷◌, Bool, true, false, ◌||◌, Option, none, some, set, get_or, foldl, if◌then◌else◌,
}
use nvcuopt.Prelude.Num.{Num}

-- The standard exceptions that the code throws or lets pass.
pub data Exception : Type 0 where
  invalid_argument : Exception
  out_of_range : Exception

-- A value read from a text, or the exception of std::stoi or std::stod.
pub data Parsed (A : Type 0) : Type 0 where
  parsed : A → Parsed A
  fails : Exception → Parsed A

-- `range` is min_value and max_value, which the entries of type bool and string do not have.
pub record ParameterInfo (A : Type 0) : Type 0 where
  pub param_name : String
  pub value_ptr : ℕ
  pub range : Option (A × A)
  pub default_value : A

-- What a loop over a table changes: the fields, `found`, and whether it was left by an exception.
pub record Assigning (A : Type 0) : Type 0 where
  pub values : List A
  pub found : Bool
  pub thrown : Option Exception

pub record SolverSettings (I F : Type 0) : Type 0 where
  pub int_parameters : List (ParameterInfo I)
  pub float_parameters : List (ParameterInfo F)
  pub bool_parameters : List (ParameterInfo Bool)
  pub string_parameters : List (ParameterInfo String)
  pub ints : List I
  pub floats : List F
  pub bools : List Bool
  pub strings : List String

-- value < min_value || value > max_value
unfoldable pub outside : {A : Type 0} → ⦃num : Num A⦄ → A → Option (A × A) → Bool
outside ⦃num⦄ value none = false
outside ⦃num⦄ value (some (min_value, max_value)) = num.lt value min_value || num.lt max_value value

-- The bool and string tables have no test.
abbrev pub unrestricted : {A : Type 0} → A → Option (A × A) → Bool
unrestricted value range = false

-- if (!found) throw
unfoldable pub not_found : Bool → Option Exception → Option Exception
not_found found (some e) = some e
not_found true none = none
not_found false none = some Exception.invalid_argument

module _ {A : Type 0} where
  -- One round of a loop over a table.
  unfoldable pub set_entry :
      (A → Option (A × A) → Bool) → String → Parsed A → Assigning A → ParameterInfo A → Assigning A
  set_entry refuses name value s param = elim s.thrown [
    | some e ↦ s
    | none ↦
        if str_eq param.param_name name
        then elim value [
          | Parsed.parsed v ↦
              if refuses v param.range
              then record s { thrown = some Exception.invalid_argument }
              else record s { values = set s.values param.value_ptr v; found = true }
          | Parsed.fails e ↦ record s { thrown = some e }
        ]
        else s
  ]

  -- The fields after `set_parameter`, and what it throws.
  unfoldable pub set_parameter :
      (A → Option (A × A) → Bool)
      → String
      → A
      → List (ParameterInfo A)
      → List A
      → List A × Option Exception
  unfolding set_entry not_found
  set_parameter refuses name value params values =
      let s =
        foldl (set_entry refuses name (Parsed.parsed value))
          (record { values = values; found = false; thrown = none }) params in
      (s.values, not_found s.found s.thrown)

  -- `none` is the exception; `d` stands for a read out of the fields, which does not happen.
  unfoldable pub get_parameter : A → String → List (ParameterInfo A) → List A → Option A
  get_parameter d name [] values = none
  get_parameter d name (param ∷ params) values =
      if str_eq param.param_name name
      then some (get_or values param.value_ptr d)
      else get_parameter d name params values

-- The texts of a truth value.
unfoldable pub string_to_bool : String → Parsed Bool
string_to_bool value =
    if str_eq value "true"
      || str_eq value "True"
      || str_eq value "TRUE"
      || str_eq value "1"
      || str_eq value "t"
      || str_eq value "T"
    then Parsed.parsed true
    else if str_eq value "false"
        || str_eq value "False"
        || str_eq value "FALSE"
        || str_eq value "0"
        || str_eq value "f"
        || str_eq value "F"
    then Parsed.parsed false
    else Parsed.fails Exception.invalid_argument

module _ {I F : Type 0} ⦃num_i : Num I⦄ ⦃num_f : Num F⦄ where
  -- The loops over the four tables; an exception of one of them leaves the later tables alone.
  unfoldable pub set_parameter_from_string :
      (String → Parsed I)
      → (String → Parsed F)
      → String
      → String
      → SolverSettings I F
      → SolverSettings I F × Option Exception
  unfolding set_entry not_found
  set_parameter_from_string stoi stod name value settings =
      let i =
        foldl (set_entry outside name (stoi value))
          (record { values = settings.ints; found = false; thrown = none })
          settings.int_parameters in
      let f =
        foldl (set_entry outside name (stod value))
          (record { values = settings.floats; found = i.found; thrown = i.thrown })
          settings.float_parameters in
      let b =
        foldl (set_entry unrestricted name (string_to_bool value))
          (record { values = settings.bools; found = f.found; thrown = f.thrown })
          settings.bool_parameters in
      let s =
        foldl (set_entry unrestricted name (Parsed.parsed value))
          (record { values = settings.strings; found = b.found; thrown = b.thrown })
          settings.string_parameters in
      (
        record settings {
          ints = i.values;
          floats = f.values;
          bools = b.values;
          strings = s.values;
        },
        not_found s.found s.thrown,
      )
