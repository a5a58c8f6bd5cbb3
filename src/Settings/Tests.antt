-- ===== src/Settings/Tests.antt =====
-- Runs of the functions on the parameters, on part of the tables of
-- cpp/src/math_optimization/solver_settings.cu.
use Prim.Native.String.{String}
use text.Mathlib.Text.{◌==◌ as str_eq}
use nvcuopt.Prelude.{
  ℕ, ◌≡◌, refl, ◌⊎◌, List, [], ◌∷◌, Bool, true, false, Option, none, some, if◌then◌else◌, arith,
}
use nvcuopt.Prelude.Num.{nat_num}
use nvcuopt.Settings.Entries.{
  Exception, Parsed, ParameterInfo, SolverSettings, outside, set_entry, not_found, set_parameter,
  get_parameter,
}
use nvcuopt.Settings.Api.{
  cuopt_success, cuopt_invalid_argument, caught, set_int, set_bool, or_bool, cuopt_set_parameter,
  cuopt_set_integer_parameter, cuopt_get_integer_parameter,
}
use nvcuopt.Settings.Laws.{known, apart, separate}
use nvcuopt.Settings.Parameter.{set_parameter-get_parameter}
use nvcuopt.Settings.Integer.{cuopt_get_integer_parameter-cuopt_set_integer_parameter}
use nvcuopt.Settings.FromString.{cuopt_set_parameter-cuopt_set_integer_parameter}

abbrev entry : {A : Type 0} → String → ℕ → Option (A × A) → A → ParameterInfo A
entry name ptr range d = record {
  param_name = name;
  value_ptr = ptr;
  range = range;
  default_value = d;
}

abbrev int_table : List (ParameterInfo ℕ)
int_table =
    entry "iteration_limit" 0 (some (0, 2147483647)) 2147483647
    ∷ entry "method" 1 (some (0, 2)) 0
    ∷ []

-- A name can stand for two fields.
abbrev float_table : List (ParameterInfo ℕ)
float_table =
    entry "time_limit" 0 (some (0, 1000)) 1000 ∷ entry "time_limit" 1 (some (0, 1000)) 1000 ∷ []

abbrev bool_table : List (ParameterInfo Bool)
bool_table = entry "crossover" 0 none false ∷ entry "mip_scaling" 1 none true ∷ []

abbrev settings : SolverSettings ℕ ℕ
settings = record {
  int_parameters = int_table;
  float_parameters = float_table;
  bool_parameters = bool_table;
  string_parameters = [];
  ints = 2147483647 ∷ 0 ∷ [];
  floats = 1000 ∷ 1000 ∷ [];
  bools = false ∷ true ∷ [];
  strings = [];
}

-- It reads two texts.
abbrev read_text : String → Parsed ℕ
read_text text =
    if str_eq text "2"
    then Parsed.parsed 2
    else if str_eq text "7"
    then Parsed.parsed 7
    else Parsed.fails Exception.invalid_argument

time_limit_runs :
    set_parameter outside "time_limit" 60 float_table (1000 ∷ 1000 ∷ []) ≡ (60 ∷ 60 ∷ [], none)
unfolding set_parameter set_entry not_found outside
time_limit_runs = refl

method_runs :
    set_parameter outside "method" 3 int_table (5 ∷ 0 ∷ [])
    ≡ (5 ∷ 0 ∷ [], some Exception.invalid_argument)
unfolding set_parameter set_entry not_found outside
method_runs = refl

crossover_runs :
    cuopt_set_integer_parameter (some settings) (some "crossover") 5
    ≡ (cuopt_success, some (record settings { bools = true ∷ true ∷ [] }))
unfolding cuopt_set_integer_parameter set_int set_bool or_bool caught set_parameter set_entry
    not_found outside
crossover_runs = refl

set_parameter_example :
    let (values, thrown) = set_parameter outside "time_limit" 60 float_table (1000 ∷ 1000 ∷ []) in
    (thrown ≡ none)
    × (get_parameter 0 "time_limit" float_table values ≡ some 60)
    × ((other : String)
        → str_eq other "time_limit" ≡ false
        → get_parameter 0 other float_table values
          ≡ get_parameter 0 other float_table (1000 ∷ 1000 ∷ []))
    × ((true ≡ true) ⊎ (values ≡ 1000 ∷ 1000 ∷ []))
unfolding separate apart outside known
set_parameter_example =
    set_parameter-get_parameter outside "time_limit" 60 0 false float_table (1000 ∷ 1000 ∷ []) refl
      (omega arith, (omega arith, tt)) (λ e. refl, (λ e. refl, tt))

integer_parameter_example :
    ((true ≡ true)
      × ((t : SolverSettings ℕ ℕ) × (cuopt_set_integer_parameter
              (some settings)
              (some "mip_scaling")
              2
            ≡ (cuopt_success, some t))
          × (cuopt_get_integer_parameter (some t) (some "mip_scaling") (some 0)
              ≡ (cuopt_success, some 1))))
    ⊎ ((true ≡ false)
        × (cuopt_set_integer_parameter (some settings) (some "mip_scaling") 2
            ≡ (cuopt_invalid_argument, some settings)))
unfolding known outside
integer_parameter_example =
    cuopt_get_integer_parameter-cuopt_set_integer_parameter settings "mip_scaling" 2 0 false
      (omega arith, (omega arith, tt)) (omega arith, (omega arith, tt)) (λ e. refl, (λ e. refl, tt))
      refl

set_parameter_text_example :
    cuopt_set_parameter read_text read_text (some settings) (some "method") (some "2")
    ≡ cuopt_set_integer_parameter (some settings) (some "method") 2
unfolding known outside
set_parameter_text_example =
    cuopt_set_parameter-cuopt_set_integer_parameter read_text read_text "method" "2" 2 false
      settings refl refl refl refl (λ e. refl, (λ e. refl, tt)) refl
