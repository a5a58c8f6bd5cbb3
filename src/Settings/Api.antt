-- ===== src/Settings/Api.antt =====
-- The functions of cpp/src/linear_programming/cuopt_c.cpp on the parameters. A pointer that may be
-- null is an option; a result is the code that is returned and the object that was written.
use Prim.Native.String.{String}
use nvcuopt.Prelude.{ℕ, Bool, false, not, Option, none, some, if◌then◌else◌}
use nvcuopt.Prelude.Num.{Num}
use nvcuopt.Settings.Entries.{
  Exception, Parsed, SolverSettings, outside, unrestricted, set_parameter, get_parameter,
  set_parameter_from_string,
}

abbrev pub cuopt_success : ℕ
cuopt_success = 0

abbrev pub cuopt_invalid_argument : ℕ
cuopt_invalid_argument = 1

-- catch (const std::exception& e) { return CUOPT_INVALID_ARGUMENT; }
unfoldable pub caught : Option Exception → ℕ
caught none = cuopt_success
caught (some e) = cuopt_invalid_argument

-- The integer parameter, else the boolean one as an integer, else the code of an error.
unfoldable pub int_or_bool :
    {I : Type 0} → ⦃num : Num I⦄ → Option I → Option Bool → I → ℕ × Option I
int_or_bool (some v) b old = (cuopt_success, some v)
int_or_bool ⦃num⦄ none (some b) old = (cuopt_success, some (if b then num.one else num.nought))
int_or_bool none none old = (cuopt_invalid_argument, some old)

unfoldable pub float_or_error : {F : Type 0} → Option F → F → ℕ × Option F
float_or_error (some v) old = (cuopt_success, some v)
float_or_error none old = (cuopt_invalid_argument, some old)

-- The instances of `set_parameter` and `get_parameter` for the types of the tables.
module _ {I F : Type 0} ⦃num_i : Num I⦄ ⦃num_f : Num F⦄ where
  unfoldable pub set_int : String → I → SolverSettings I F → SolverSettings I F × Option Exception
  set_int name value s =
      let (values, thrown) = set_parameter outside name value s.int_parameters s.ints in
      (record s { ints = values }, thrown)

  unfoldable pub set_float : String → F → SolverSettings I F → SolverSettings I F × Option Exception
  set_float name value s =
      let (values, thrown) = set_parameter outside name value s.float_parameters s.floats in
      (record s { floats = values }, thrown)

  unfoldable pub set_bool :
      String → Bool → SolverSettings I F → SolverSettings I F × Option Exception
  set_bool name value s =
      let (values, thrown) = set_parameter unrestricted name value s.bool_parameters s.bools in
      (record s { bools = values }, thrown)

  unfoldable pub get_int : String → SolverSettings I F → Option I
  get_int name s = get_parameter num_i.nought name s.int_parameters s.ints

  unfoldable pub get_float : String → SolverSettings I F → Option F
  get_float name s = get_parameter num_f.nought name s.float_parameters s.floats

  unfoldable pub get_bool : String → SolverSettings I F → Option Bool
  get_bool name s = get_parameter false name s.bool_parameters s.bools

  unfoldable pub cuopt_set_parameter :
      (String → Parsed I)
      → (String → Parsed F)
      → Option (SolverSettings I F)
      → Option String
      → Option String
      → ℕ × Option (SolverSettings I F)
  unfolding caught
  cuopt_set_parameter stoi stod none name value = (cuopt_invalid_argument, none)
  cuopt_set_parameter stoi stod (some s) none value = (cuopt_invalid_argument, some s)
  cuopt_set_parameter stoi stod (some s) (some name) none = (cuopt_invalid_argument, some s)
  cuopt_set_parameter stoi stod (some s) (some name) (some value) =
      let (t, thrown) = set_parameter_from_string stoi stod name value s in (caught thrown, some t)

  -- The catch clause for std::invalid_argument tries a boolean parameter.
  unfoldable pub or_bool :
      String → I → SolverSettings I F × Option Exception → ℕ × Option (SolverSettings I F)
  unfolding caught
  or_bool name value (t, none) = (cuopt_success, some t)
  or_bool name value (t, some Exception.invalid_argument) =
      let (u, thrown) = set_bool name (not (num_i.eq value num_i.nought)) t in
      (caught thrown, some u)
  or_bool name value (t, some Exception.out_of_range) = (cuopt_invalid_argument, some t)

  unfoldable pub cuopt_set_integer_parameter :
      Option (SolverSettings I F) → Option String → I → ℕ × Option (SolverSettings I F)
  unfolding or_bool
  cuopt_set_integer_parameter none name value = (cuopt_invalid_argument, none)
  cuopt_set_integer_parameter (some s) none value = (cuopt_invalid_argument, some s)
  cuopt_set_integer_parameter (some s) (some name) value = or_bool name value (set_int name value s)

  -- The last argument is what parameter_value_ptr points to.
  unfoldable pub cuopt_get_integer_parameter :
      Option (SolverSettings I F) → Option String → Option I → ℕ × Option I
  unfolding int_or_bool
  cuopt_get_integer_parameter none name out = (cuopt_invalid_argument, out)
  cuopt_get_integer_parameter (some s) none out = (cuopt_invalid_argument, out)
  cuopt_get_integer_parameter (some s) (some name) none = (cuopt_invalid_argument, none)
  cuopt_get_integer_parameter (some s) (some name) (some old) =
      int_or_bool (get_int name s) (get_bool name s) old

  unfoldable pub cuopt_set_float_parameter :
      Option (SolverSettings I F) → Option String → F → ℕ × Option (SolverSettings I F)
  unfolding caught
  cuopt_set_float_parameter none name value = (cuopt_invalid_argument, none)
  cuopt_set_float_parameter (some s) none value = (cuopt_invalid_argument, some s)
  cuopt_set_float_parameter (some s) (some name) value =
      let (t, thrown) = set_float name value s in (caught thrown, some t)

  unfoldable pub cuopt_get_float_parameter :
      Option (SolverSettings I F) → Option String → Option F → ℕ × Option F
  unfolding float_or_error
  cuopt_get_float_parameter none name out = (cuopt_invalid_argument, out)
  cuopt_get_float_parameter (some s) none out = (cuopt_invalid_argument, out)
  cuopt_get_float_parameter (some s) (some name) none = (cuopt_invalid_argument, none)
  cuopt_get_float_parameter (some s) (some name) (some old) = float_or_error (get_float name s) old
