-- ===== src/Settings/Integer.antt =====
-- cuOptSetIntegerParameter and cuOptGetIntegerParameter of
-- cpp/src/linear_programming/cuopt_c.cpp together.
use Prim.Native.String.{String}
use nvcuopt.Prelude.{
  ◌≡◌, refl, subst, ◌∙◌, ◌⊎◌, inl, inr, Bool, true, false, not, ◌&&◌, ◌||◌, some, length,
  Bool-cases, if◌then◌else◌, arith,
}
use nvcuopt.Prelude.Num.{Num}
use nvcuopt.Settings.Entries.{Exception, SolverSettings, outside, unrestricted, set_parameter}
use nvcuopt.Settings.Api.{
  cuopt_success, cuopt_invalid_argument, caught, set_int, set_bool, get_int, get_bool, or_bool,
  int_or_bool, cuopt_set_integer_parameter, cuopt_get_integer_parameter,
}
use nvcuopt.Settings.Laws.{known, Unanimous, InFields, write_all, get_parameter-write_all}
use nvcuopt.Settings.Parameter.{
  set_parameter-accepted, set_parameter-refused, set_parameter-unknown, get_parameter-unknown,
  unrestricted-Unanimous,
}

-- What a caller reads back of an integer: a boolean parameter keeps whether it is 0.
abbrev pub read_back : {I : Type 0} → ⦃num : Num I⦄ → Bool → I → I
read_back ⦃num⦄ of_bool v =
    if of_bool then (if not (num.eq v num.nought) then num.one else num.nought) else v

module _ {I F : Type 0} ⦃num_i : Num I⦄ ⦃num_f : Num F⦄ where
  -- The integer table has the last word unless it throws.
  set_integer_thrown :
      (s : SolverSettings I F) (name : String) (v : I)
      → set_parameter outside name v s.int_parameters s.ints
        ≡ (s.ints, some Exception.invalid_argument)
      → cuopt_set_integer_parameter (some s) (some name) v ≡ (
          let (u, thrown) = set_bool name (not (num_i.eq v num_i.nought)) s in
          (caught thrown, some u))
  unfolding cuopt_set_integer_parameter set_int or_bool
  set_integer_thrown s name v e = rw e refl

  -- Where neither table takes the value, nothing changes.
  pub set_integer_refused :
      (s : SolverSettings I F) (name : String) (v : I)
      → set_parameter outside name v s.int_parameters s.ints
        ≡ (s.ints, some Exception.invalid_argument)
      → known name s.bool_parameters ≡ false
      → cuopt_set_integer_parameter (some s) (some name) v ≡ (cuopt_invalid_argument, some s)
  unfolding set_bool caught
  set_integer_refused s name v e no_bool =
      set_integer_thrown s name v e
      ∙ rw
          (set_parameter-unknown unrestricted name (not (num_i.eq v num_i.nought)) s.bool_parameters
            s.bools no_bool)
          refl

  -- An integer parameter that accepts the value.
  set_integer_int :
      (s : SolverSettings I F) (name : String) (v old : I)
      → InFields (length s.ints) s.int_parameters
      → Unanimous outside name v false s.int_parameters
      → known name s.int_parameters ≡ true
      → (t : SolverSettings I F) × (cuopt_set_integer_parameter (some s) (some name) v
          ≡ (cuopt_success, some t))
        × (cuopt_get_integer_parameter (some t) (some name) (some old) ≡ (cuopt_success, some v))
  unfolding cuopt_set_integer_parameter set_int or_bool cuopt_get_integer_parameter get_int
  set_integer_int s name v old fields h is_int = (
    record s { ints = write_all name v s.int_parameters s.ints },
    rw (set_parameter-accepted outside name v s.int_parameters s.ints h is_int) refl,
    rw (get_parameter-write_all name v num_i.nought s.int_parameters s.ints fields, is_int) refl,
  )

  -- A boolean parameter, where there is no integer parameter of the name.
  set_integer_bool :
      (s : SolverSettings I F) (name : String) (v old : I)
      → InFields (length s.bools) s.bool_parameters
      → known name s.int_parameters ≡ false
      → known name s.bool_parameters ≡ true
      → (t : SolverSettings I F) × (cuopt_set_integer_parameter (some s) (some name) v
          ≡ (cuopt_success, some t))
        × (cuopt_get_integer_parameter (some t) (some name) (some old)
            ≡ (cuopt_success, some (read_back true v)))
  unfolding set_bool caught cuopt_get_integer_parameter get_int get_bool int_or_bool
  set_integer_bool s name v old fields no_int is_bool =
      let b = not (num_i.eq v num_i.nought) in
      (
        record s { bools = write_all name b s.bool_parameters s.bools },
        set_integer_thrown s name v
              (set_parameter-unknown outside name v s.int_parameters s.ints no_int)
            ∙ rw
                (set_parameter-accepted unrestricted name b s.bool_parameters s.bools
                  (unrestricted-Unanimous name b s.bool_parameters) is_bool)
                refl,
        rw
            (
              get_parameter-unknown name num_i.nought s.int_parameters s.ints no_int,
              get_parameter-write_all name b false s.bool_parameters s.bools fields,
              is_bool,
            )
            refl,
      )

  -- For settings whose fields exist, a name that is not both an integer and a boolean parameter,
  -- and integer entries of the name that agree on whether they accept the value:
  -- cuOptSetIntegerParameter succeeds exactly for an integer parameter that accepts the value and
  -- for a boolean parameter, and then cuOptGetIntegerParameter gives the value, or 1 or 0 for a
  -- boolean parameter by whether the value was 0. Otherwise it returns CUOPT_INVALID_ARGUMENT and
  -- leaves the settings as they were.
  pub cuopt_get_integer_parameter-cuopt_set_integer_parameter :
      (s : SolverSettings I F) (name : String) (v old : I) (refused : Bool)
      → InFields (length s.ints) s.int_parameters
      → InFields (length s.bools) s.bool_parameters
      → Unanimous outside name v refused s.int_parameters
      → (known name s.int_parameters && known name s.bool_parameters) ≡ false
      → let of_bool = known name s.bool_parameters in
        let accepted = of_bool || (known name s.int_parameters && not refused) in
        ((accepted ≡ true)
          × ((t : SolverSettings I F) × (cuopt_set_integer_parameter (some s) (some name) v
                ≡ (cuopt_success, some t))
              × (cuopt_get_integer_parameter (some t) (some name) (some old)
                  ≡ (cuopt_success, some (read_back of_bool v)))))
        ⊎ ((accepted ≡ false)
            × (cuopt_set_integer_parameter (some s) (some name) v
                ≡ (cuopt_invalid_argument, some s)))
  cuopt_get_integer_parameter-cuopt_set_integer_parameter s name v old refused ints bools h one =
      elim (Bool-cases (known name s.bool_parameters)) [
        | inl is_bool ↦
            rw is_bool (inl (refl, set_integer_bool s name v old bools (ground arith) is_bool))
        | inr no_bool ↦ elim (Bool-cases (known name s.int_parameters)) [
          | inr no_int ↦
              rw (no_bool, no_int)
                (inr (
                  refl,
                  set_integer_refused s name v
                      (set_parameter-unknown outside name v s.int_parameters s.ints no_int) no_bool,
                ))
          | inl is_int ↦ elim (Bool-cases refused) [
            | inl bad ↦
                rw (no_bool, is_int, bad)
                  (inr (
                    refl,
                    set_integer_refused s name v
                        (set_parameter-refused outside name v s.int_parameters s.ints
                          (subst (λ r. Unanimous outside name v r s.int_parameters) bad h))
                        no_bool,
                  ))
            | inr good ↦
                rw (no_bool, is_int, good)
                  (inl (
                    refl,
                    set_integer_int s name v old ints
                        (subst (λ r. Unanimous outside name v r s.int_parameters) good h) is_int,
                  ))
          ]
        ]
      ]
