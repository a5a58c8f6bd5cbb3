-- ===== src/Interface/Types.antt =====
-- The buffers of the callers and the types of the variables, as
-- cpp/src/linear_programming/cuopt_c.cpp copies and converts them.
use nvcuopt.Prelude.{
  ℕ, suc, ◌<◌, ◌≡◌, refl, sym, ap, ◌∙◌, List, [], ◌∷◌, map, length, Bool, true, false,
  if◌then◌else◌, ltb, lt→ltb, ◌==◌, Bool-cases, inl, inr, arith,
}
use nvcuopt.Interface.Problem.{ProblemCategory, count_integer, category_of}
use nvcuopt.Interface.Create.{to_var_t, cuopt_continuous, cuopt_integer}
use nvcuopt.Interface.Getters.{copy_out, from_var_t, is_mip_category}

-- A buffer of the right size takes the whole vector.
pub copy_out_all {ℓ} :
    {A : Type ℓ} (xs buffer : List A) → length buffer ≡ length xs → copy_out xs buffer ≡ xs
unfolding copy_out
copy_out_all [] [] h = refl
copy_out_all [] (y ∷ buffer) h = absurd (omega arith)
copy_out_all (x ∷ xs) [] h = absurd (omega arith)
copy_out_all (x ∷ xs) (y ∷ buffer) h = ap (◌∷◌ x) (copy_out_all xs buffer (omega arith))

-- The type that a caller reads back: everything but CUOPT_CONTINUOUS counts as an integer.
abbrev pub type_read : ℕ → ℕ
type_read c = if c == cuopt_continuous then cuopt_continuous else cuopt_integer

-- Some variable is not continuous.
unfoldable pub has_integer : List ℕ → Bool
has_integer [] = false
has_integer (c ∷ cs) = if c == cuopt_continuous then has_integer cs else true

pub from_var_t-to_var_t :
    (types : List ℕ) → map from_var_t (map to_var_t types) ≡ map type_read types
unfolding from_var_t to_var_t
from_var_t-to_var_t [] = refl
from_var_t-to_var_t (c ∷ cs) = elim (Bool-cases (c == cuopt_continuous)) [
  | inl e ↦ rw e (ap (◌∷◌ cuopt_continuous) (from_var_t-to_var_t cs))
  | inr e ↦ rw e (ap (◌∷◌ cuopt_integer) (from_var_t-to_var_t cs))
]

count_integer-to_var_t :
    (types : List ℕ) → ltb 0 (count_integer (map to_var_t types)) ≡ has_integer types
unfolding count_integer to_var_t has_integer
count_integer-to_var_t [] = refl
count_integer-to_var_t (c ∷ cs) = elim (Bool-cases (c == cuopt_continuous)) [
  | inl e ↦ rw e (count_integer-to_var_t cs)
  | inr e ↦ rw e (lt→ltb 0 (suc (count_integer (map to_var_t cs))) (omega arith))
]

-- A new problem is an integer or mixed one exactly if some variable is not continuous.
pub category_of-has_integer :
    (types : List ℕ) (n : ℕ)
    → 0 < n
    → is_mip_category (category_of (map to_var_t types) n ProblemCategory.lp) ≡ has_integer types
unfolding category_of is_mip_category
category_of-has_integer types n pos =
    let count = count_integer (map to_var_t types) in
    elim (Bool-cases (count == n)) [
      | inl all ↦ rw all (sym (lt→ltb 0 count (ground arith)))
      | inr some_not ↦ elim (Bool-cases (ltb 0 count)) [
        | inl any ↦ rw (some_not, any) refl
        | inr none_of ↦ rw (some_not, none_of) refl
      ]
    ]
    ∙ count_integer-to_var_t types
