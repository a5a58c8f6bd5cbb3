-- ===== src/Prelude/Lists.antt =====
-- `std::vector` as a list under native indices. A read out of range gives the default that stands
-- beside it and a write out of range changes nothing; in the source both are undefined behaviour.
use Prim.Native.Nat.{ℕ, zero, suc, ◌+◌, ◌≤◌, ◌<◌}
use mathlib.Core.Path.{◌≡◌, refl, ap, subst, ◌∙◌}
use mathlib.Core.Logic.{◌≢◌, inl, inr}
use mathlib.Core.List.{List, [], ◌∷◌, ◌++◌, map, map-map}
use native.Mathlib.Omega.{arith}
use nvcuopt.Prelude.Tests.{◌==◌, if◌then◌else◌, Bool-cases, ==_iff}

-- The positions lo, lo + 1, …, lo + n - 1.
abbrev pub span : ℕ → ℕ → List ℕ
span lo zero = []
span lo (suc n) = lo ∷ span (suc lo) n

module _ {ℓ} {A : Type ℓ} where
  abbrev pub length : List A → ℕ
  length [] = 0
  length (x ∷ xs) = suc (length xs)

  abbrev pub get_or : List A → ℕ → A → A
  get_or [] i d = d
  get_or (x ∷ xs) zero d = x
  get_or (x ∷ xs) (suc i) d = get_or xs i d

  abbrev pub set : List A → ℕ → A → List A
  set [] i v = []
  set (x ∷ xs) zero v = v ∷ xs
  set (x ∷ xs) (suc i) v = x ∷ set xs i v

  abbrev pub replicate : ℕ → A → List A
  replicate zero a = []
  replicate (suc n) a = a ∷ replicate n a

  -- `v.resize(n)`: the first entries stay, and what is added is `d`.
  abbrev pub resize : ℕ → A → List A → List A
  resize zero d xs = []
  resize (suc n) d [] = d ∷ resize n d []
  resize (suc n) d (x ∷ xs) = x ∷ resize n d xs

  abbrev pub All {κ} : (A → Type κ) → List A → Type κ
  All P [] = Unit
  All P (x ∷ xs) = P x × All P xs

module _ {ℓ} {A : Type ℓ} where
  pub length-append : (xs ys : List A) → length (xs ++ ys) ≡ length xs + length ys
  length-append [] ys = omega arith
  length-append (x ∷ xs) ys = omega (arith, length-append xs ys)

  pub length-set : (xs : List A) (i : ℕ) (v : A) → length (set xs i v) ≡ length xs
  length-set [] i v = refl
  length-set (x ∷ xs) zero v = refl
  length-set (x ∷ xs) (suc i) v = ap suc (length-set xs i v)

  pub length-replicate : (n : ℕ) (a : A) → length (replicate n a) ≡ n
  length-replicate zero a = refl
  length-replicate (suc n) a = ap suc (length-replicate n a)

  pub length-resize : (n : ℕ) (d : A) (xs : List A) → length (resize n d xs) ≡ n
  length-resize zero d xs = refl
  length-resize (suc n) d [] = ap suc (length-resize n d [])
  length-resize (suc n) d (x ∷ xs) = ap suc (length-resize n d xs)

  pub get_or-replicate : (n : ℕ) (a : A) (i : ℕ) → get_or (replicate n a) i a ≡ a
  get_or-replicate zero a i = refl
  get_or-replicate (suc n) a zero = refl
  get_or-replicate (suc n) a (suc i) = get_or-replicate n a i

  pub get_or-set_self :
      (xs : List A) (i : ℕ) (v d : A) → i < length xs → get_or (set xs i v) i d ≡ v
  get_or-set_self [] i v d h = elim h [ ]
  get_or-set_self (x ∷ xs) zero v d h = refl
  get_or-set_self (x ∷ xs) (suc i) v d h = get_or-set_self xs i v d (omega arith)

  pub get_or-set_ne :
      (xs : List A) (i j : ℕ) (v d : A) → i ≢ j → get_or (set xs i v) j d ≡ get_or xs j d
  get_or-set_ne [] i j v d h = refl
  get_or-set_ne (x ∷ xs) zero zero v d h = absurd (h refl)
  get_or-set_ne (x ∷ xs) zero (suc j) v d h = refl
  get_or-set_ne (x ∷ xs) (suc i) zero v d h = refl
  get_or-set_ne (x ∷ xs) (suc i) (suc j) v d h = get_or-set_ne xs i j v d (λ e. h (ap suc e))

  pub get_or-set :
      (xs : List A) (i j : ℕ) (v d : A)
      → i < length xs
      → get_or (set xs i v) j d ≡ (if i == j then v else get_or xs j d)
  get_or-set xs i j v d h = elim (Bool-cases (i == j)) [
    | inl hit ↦ rw hit (rw (← (==_iff i j).0 hit) (get_or-set_self xs i v d h))
    | inr miss ↦ rw miss (get_or-set_ne xs i j v d (λ e. cc (miss, (==_iff i j).1 e)))
  ]

  -- Two lists with one length and one reading are equal.
  pub list_ext :
      (d : A) (xs ys : List A)
      → length xs ≡ length ys
      → ((i : ℕ) → i < length xs → get_or xs i d ≡ get_or ys i d)
      → xs ≡ ys
  list_ext d [] [] e h = refl
  list_ext d [] (y ∷ ys) e h = absurd (omega arith)
  list_ext d (x ∷ xs) [] e h = absurd (omega arith)
  list_ext d (x ∷ xs) (y ∷ ys) e h =
      cc (h 0 (omega arith), list_ext d xs ys (omega arith) (λ i lt. h (suc i) (omega arith)))

module _ {ℓ κ} {A : Type ℓ} (P : A → Type κ) where
  pub All-append : (xs ys : List A) → All P xs → All P ys → All P (xs ++ ys)
  All-append [] ys p q = q
  All-append (x ∷ xs) ys p q = (p.0, All-append xs ys p.1 q)

  -- What holds of a function of the entries holds of any function that agrees through it.
  pub All-map {ι μ} :
      {X : Type ι} {B : Type μ} (f : X → B) (g : B → A) (xs : List X)
      → All (λ b. P (g b)) (map f xs)
      → All P (map (λ x. g (f x)) xs)
  All-map f g [] p = tt
  All-map f g (x ∷ xs) p = (p.0, All-map f g xs p.1)

pub length-map {ℓ κ} :
    {A : Type ℓ} {B : Type κ} (f : A → B) (xs : List A) → length (map f xs) ≡ length xs
length-map f [] = refl
length-map f (x ∷ xs) = ap suc (length-map f xs)

pub span-suc : (lo n : ℕ) → span (suc lo) n ≡ map suc (span lo n)
span-suc lo zero = refl
span-suc lo (suc n) = ap (◌∷◌ (suc lo)) (span-suc (suc lo) n)

-- Reading every position gives the list.
pub map-get_or-span {ℓ} :
    {A : Type ℓ} (d : A) (xs : List A) → map (λ p. get_or xs p d) (span 0 (length xs)) ≡ xs
map-get_or-span d [] = refl
map-get_or-span d (x ∷ xs) = ap (◌∷◌ x) (
    ap (map (λ p. get_or (x ∷ xs) p d)) (span-suc 0 (length xs))
    ∙ map-map (λ p. get_or (x ∷ xs) p d) suc (span 0 (length xs))
    ∙ map-get_or-span d xs)

pub length-span : (lo n : ℕ) → length (span lo n) ≡ n
length-span lo zero = refl
length-span lo (suc n) = ap suc (length-span (suc lo) n)

pub span-append :
    (lo n k mid t : ℕ) → lo + n ≡ mid → n + k ≡ t → span lo n ++ span mid k ≡ span lo t
span-append lo zero k mid t e f =
    let e' : mid ≡ lo = omega arith in let f' : t ≡ k = omega arith in rw (e', f')
span-append lo (suc n) k mid zero e f = absurd (omega arith)
span-append lo (suc n) k mid (suc t) e f =
    ap (◌∷◌ lo) (span-append (suc lo) n k mid t (omega arith) (omega arith))

-- Functions that agree on the positions of a span have one image.
pub map-span_congr {ℓ} :
    {B : Type ℓ} (f g : ℕ → B) (lo n : ℕ)
    → ((p : ℕ) → lo ≤ p → p < lo + n → f p ≡ g p)
    → map f (span lo n) ≡ map g (span lo n)
map-span_congr f g lo zero h = refl
map-span_congr f g lo (suc n) h = cc (
  h lo (omega arith) (omega arith),
  map-span_congr f g (suc lo) n (λ p a b. h p (omega arith) (omega arith)),
)

-- What holds at every position of a span holds at each.
pub All-span {κ} :
    (P : ℕ → Type κ) (lo n : ℕ) → All P (span lo n) → (j : ℕ) → lo ≤ j → j < lo + n → P j
All-span P lo zero h j le lt = absurd (omega arith)
All-span P lo (suc n) h j le lt = elim (Bool-cases (lo == j)) [
  | inl hit ↦ subst P ((==_iff lo j).0 hit) h.0
  | inr miss ↦ All-span P (suc lo) n h.1 j (ground arith) (omega arith)
]

-- Functions with one image on a span agree at each of its positions.
pub map-span_pointwise {ℓ} :
    {B : Type ℓ} (f g : ℕ → B) (lo n : ℕ)
    → map f (span lo n) ≡ map g (span lo n)
    → (j : ℕ) → lo ≤ j
    → j < lo + n
    → f j ≡ g j
map-span_pointwise f g lo zero h j le lt = absurd (omega arith)
map-span_pointwise f g lo (suc n) h j le lt = elim (Bool-cases (lo == j)) [
  | inl hit ↦ subst (λ k. f k ≡ g k) ((==_iff lo j).0 hit) (cc)
  | inr miss ↦ map-span_pointwise f g (suc lo) n (cc) j (ground arith) (omega arith)
]

pub get_or-All {ℓ κ} :
    {A : Type ℓ} (P : A → Type κ) (d : A) (xs : List A)
    → All P xs
    → (i : ℕ) → i < length xs
    → P (get_or xs i d)
get_or-All P d [] h i lt = absurd (omega arith)
get_or-All P d (x ∷ xs) h zero lt = h.0
get_or-All P d (x ∷ xs) h (suc i) lt = get_or-All P d xs h.1 i (omega arith)
