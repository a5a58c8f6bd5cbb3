-- ===== src/PseudoCosts/Partition.antt =====
-- `get_partitioning` of cpp/src/dual_simplex/pseudo_costs.cpp shares out all the tasks, each once.
use nvcuopt.Prelude.{
  ℕ, zero, suc, ◌+◌, ◌*◌, ◌-◌, ◌/◌, ◌%◌, ◌<◌, ◌≡◌, refl, ap, ◌∙◌, ltb, ltb→lt, lt→ltb, Bool-cases,
  inl, inr, ◌⊎◌, arith, false,
}
use native.Mathlib.Nat.{mod-lt, mul-suc, suc-mul, div-add-mod}
use nvcuopt.PseudoCosts.{get_partitioning}

-- A thread among the first N % num_threads, and one behind them.
first_part :
    (N T t : ℕ)
    → t < N % T
    → get_partitioning N T t ≡ (t * (N / T + 1), t * (N / T + 1) + N / T + 1)
unfolding get_partitioning
first_part N T t lt = rw (lt→ltb t (N % T) lt) refl

later_part :
    (N T t : ℕ)
    → ltb t (N % T) ≡ false
    → get_partitioning N T t ≡ (t * (N / T) + N % T, t * (N / T) + N % T + N / T)
unfolding get_partitioning
later_part N T t ge = rw ge refl

-- The products in the starts of the parts of threads t and t + 1.
products :
    (t b : ℕ)
    → (t * (b + 1) ≡ t * b + t) × (suc t * (b + 1) ≡ t * b + t + b + 1) × (suc t * b ≡ t * b + b)
products t b =
    let p = mul-suc t b in let q = suc-mul t (b + 1) in (omega arith, omega arith, suc-mul t b)

next_begins : (N T t : ℕ) → (get_partitioning N T (suc t)).0 ≡ (get_partitioning N T t).1
next_begins N T t =
    let (p, q, r) = products t (N / T) in
    elim (Bool-cases (ltb (suc t) (N % T))) [
      | inl inside ↦
          let lt = ltb→lt (suc t) (N % T) inside in
          rw (first_part N T (suc t) lt, first_part N T t (omega arith)) (omega arith)
      | inr out ↦ elim (Bool-cases (ltb t (N % T))) [
        | inl last ↦
            let lt = ltb→lt t (N % T) last in
            let edge : N % T ≡ suc t = ground arith in
            rw (later_part N T (suc t) out, first_part N T t lt) (omega arith)
        | inr behind ↦ rw (later_part N T (suc t) out, later_part N T t behind) (omega arith)
      ]
    ]

last_ends : (N T : ℕ) → (get_partitioning N (suc T) T).1 ≡ N
last_ends N T =
    let low : N % suc T < suc T = mod-lt N (omega arith) in
    let whole = div-add-mod N (suc T) in
    let split = suc-mul T (N / suc T) in rw (later_part N (suc T) T (ground arith)) (omega arith)

first_begins : (N T : ℕ) → (get_partitioning N T 0).0 ≡ 0
first_begins N T = elim (Bool-cases (ltb 0 (N % T))) [
  | inl inside ↦ rw (first_part N T 0 (ltb→lt 0 (N % T) inside)) (omega arith)
  | inr out ↦ let none_left : N % T ≡ 0 = ground arith in rw (later_part N T 0 out) (omega arith)
]

part_size :
    (N T t : ℕ)
    → ((get_partitioning N T t).1 ≡ (get_partitioning N T t).0 + N / T)
      ⊎ ((get_partitioning N T t).1 ≡ (get_partitioning N T t).0 + N / T + 1)
part_size N T t = elim (Bool-cases (ltb t (N % T))) [
  | inl inside ↦ rw (first_part N T t (ltb→lt t (N % T) inside)) (inr refl)
  | inr out ↦ rw (later_part N T t out) (inl refl)
]

-- For at least one thread: the tasks of the first thread begin at 0, those of each thread begin
-- where those of the thread before end, those of the last thread end at N, and each thread has
-- N / num_threads tasks or one more.
pub get_partitioning-Covers :
    (N num_threads : ℕ)
    → 0 < num_threads
    → let part = get_partitioning N num_threads in
      ((part 0).0 ≡ 0)
      × ((t : ℕ) → suc t < num_threads → (part (suc t)).0 ≡ (part t).1)
      × ((part (num_threads - 1)).1 ≡ N)
      × ((t : ℕ)
          → ((part t).1 ≡ (part t).0 + N / num_threads)
            ⊎ ((part t).1 ≡ (part t).0 + N / num_threads + 1))
get_partitioning-Covers N zero pos = absurd (omega arith)
get_partitioning-Covers N (suc T) pos = (
  first_begins N (suc T),
  λ t lt. next_begins N (suc T) t,
  ap (λ t. (get_partitioning N (suc T) t).1) (omega arith) ∙ last_ends N T,
  part_size N (suc T),
)
