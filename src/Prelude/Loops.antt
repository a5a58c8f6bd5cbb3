-- ===== src/Prelude/Loops.antt =====
-- Counted loops.
use Prim.Native.Nat.{ℕ, zero, suc, ◌+◌, ◌-◌, ◌≤◌, ◌<◌}
use mathlib.Core.Path.{◌≡◌}
use mathlib.Core.List.{foldl}
use native.Mathlib.Omega.{arith}
use native.Mathlib.Nat.{sub-zero}
use nvcuopt.Prelude.Lists.{span}

module _ {ℓ} {S : Type ℓ} where
  -- for (p = lo; p < hi; ++p) s = body p s;
  abbrev pub for_loop : ℕ → ℕ → (ℕ → S → S) → S → S
  for_loop lo hi body s = foldl (λ t p. body p t) s (span lo (hi - lo))

  pub for_loop-zero :
      (hi : ℕ) (body : ℕ → S → S) (s : S)
      → for_loop 0 hi body s ≡ foldl (λ t p. body p t) s (span 0 hi)
  for_loop-zero hi body s = rw sub-zero

  pub foldl-span_inv {κ} :
      (P : ℕ → S → Type κ) (body : ℕ → S → S) (lo n hi : ℕ)
      → lo + n ≡ hi
      → ((p : ℕ) (t : S) → lo ≤ p → p < hi → P p t → P (suc p) (body p t))
      → (s : S) → P lo s
      → P hi (foldl (λ t p. body p t) s (span lo n))
  foldl-span_inv P body lo zero hi e keep s h = let e' : lo ≡ hi = omega arith in rw (← e') h
  foldl-span_inv P body lo (suc n) hi e keep s h =
      foldl-span_inv P body (suc lo) n hi (omega arith) (λ p t a b. keep p t (omega arith) b)
        (body lo s) (keep lo s (omega arith) (omega arith) h)

  -- What each round keeps holds at the end.
  pub for_loop_inv {κ} :
      (P : ℕ → S → Type κ) (body : ℕ → S → S) (lo hi : ℕ)
      → lo ≤ hi
      → ((p : ℕ) (t : S) → lo ≤ p → p < hi → P p t → P (suc p) (body p t))
      → (s : S) → P lo s
      → P hi (for_loop lo hi body s)
  for_loop_inv P body lo hi le keep s h =
      foldl-span_inv P body lo (hi - lo) hi (omega arith) keep s h

module _ {ℓ} {S : Type ℓ} where
  -- for (j = n - 1; j >= 0; --j) s = body j s;
  abbrev pub for_down : ℕ → (ℕ → S → S) → S → S
  for_down zero body s = s
  for_down (suc n) body s = for_down n body (body n s)

  -- What each round keeps holds at the end.
  pub for_down_inv {κ} :
      (P : ℕ → S → Type κ) (body : ℕ → S → S) (n : ℕ)
      → ((j : ℕ) (t : S) → j < n → P (suc j) t → P j (body j t))
      → (s : S) → P n s
      → P 0 (for_down n body s)
  for_down_inv P body zero keep s h = h
  for_down_inv P body (suc n) keep s h =
      for_down_inv P body n (λ j t lt. keep j t (omega arith)) (body n s) (keep n s (omega arith) h)
