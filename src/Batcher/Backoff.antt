-- ===== src/Batcher/Backoff.antt =====
-- RetryPolicy.backoff of batcher.go against its closed form.
use native.Mathlib.Nat.{pow-suc}
use tallyd.Base.{
  ℕ, zero, suc, ◌-◌, ◌*◌, ◌^◌, ◌≤◌, ◌<◌, ◌≡◌, refl, ap, ◌∙◌, inl, inr, some, ltb, if◌then◌else◌, ℤ,
  pos, negsuc, arith, Bool-cases, tests,
}
use tallyd.Batcher.{
  RetryPolicy, or_positive, second, with_defaults, ltb_ℤ, double_int64, backoff_loop,
  backoff_ceiling, backoff, int63n, wrap_int64,
}

abbrev cap : ℕ → ℕ → ℕ
cap m d = if ltb m d then m else d

abbrev cap_ℤ : ℤ → ℤ → ℤ
cap_ℤ m d = if ltb_ℤ m d then m else d

pow_pos : (k : ℕ) → 1 ≤ 2 ^ k
pow_pos zero = omega arith
pow_pos (suc k) = omega (arith, pow_pos k, pow-suc 2 k)

double_small : (d : ℕ) → d < 2 ^ 62 → double_int64 (pos d) ≡ pos (2 * d)
unfolding double_int64
double_small d h = ground arith

le-mul : (d n : ℕ) → 1 ≤ n → d ≤ d * n
le-mul d n h = grind arith

backoff_loop_capped :
    (k m d : ℕ)
    → 0 < d
    → m ≤ 2 ^ 62
    → cap_ℤ (pos m) (backoff_loop k (pos m) (pos d)) ≡ pos (cap m (d * 2 ^ k))
unfolding backoff_loop
backoff_loop_capped zero m d h b = ground arith
backoff_loop_capped (suc k) m d h b = elim (Bool-cases (ltb d m)) [
  | inl below ↦
      let small : d < 2 ^ 62 = omega tests in
      let positive : 0 < 2 * d = omega arith in
      let twice : 2 * d * 2 ^ k ≡ d * 2 ^ suc k =
        omega (arith, ap (λ (t : ℕ). d * t) (pow-suc 2 k)) in
      rw (below, double_small d small)
        (backoff_loop_capped k m (2 * d) positive b ∙ ap (λ x. pos (cap m x)) twice)
  | inr above ↦
      let large : d ≤ d * 2 ^ suc k = le-mul d (2 ^ suc k) (pow_pos (suc k)) in
      rw above (ground arith)
]

backoff_ceiling_lem :
    (policy : RetryPolicy) (attempt i m : ℕ)
    → (with_defaults policy).initial_backoff ≡ pos i
    → (with_defaults policy).max_backoff ≡ pos m
    → 0 < i
    → m ≤ 2 ^ 62
    → backoff_ceiling policy attempt ≡ pos (cap m (i * 2 ^ (attempt - 1)))
unfolding backoff_ceiling
backoff_ceiling_lem policy attempt i m ei em h b =
    rw (ei, em) (backoff_loop_capped (attempt - 1) m i h b)

-- One more than a small ceiling does not wrap.
int63n_small :
    (draw : ℕ → ℕ) (d : ℕ)
    → d ≤ 2 ^ 62
    → int63n draw (wrap_int64 (pos (suc d))) ≡ some (draw (suc d))
int63n_small draw d h =
    let small : wrap_int64 (pos (suc d)) ≡ pos (suc d) = ground arith in rw small refl

-- For a policy whose ceiling, after the defaults, is at most 2^62 nanoseconds (146 years), the
-- delay of the n-th attempt is what the generator draws below one more than the initial backoff
-- doubled n - 1 times, capped at the ceiling: the doubling never overflows an int64, and the
-- generator is never called with an argument at which it panics.
pub backoff_lem :
    (draw : ℕ → ℕ) (policy : RetryPolicy) (attempt i m : ℕ)
    → (with_defaults policy).initial_backoff ≡ pos i
    → (with_defaults policy).max_backoff ≡ pos m
    → 0 < i
    → m ≤ 2 ^ 62
    → backoff draw policy attempt
      ≡ some (draw (suc (if ltb m (i * 2 ^ (attempt - 1)) then m else i * 2 ^ (attempt - 1))))
unfolding backoff
backoff_lem draw policy attempt i m ei em h b =
    rw (backoff_ceiling_lem policy attempt i m ei em h b)
      (int63n_small draw (cap m (i * 2 ^ (attempt - 1))) (ground arith))

or_positive-pos :
    (z : ℤ) (fallback : ℕ) → 0 < fallback → (n : ℕ) × (or_positive z fallback ≡ pos (suc n))
or_positive-pos (pos zero) fallback h = (fallback - 1, ap pos (omega arith))
or_positive-pos (pos (suc n)) fallback h = (n, refl)
or_positive-pos (negsuc n) fallback h = (fallback - 1, ap pos (omega arith))

-- Whatever a retry policy holds, its three durations are positive after withDefaults.
pub with_defaults_positive :
    (p : RetryPolicy)
    → ((i : ℕ) × ((with_defaults p).initial_backoff ≡ pos (suc i)))
      × ((m : ℕ) × ((with_defaults p).max_backoff ≡ pos (suc m)))
      × ((e : ℕ) × ((with_defaults p).max_elapsed ≡ pos (suc e)))
unfolding with_defaults
with_defaults_positive p = (
  or_positive-pos p.initial_backoff second (omega arith),
  or_positive-pos p.max_backoff (120 * second) (omega arith),
  or_positive-pos p.max_elapsed (1800 * second) (omega arith),
)
