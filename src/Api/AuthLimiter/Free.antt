-- ===== src/Api/AuthLimiter/Free.antt =====
-- Proofs about api/middleware/authRateLimiter.js: who is let through.
use Prim.Native.Nat.{ℕ, suc, ◌+◌, ◌≤◌, ◌<◌}
use Prim.Native.String.{String}
use text.Mathlib.Text.{◌==◌}
use paystream_contracts.Prelude.{
  ◌≡◌, refl, arith, eq_iff, false, List, [], ◌∷◌, none, some, All, ltb, Option-cases, Bool-cases,
  inl, inr, ◌⊎◌, if◌then◌else◌,
}
use paystream_contracts.Prelude.Dict.{lookup, remove, lookup-insert, lookup-remove}
use paystream_contracts.Api.AuthLimiter.{
  Config, State, passed, get_failure_entry, record_failure, count_attempts, auth_rate_limiter,
  apply_auth_failure, reset_auth_rate_limit, Event, request, failure, reset, step, run,
}
use paystream_contracts.Api.AuthLimiter.Laws.{failures_kept, count-apply_auth_failure}

-- The number of failures of the identifier among the events
abbrev pub failures_of : String → List Event → ℕ
failures_of i [] = 0
failures_of i (failure other now ∷ es) =
    if other == i then suc (failures_of i es) else failures_of i es
failures_of i (e ∷ es) = failures_of i es

-- The limiter of a request allows `k` failures at least.
abbrev pub IsAllowing : ℕ → Event → Type 0
IsAllowing k (request config i now) = k ≤ config.max_attempts
IsAllowing k e = Unit

-- The identifier is not locked out and has failed less than `k` times, with `more` to come.
abbrev pub IsFree : ℕ → ℕ → String → State → Type 0
IsFree k more i s = (lookup i s.lockouts ≡ none) × ((get_failure_entry i s).count + more < k)

lockouts_kept :
    (config : Config) (i other : String) (now : ℕ) (s : State)
    → lookup i s.lockouts ≡ none
    → ((other == i) ≡ false) ⊎ ((get_failure_entry i s).count < config.max_attempts)
    → lookup i (auth_rate_limiter config other now s).1.lockouts ≡ none
unfolding auth_rate_limiter count_attempts get_failure_entry
lockouts_kept config i other now s free below = elim (Option-cases (lookup other s.lockouts)) [
  | inl unlocked ↦ rw (unlocked, auth_rate_limiter) (counted s free below)
  | inr (expires_at, locked) ↦ elim (Bool-cases (ltb now expires_at)) [
    | inl lasts ↦ rw (locked, lasts, auth_rate_limiter) free
    | inr over ↦
        rw (locked, over, auth_rate_limiter)
          (counted (record s { lockouts = remove other s.lockouts })
            (ground (arith, free, lookup-remove other i s.lockouts)) below)
  ]
]
  where
    counted :
        (t : State)
        → lookup i t.lockouts ≡ none
        → ((other == i) ≡ false) ⊎ ((get_failure_entry i t).count < config.max_attempts)
        → lookup i (count_attempts config other now t).1.lockouts ≡ none
    counted t h k =
        ground
          (arith, h, k, eq_iff other i, lookup-insert other i (now + config.lockout_ms) t.lockouts)

free_passes :
    (config : Config) (i : String) (now : ℕ) (s : State)
    → lookup i s.lockouts ≡ none
    → (get_failure_entry i s).count < config.max_attempts
    → (auth_rate_limiter config i now s).0 ≡ passed i (get_failure_entry i s)
unfolding auth_rate_limiter count_attempts
free_passes config i now s free below = ground (arith, free, below)

failure-IsFree :
    (k more : ℕ) (i other : String) (now : ℕ) (s : State)
    → k ≤ 5
    → IsFree k (if other == i then suc more else more) i s
    → IsFree k more i (apply_auth_failure other now s)
unfolding apply_auth_failure record_failure
failure-IsFree k more i other now s five (free, few) = (
  ground (arith, five, free, few, eq_iff other i, lookup-insert other i (now + 900000) s.lockouts),
  ground (arith, few, count-apply_auth_failure i other now s),
)

same_count :
    (config : Config) (i other : String) (now : ℕ) (s : State)
    → (get_failure_entry i (auth_rate_limiter config other now s).1).count
      ≡ (get_failure_entry i s).count
unfolding get_failure_entry
same_count config i other now s = ground (arith, failures_kept config other now s)

reset-IsFree :
    (k more : ℕ) (i other : String) (s : State)
    → IsFree k more i s
    → IsFree k more i (reset_auth_rate_limit (some other) s)
unfolding reset_auth_rate_limit get_failure_entry lookup
reset-IsFree k more i other s (free, few) = elim (Bool-cases (other == "")) [
  | inl unnamed ↦ rw (unnamed, reset_auth_rate_limit) (refl, omega (arith, few))
  | inr named ↦
      rw (named, reset_auth_rate_limit)
        (
          ground (arith, free, lookup-remove other i s.lockouts),
          ground (arith, few, lookup-remove other i s.failures),
        )
]

step-IsFree :
    (k : ℕ) (i : String) (e : Event) (es : List Event) (s : State)
    → k ≤ 5
    → IsAllowing k e
    → IsFree k (failures_of i (e ∷ es)) i s
    → IsFree k (failures_of i es) i (step e s)
unfolding step
step-IsFree k i (request config other now) es s five allows (free, few) = (
  lockouts_kept config i other now s free (inr (omega (arith, few, allows))),
  ground (arith, few, same_count config i other now s),
)
step-IsFree k i (failure other now) es s five allows h =
    failure-IsFree k (failures_of i es) i other now s five h
step-IsFree k i (reset other) es s five allows h = reset-IsFree k (failures_of i es) i other s h

run-IsFree :
    (k : ℕ) (i : String) (es : List Event) (s : State)
    → k ≤ 5
    → All (IsAllowing k) es
    → IsFree k (failures_of i es) i s
    → IsFree k 0 i (run es s)
unfolding run
run-IsFree k i [] s five allows h = h
run-IsFree k i (e ∷ es) s five (one, others) h =
    run-IsFree k i es (step e s) five others (step-IsFree k i e es s five one h)

-- An identifier that is not locked out passes a limiter, whatever happens before, as long as its
-- failures, those to come included, are fewer than five and than every limiter allows.
pub run_passes :
    (k : ℕ) (config : Config) (i : String) (now : ℕ) (es : List Event) (s : State)
    → k ≤ 5
    → k ≤ config.max_attempts
    → All (IsAllowing k) es
    → lookup i s.lockouts ≡ none
    → (get_failure_entry i s).count + failures_of i es < k
    → (auth_rate_limiter config i now (run es s)).0 ≡ passed i (get_failure_entry i (run es s))
run_passes k config i now es s five allowed allows free few =
    let (unlocked, below) = run-IsFree k i es s five allows (free, few) in
    free_passes config i now (run es s) unlocked (omega (arith, below, allowed))
