-- ===== src/Api/AuthLimiter/Laws.antt =====
-- Proofs about api/middleware/authRateLimiter.js.
use Prim.Native.Nat.{ℕ, suc, ◌≤◌}
use Prim.Native.String.{String}
use text.Mathlib.Text.{◌==◌}
use paystream_contracts.Prelude.{
  ◌≡◌, arith, eq_iff, true, false, List, [], ◌∷◌, All, ltb, leb, Option-cases, Bool-cases, inl, inr,
  if◌then◌else◌,
}
use paystream_contracts.Prelude.Dict.{lookup, remove, lookup-insert, lookup-remove}
use paystream_contracts.Api.AuthLimiter.{
  Config, Failures, State, Outcome, limited, passed, get_failure_entry, record_failure,
  count_attempts, auth_rate_limiter, apply_auth_failure, reset_auth_rate_limit, Event, request,
  failure, reset, step, run,
}

-- The event does not reset the identifier; an empty one would reset all.
abbrev pub IsNoReset : String → Event → Type 0
IsNoReset identifier (reset other) = ((other == identifier) ≡ false) × ((other == "") ≡ false)
IsNoReset identifier e = Unit

-- The failures of the identifier are `n` at least.
abbrev pub HasFailed : ℕ → String → State → Type 0
HasFailed n identifier s = n ≤ (get_failure_entry identifier s).count

pub failures_kept :
    (config : Config) (i : String) (now : ℕ) (s : State)
    → (auth_rate_limiter config i now s).1.failures ≡ s.failures
unfolding auth_rate_limiter count_attempts
failures_kept config i now s = ground arith

pub count-record_failure :
    (i other : String) (now : ℕ) (s : State)
    → (get_failure_entry i (record_failure other now s).1).count
      ≡ (if other == i then suc (get_failure_entry i s).count else (get_failure_entry i s).count)
unfolding get_failure_entry record_failure
count-record_failure i other now s =
    let entry : Failures = record {
      count = suc (get_failure_entry other s).count;
      last_failure_at = now;
    } in
    ground (arith, eq_iff other i, lookup-insert other i entry s.failures)

failures_counted :
    (other : String) (now : ℕ) (s : State)
    → (apply_auth_failure other now s).failures ≡ (record_failure other now s).1.failures
unfolding apply_auth_failure
failures_counted other now s = ground arith

pub count-apply_auth_failure :
    (i other : String) (now : ℕ) (s : State)
    → (get_failure_entry i (apply_auth_failure other now s)).count
      ≡ (if other == i then suc (get_failure_entry i s).count else (get_failure_entry i s).count)
unfolding get_failure_entry
count-apply_auth_failure i other now s =
    ground (arith, failures_counted other now s, count-record_failure i other now s)

step-HasFailed :
    (n : ℕ) (identifier : String) (e : Event) (s : State)
    → IsNoReset identifier e
    → HasFailed n identifier s
    → HasFailed n identifier (step e s)
unfolding step get_failure_entry reset_auth_rate_limit
step-HasFailed n i (request config other now) s no_reset h =
    ground (arith, h, failures_kept config other now s)
step-HasFailed n i (failure other now) s no_reset h =
    ground (arith, h, count-apply_auth_failure i other now s)
step-HasFailed n i (reset other) s (different, named) h =
    ground (arith, h, different, named, lookup-remove other i s.failures)

run-HasFailed :
    (n : ℕ) (i : String) (es : List Event) (s : State)
    → All (IsNoReset i) es
    → HasFailed n i s
    → HasFailed n i (run es s)
unfolding run
run-HasFailed n i [] s _ h = h
run-HasFailed n i (e ∷ es) s (one, others) h =
    run-HasFailed n i es (step e s) others (step-HasFailed n i e s one h)

-- The request is answered with 429.
abbrev pub IsLimited : Outcome → Type 0
IsLimited (limited retry) = Unit
IsLimited (passed i entry) = ⊥

limiter-IsLimited :
    (config : Config) (i : String) (now : ℕ) (s : State)
    → HasFailed config.max_attempts i s
    → IsLimited (auth_rate_limiter config i now s).0
unfolding auth_rate_limiter count_attempts get_failure_entry
limiter-IsLimited config i now s h = elim (Option-cases (lookup i s.lockouts)) [
  | inl free ↦ rw (free, IsLimited) (counted s h)
  | inr (expires_at, locked) ↦ elim (Bool-cases (ltb now expires_at)) [
    | inl lasts ↦ rw (locked, lasts, IsLimited) tt
    | inr over ↦
        rw (locked, over, IsLimited) (counted (record s { lockouts = remove i s.lockouts }) h)
  ]
]
  where
    counted :
        (t : State)
        → HasFailed config.max_attempts i t
        → IsLimited (count_attempts config i now t).0
    counted t k =
        let full : leb config.max_attempts (get_failure_entry i t).count ≡ true =
          ground (arith, k) in
        rw full tt

-- Once an identifier has failed as often as a limiter allows, that limiter answers each of its
-- requests with 429, at any time, whatever happens before, until the identifier is reset.
pub run-IsLimited :
    (config : Config) (i : String) (now : ℕ) (es : List Event) (s : State)
    → HasFailed config.max_attempts i s
    → All (IsNoReset i) es
    → IsLimited (auth_rate_limiter config i now (run es s)).0
run-IsLimited config i now es s h quiet =
    limiter-IsLimited config i now (run es s) (run-HasFailed config.max_attempts i es s quiet h)
