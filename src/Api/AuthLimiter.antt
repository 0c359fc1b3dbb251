-- ===== src/Api/AuthLimiter.antt =====
-- The limit on failed logins of api/middleware/authRateLimiter.js. Times are milliseconds; the
-- delay that a request waits for and the log are left out.
use Prim.Native.Nat.{ℕ, suc, ◌+◌, ◌-◌, ◌*◌, ◌/◌}
use Prim.Native.String.{String}
use text.Mathlib.Text.{◌==◌}
use paystream_contracts.Prelude.{
  Bool, true, false, List, [], ◌∷◌, Option, none, some, ltb, leb, if◌then◌else◌,
}
use paystream_contracts.Prelude.Dict.{lookup, insert, remove}
use paystream_contracts.Js.{◌<>◌, present}
pub mod Laws
pub mod Free

pub record Config : Type 0 where
  pub max_attempts : ℕ
  pub lockout_ms : ℕ

-- `DEFAULTS`, less the delays
abbrev pub defaults : Config
defaults = record { max_attempts = 5; lockout_ms = 15 * 60 * 1000 }

-- What the limiter reads of a request: its address on the network and that in its body
pub record Request : Type 0 where
  pub ip : Option String
  pub address : Option String

abbrev pub or_text : Option String → String → String
or_text o default = elim (present o) [ none ↦ default | some s ↦ s ]

unfoldable pub get_identifier : Request → String
get_identifier req = or_text req.ip "unknown" <> ":" <> or_text req.address ""

pub record Failures : Type 0 where
  pub count : ℕ
  pub last_failure_at : ℕ

-- `lockouts` holds the times of `expiresAt`.
pub record State : Type 0 where
  pub failures : List (String × Failures)
  pub lockouts : List (String × ℕ)

unfoldable pub get_failure_entry : String → State → Failures
get_failure_entry identifier s = elim (lookup identifier s.failures) [
  | none ↦ record { count = 0; last_failure_at = 0 }
  | some entry ↦ entry
]

unfoldable pub record_failure : String → ℕ → State → Failures × State
record_failure identifier now s =
    let old = get_failure_entry identifier s in
    let entry : Failures = record { count = suc old.count; last_failure_at = now } in
    (entry, record s { failures = insert identifier entry s.failures })

pub data Outcome : Type 0 where
  limited : (retry_after_seconds : ℕ) → Outcome
  passed : (identifier : String) → Failures → Outcome

-- `Math.ceil(ms / 1000)`
abbrev pub seconds_of : ℕ → ℕ
seconds_of ms = (ms + 999) / 1000

-- The part of `authRateLimiter` after the test of a lockout that still lasts
unfoldable pub count_attempts : Config → String → ℕ → State → Outcome × State
count_attempts config identifier now s =
    let entry = get_failure_entry identifier s in
    if leb config.max_attempts entry.count
    then (
      limited (seconds_of config.lockout_ms),
      record s { lockouts = insert identifier (now + config.lockout_ms) s.lockouts },
    )
    else (passed identifier entry, s)

-- `authRateLimiter`
unfoldable pub auth_rate_limiter : Config → String → ℕ → State → Outcome × State
auth_rate_limiter config identifier now s = elim (lookup identifier s.lockouts) [
  | none ↦ count_attempts config identifier now s
  | some expires_at ↦
      if ltb now expires_at
      then (limited (seconds_of (expires_at - now)), s)
      else count_attempts config identifier now
          (record s { lockouts = remove identifier s.lockouts })
]

-- `applyAuthFailure`, which reads the defaults and not the configuration
unfoldable pub apply_auth_failure : String → ℕ → State → State
apply_auth_failure identifier now s =
    let (entry, next) = record_failure identifier now s in
    if leb defaults.max_attempts entry.count
    then record next { lockouts = insert identifier (now + defaults.lockout_ms) next.lockouts }
    else next

-- `resetAuthRateLimit`: an absent or empty identifier clears all
unfoldable pub reset_auth_rate_limit : Option String → State → State
reset_auth_rate_limit identifier s = elim (present identifier) [
  | none ↦ record { failures = []; lockouts = [] }
  | some i ↦ record { failures = remove i s.failures; lockouts = remove i s.lockouts }
]

-- What happens to the state, in the order in which it happens. A request is that of a limiter
-- with its configuration.
pub data Event : Type 0 where
  request : Config → String → ℕ → Event
  failure : String → ℕ → Event
  reset : String → Event

unfoldable pub step : Event → State → State
step (request config identifier now) s = (auth_rate_limiter config identifier now s).1
step (failure identifier now) s = apply_auth_failure identifier now s
step (reset identifier) s = reset_auth_rate_limit (some identifier) s

unfoldable pub run : List Event → State → State
run [] s = s
run (e ∷ es) s = run es (step e s)
