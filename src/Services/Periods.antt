-- ===== src/Services/Periods.antt =====
-- The balance by reporting periods, of services/balance/balance.js. The calendar steps of `Date`
-- are a parameter; the loop runs on fuel.
use Prim.Native.Nat.{ℕ, zero, suc, ◌+◌, ◌*◌}
use Prim.Native.String.{String}
use text.Mathlib.Text.{◌==◌}
use paystream_contracts.Prelude.{List, [], ◌∷◌, Option, none, some, ltb, leb, if◌then◌else◌, map}
use paystream_contracts.Prelude.Int.{ℤ, pos, negsuc, pos_part, leb_ℤ}
use paystream_contracts.Js.{Result, ok, err, new_error, ◌<>◌, and_then}
use paystream_contracts.Services.Balance.{Stream, min, effective_end, calculate_balance}
pub mod Laws

-- What `setUTCDate` and `setUTCMonth` with one more make of a time, in unix seconds.
pub record Calendar : Type 0 where
  pub next_day : ℕ → ℕ
  pub next_month : ℕ → ℕ

pub record Period : Type 0 where
  pub start : ℕ
  pub end : ℕ

abbrev custom_cursor : Option ℤ → ℕ → Result ℕ
custom_cursor none cursor =
    err (new_error "customPeriodSecs must be a positive number for custom duration type")
custom_cursor (some custom_period_secs) cursor =
    if leb_ℤ custom_period_secs (pos 0)
    then err (new_error "customPeriodSecs must be a positive number for custom duration type")
    else ok (cursor + pos_part custom_period_secs)

-- One step of the cursor. A custom length that is absent, zero or negative is refused.
unfoldable pub next_cursor : Calendar → String → Option ℤ → ℕ → Result ℕ
next_cursor calendar duration_type custom cursor =
    if duration_type == "daily"
    then ok (calendar.next_day cursor)
    else if duration_type == "weekly"
    then ok (cursor + 7 * 86400)
    else if duration_type == "monthly"
    then ok (calendar.next_month cursor)
    else if duration_type == "custom"
    then custom_cursor custom cursor
    else err (new_error ("Unknown duration type: " <> duration_type))

-- The period before those of the rest of the loop, which may throw or be out of fuel.
abbrev pub push : Period → Option (Result (List Period)) → Option (Result (List Period))
push period none = none
push period (some r) = some (and_then r (λ periods. ok (period ∷ periods)))

pub record Earned : Type 0 where
  pub period_start : ℕ
  pub period_end : ℕ
  pub earned : ℕ

abbrev pub map_periods :
    (Period → Earned) → Option (Result (List Period)) → Option (Result (List Earned))
map_periods f none = none
map_periods f (some r) = some (and_then r (λ periods. ok (map f periods)))

-- The loop of `buildPeriods`, with `none` when the fuel is spent.
unfoldable pub build_periods :
    Calendar → String → Option ℤ → ℕ → ℕ → ℕ → Option (Result (List Period))
build_periods calendar duration_type custom zero cursor end_secs =
    if ltb cursor end_secs then none else some (ok [])
build_periods calendar duration_type custom (suc fuel) cursor end_secs =
    if ltb cursor end_secs
    then elim (next_cursor calendar duration_type custom cursor) [
      | err e ↦ some (err e)
      | ok next ↦
          push (record { start = cursor; end = min next end_secs })
            (build_periods calendar duration_type custom fuel next end_secs)
    ]
    else some (ok [])

-- The stream as it is asked about one period.
unfoldable pub slice : Stream → Period → Stream
slice stream period = record stream { last_withdraw_time = period.start; stop_time = period.end }

unfoldable pub earn : Stream → Period → Earned
earn stream period = record {
  period_start = period.start;
  period_end = period.end;
  earned = (calculate_balance (slice stream period) period.end).claimable;
}

-- `calculateBalanceByDuration` at the time `now`
unfoldable pub calculate_balance_by_duration :
    Calendar → ℕ → Stream → String → Option ℤ → ℕ → Option (Result (List Earned))
calculate_balance_by_duration calendar fuel stream duration_type custom now =
    let end_secs = effective_end stream now in
    if leb end_secs stream.start_time
    then some (ok [])
    else map_periods (earn stream)
        (build_periods calendar duration_type custom fuel stream.start_time end_secs)
