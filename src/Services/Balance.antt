-- ===== src/Services/Balance.antt =====
-- The balance calculation of services/balance/balance.js. Times are unix seconds and amounts
-- are token units, both natural numbers; the number of paused seconds is an integer, because
-- nothing keeps `toTime - pauseStart` from being negative.
use Prim.Native.Nat.{ℕ, ◌+◌, ◌-◌, ◌*◌}
use Prim.Native.String.{String}
use text.Mathlib.Text.{◌==◌}
use paystream_contracts.Prelude.{
  Bool, true, false, List, [], ◌∷◌, Option, none, some, ltb, leb, if◌then◌else◌, ◌&&◌, ◌||◌, map,
}
use paystream_contracts.Prelude.Int.{ℤ, pos, sub_ℕ, ◌+ℤ◌, ◌-ℤ◌, pos_part}
use paystream_contracts.Js.{Result, ok, err, new_error, ◌<>◌}
pub mod Seconds
pub mod Paused
pub mod Claim

-- `Math.min` and `Math.max`
abbrev pub min : ℕ → ℕ → ℕ
min a b = if leb a b then a else b

abbrev pub max : ℕ → ℕ → ℕ
max a b = if leb a b then b else a

pub record PauseEvent : Type 0 where
  pub timestamp : ℕ
  pub is_pause : Bool

-- The loop of `calcPausedSeconds`: `pauseStart` is `none` for `null`.
unfoldable pub paused_loop : List PauseEvent → ℕ → ℕ → Option ℕ → ℤ → ℤ
paused_loop [] from_time to_time none paused = paused
paused_loop [] from_time to_time (some start) paused = paused +ℤ sub_ℕ to_time start
paused_loop (event ∷ rest) from_time to_time none paused =
    let t = event.timestamp in
    let start = if event.is_pause && ltb t to_time then some (max t from_time) else none in
    paused_loop rest from_time to_time start paused
paused_loop (event ∷ rest) from_time to_time (some start) paused =
    let t = event.timestamp in
    let resume_at = min t to_time in
    let again = if ltb t to_time then max t from_time else start in
    let more = if ltb start resume_at then paused +ℤ pos (resume_at - start) else paused in
    paused_loop rest from_time to_time (if event.is_pause then some again else none)
      (if event.is_pause then paused else more)

-- An absent history is an empty one.
unfoldable pub calc_paused_seconds : List PauseEvent → ℕ → ℕ → ℤ
calc_paused_seconds pause_history from_time to_time =
    paused_loop pause_history from_time to_time none (pos 0)

-- The stream as the service is given it, where an absent `pause_history` is an empty one
pub record Stream : Type 0 where
  pub deposit : ℕ
  pub withdrawn : ℕ
  pub rate_per_second : ℕ
  pub start_time : ℕ
  pub stop_time : ℕ
  pub last_withdraw_time : ℕ
  pub cliff_time : ℕ
  pub status : String
  pub pause_history : List PauseEvent

pub record Balance : Type 0 where
  pub claimable : ℕ
  pub accrued_total : ℕ
  pub active_elapsed : ℕ
  pub paused_elapsed : ℤ

abbrev pub nothing : Balance
nothing = record { claimable = 0; accrued_total = 0; active_elapsed = 0; paused_elapsed = pos 0 }

-- `Math.max(0, n)`
abbrev pub at_least_0 : ℤ → ℕ
at_least_0 n = pos_part n

unfoldable pub effective_end : Stream → ℕ → ℕ
effective_end stream now =
    if ltb 0 stream.stop_time && ltb stream.stop_time now then stream.stop_time else now

-- What is accrued over a window that is not empty; on ℕ `deposit - withdrawn` stops at 0.
unfoldable pub accrue : Stream → ℕ → ℕ → Balance
accrue stream window_start window_end =
    let paused_secs = calc_paused_seconds stream.pause_history window_start window_end in
    let active = at_least_0 (pos (window_end - window_start) -ℤ paused_secs) in
    let accrued = active * stream.rate_per_second in
    let remaining = stream.deposit - stream.withdrawn in
    record {
      claimable = min accrued remaining;
      accrued_total = accrued;
      active_elapsed = active;
      paused_elapsed = paused_secs;
    }

unfoldable pub is_ended : Stream → Bool
is_ended stream = stream.status == "Cancelled" || stream.status == "Exhausted"

-- `calculateBalance` at the time `now`
unfoldable pub calculate_balance : Stream → ℕ → Balance
calculate_balance stream now =
    let window_start = stream.last_withdraw_time in
    let window_end = effective_end stream now in
    if is_ended stream
    then nothing
    else if ltb 0 stream.cliff_time && ltb now stream.cliff_time
    then nothing
    else if leb window_end window_start
    then nothing
    else accrue stream window_start window_end
