-- ===== src/Services/Tests.antt =====
-- Tests of the services' model, and the theorems at concrete inputs.
use Prim.Native.Nat.{ℕ, ◌+◌, ◌*◌, ◌<◌}
use Prim.Native.String.{String}
use paystream_contracts.Prelude.{
  ◌≡◌, refl, Bool, true, false, List, [], ◌∷◌, Option, none, inl, inr, arith, ltb,
}
use paystream_contracts.Prelude.Int.{ℤ, pos, ◌+ℤ◌, ◌-ℤ◌, sub_ℕ}
use paystream_contracts.Prelude.Dict.{lookup, insert}
use paystream_contracts.Js.{Result, err, ◌<>◌}
use paystream_contracts.Services.Balance as Balance
use paystream_contracts.Services.Balance.{
  PauseEvent, calc_paused_seconds, paused_loop, calculate_balance, accrue, effective_end, is_ended,
}
use paystream_contracts.Services.Balance.Paused.{IsHistory, paused_at, calc_paused_seconds_lem}
use paystream_contracts.Services.Balance.Seconds.{seconds}
use paystream_contracts.Services.Balance.Claim.{running, calculate_balance_lem}
use paystream_contracts.Services.Periods.{Calendar}
mod Storage
mod Events
mod Mails

-- Paused from 120 to 150 and from 180 on
abbrev pauses : List PauseEvent
pauses =
    record { timestamp = 120; is_pause = true }
    ∷ record { timestamp = 150; is_pause = false }
    ∷ record { timestamp = 180; is_pause = true }
    ∷ []

pauses-IsHistory : IsHistory false 0 pauses
unfolding IsHistory
pauses-IsHistory = (omega arith, refl, (omega arith, refl, (omega arith, refl, tt)))

calc_paused_seconds_lem_example :
    calc_paused_seconds pauses 130 200 ≡ pos (seconds (paused_at false pauses) 130 70)
calc_paused_seconds_lem_example =
    calc_paused_seconds_lem pauses 130 200 (omega arith) pauses-IsHistory

-- 20 seconds up to the resumption and 20 after the second pause
paused_40 : calc_paused_seconds pauses 130 200 ≡ pos 40
unfolding calc_paused_seconds paused_loop ◌+ℤ◌
paused_40 = refl

-- A second pause while the stream is paused takes the place of the first one.
abbrev twice_paused : List PauseEvent
twice_paused =
    record { timestamp = 100; is_pause = true }
    ∷ record { timestamp = 150; is_pause = true }
    ∷ record { timestamp = 200; is_pause = false }
    ∷ []

paused_twice : calc_paused_seconds twice_paused 0 300 ≡ pos 50
unfolding calc_paused_seconds paused_loop ◌+ℤ◌
paused_twice = refl

abbrev payroll : Balance.Stream
payroll = record {
  deposit = 10000;
  withdrawn = 100;
  rate_per_second = 10;
  start_time = 100;
  stop_time = 170;
  last_withdraw_time = 110;
  cliff_time = 0;
  status = "Active";
  pause_history = pauses;
}

calculate_balance_lem_example :
    (calculate_balance payroll 300).claimable ≡ Balance.min (running payroll 110 170 * 10) 9900
unfolding is_ended
calculate_balance_lem_example =
    calculate_balance_lem payroll 300 170
      (omega arith, λ stops. omega arith, inr (omega arith, refl)) refl (omega arith)
      pauses-IsHistory

-- A stream without a stop time pays up to now.
abbrev endless : Balance.Stream
endless = record payroll { stop_time = 0; pause_history = [] }

endless_190 : (calculate_balance endless 300).claimable ≡ 1900
unfolding calculate_balance accrue effective_end is_ended calc_paused_seconds paused_loop ◌+ℤ◌ ◌-ℤ◌
endless_190 = refl

abbrev calendar : Calendar
calendar = record { next_day = λ t. t + 86400; next_month = λ t. t + 30 * 86400 }
