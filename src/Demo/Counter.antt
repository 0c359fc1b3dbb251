-- ===== src/Demo/Counter.antt =====
-- The live counter of what an employee can withdraw: `calculateClaimableAtTime` and the effect of
-- `useClaimableCounter` (demo/src/useClaimableCounter.ts), the same in `useBalanceTicker`
-- (demo/src/useBalanceTicker.ts), and what the contract pays (`claimable_amount`,
-- contracts/stream/src/storage.rs).
pub mod Laws
use paystream_contracts.Prelude.{
  ℕ, List, [], ◌∷◌, ◌/◌, ◌^◌, ◌-◌, Bool, true, false, ◌&&◌, not, Option, none, some, if◌then◌else◌,
  ltb,
}
use paystream_contracts.Prelude.Int.{
  ℤ, pos, negsuc, pos_part, ◌+ℤ◌, ◌-ℤ◌, ◌*ℤ◌, ltb_ℤ, leb_ℤ, eqb_ℤ,
}
use paystream_contracts.Js.{is_text}
use paystream_contracts.Js.Double.{to_number}
use paystream_contracts.Sdk.Types.{Stream}

-- `current_time` is in seconds.
unfoldable pub calculate_claimable_at_time : Stream → ℤ → ℕ → ℤ
calculate_claimable_at_time stream base_claimable current_time =
    if not (is_text stream.status "Active")
    then base_claimable
    else if ltb_ℤ (pos 0) stream.start_time
        && ltb_ℤ (pos current_time) (to_number stream.start_time)
    then base_claimable
    else if ltb_ℤ (pos 0) stream.stop_time && leb_ℤ (to_number stream.stop_time) (pos current_time)
    then base_claimable
    else base_claimable
      +ℤ to_number (pos current_time -ℤ to_number stream.last_withdraw_time)
        *ℤ stream.rate_per_second

-- `calculateCurrentClaimable` of useBalanceTicker.ts
unfoldable pub calculate_current_claimable : Stream → ℤ → ℕ → ℤ
calculate_current_claimable stream base_claimable current_time_seconds =
    if not (is_text stream.status "Active")
    then base_claimable
    else if ltb_ℤ (pos 0) stream.start_time
        && ltb_ℤ (pos current_time_seconds) (to_number stream.start_time)
    then base_claimable
    else if ltb_ℤ (pos 0) stream.stop_time
        && leb_ℤ (to_number stream.stop_time) (pos current_time_seconds)
    then base_claimable
    else base_claimable
      +ℤ to_number (pos current_time_seconds -ℤ to_number stream.last_withdraw_time)
        *ℤ stream.rate_per_second

-- The state of `useClaimableCounter`: the amount shown, whether an interval is set, and the time of
-- the last effect.
pub record Counter : Type 0 where
  pub live_claimable : ℤ
  pub interval : Bool
  pub last_update : ℕ

-- The effect, which runs when the stream or the base changes; `now` is `Date.now()`.
unfoldable pub effect : Stream → ℤ → ℕ → Counter → Counter
effect stream base_claimable now s =
    if not (is_text stream.status "Active")
    then record s { live_claimable = base_claimable; interval = false }
    else record {
      live_claimable = calculate_claimable_at_time stream base_claimable (now / 1000);
      interval = true;
      last_update = now / 1000;
    }

-- One round of the interval, if it is set.
unfoldable pub on_interval : Stream → ℤ → ℕ → Counter → Counter
on_interval stream base_claimable now s =
    if s.interval
    then record s {
      live_claimable = calculate_claimable_at_time stream base_claimable (now / 1000);
    }
    else s

-- The rounds of the interval, at the times `nows` of `Date.now()`.
unfoldable pub rounds : Stream → ℤ → List ℕ → Counter → Counter
rounds stream base [] s = s
rounds stream base (now ∷ nows) s = rounds stream base nows (on_interval stream base now s)

unfoldable pub cleanup : Counter → Counter
cleanup s = record s { interval = false }

abbrev i128_max : ℕ
i128_max = 2 ^ 127 - 1

abbrev fits_i128 : ℤ → Bool
fits_i128 (pos n) = ltb n (2 ^ 127)
fits_i128 (negsuc n) = ltb n (2 ^ 127)

abbrev min_ℤ : ℤ → ℤ → ℤ
min_ℤ a b = if ltb_ℤ b a then b else a

abbrev max_ℤ : ℤ → ℤ → ℤ
max_ℤ a b = if ltb_ℤ a b then b else a

-- `deposit.checked_sub(withdrawn).unwrap_or(0).max(0)`
unfoldable pub remaining : Stream → ℤ
remaining stream =
    let left = stream.deposit -ℤ stream.withdrawn in
    max_ℤ (if fits_i128 left then left else pos 0) (pos 0)

-- The last second that counts.
unfoldable pub effective_end : Stream → ℕ → ℤ
effective_end stream now =
    if ltb_ℤ (pos 0) stream.stop_time && ltb_ℤ stream.stop_time (pos now)
    then stream.stop_time
    else pos now

-- The seconds between the last withdrawal and the end, at least 0.
unfoldable pub elapsed : Stream → ℕ → ℤ
elapsed stream now = max_ℤ (effective_end stream now -ℤ stream.last_withdraw_time) (pos 0)

-- `none` where the contract panics because the product overflows.
unfoldable pub earned_amount : Stream → ℤ → Option ℤ
earned_amount stream seconds =
    let earned = seconds *ℤ stream.rate_per_second in
    if fits_i128 earned then some (max_ℤ (min_ℤ earned (remaining stream)) (pos 0)) else none

-- What the contract would pay at the second `now`.
unfoldable pub claimable_amount : Stream → ℕ → Option ℤ
claimable_amount stream now =
    if is_text stream.status "Cancelled"
    then some (pos 0)
    else if is_text stream.status "Exhausted"
    then some (pos 0)
    else if ltb_ℤ (pos 0) stream.cliff_time && ltb_ℤ (pos now) stream.cliff_time
    then some (pos 0)
    else if eqb_ℤ (elapsed stream now) (pos 0)
    then some (pos 0)
    else earned_amount stream (elapsed stream now)

-- The state of `useBalanceTicker`, and its effect, interval and cleanup.
pub record Ticker : Type 0 where
  pub ticking_balance : ℤ
  pub ticking : Bool

unfoldable pub ticker_effect : Stream → ℤ → ℕ → Ticker → Ticker
ticker_effect stream base_claimable now s =
    if not (is_text stream.status "Active")
    then record { ticking_balance = base_claimable; ticking = false }
    else record {
      ticking_balance = calculate_current_claimable stream base_claimable (now / 1000);
      ticking = true;
    }

unfoldable pub on_tick : Stream → ℤ → ℕ → Ticker → Ticker
on_tick stream base_claimable now s =
    if s.ticking
    then record s {
      ticking_balance = calculate_current_claimable stream base_claimable (now / 1000);
    }
    else s

unfoldable pub stop_ticker : Ticker → Ticker
stop_ticker s = record s { ticking = false }
