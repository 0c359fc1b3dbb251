-- ===== src/Services/Balance/Claim.antt =====
-- Proofs about `calculateBalance` (services/balance/balance.js), with the paused seconds counted.
use Prim.Native.Nat.{ℕ, ◌-◌, ◌*◌, ◌≤◌, ◌<◌}
use paystream_contracts.Prelude.{
  ◌≡◌, refl, sym, ap, arith, Bool, false, not, ltb, leb, ◌&&◌, Bool-cases, inl, inr, ◌⊎◌,
}
use paystream_contracts.Prelude.Int.{pos-minus}
use paystream_contracts.Services.Balance.{
  Stream, min, calculate_balance, effective_end, accrue, is_ended,
}
use paystream_contracts.Services.Balance.Seconds.{seconds, seconds-not}
use paystream_contracts.Services.Balance.Paused.{paused_at, IsHistory, calc_paused_seconds_lem}

-- The stream is not paused at the second `x`.
abbrev pub runs_at : Stream → ℕ → Bool
runs_at stream x = not (paused_at false stream.pause_history x)

-- The seconds from `a` to `b` at which the stream runs.
unfoldable pub running : Stream → ℕ → ℕ → ℕ
running stream a b = seconds (runs_at stream) a (b - a)

pub active_running :
    (s : Stream) (a b : ℕ)
    → a ≤ b
    → IsHistory false 0 s.pause_history
    → (accrue s a b).active_elapsed ≡ running s a b
unfolding accrue running
active_running s a b ab h =
    let complement = seconds-not (paused_at false s.pause_history) a (b - a) in
    let counted = calc_paused_seconds_lem s.pause_history a b ab h in
    let p = seconds (paused_at false s.pause_history) a (b - a) in
    let difference = pos-minus (b - a) p (omega (arith, complement)) in
    rw (counted, difference) (omega (arith, complement))

accrue-claimable :
    (s : Stream) (a b : ℕ)
    → (accrue s a b).claimable
      ≡ min ((accrue s a b).active_elapsed * s.rate_per_second) (s.deposit - s.withdrawn)
unfolding accrue
accrue-claimable s a b = refl

pub running_empty : (s : Stream) (a b : ℕ) → b ≤ a → running s a b ≡ 0
unfolding running
running_empty s a b ba =
    let zero_long : b - a ≡ 0 = omega (arith, ba) in ap (seconds (runs_at s) a) zero_long

-- The time up to which a stream pays, seen at `now`: it is not after now nor after the stop time,
-- where there is one, and it is one of the two.
abbrev pub IsEnd : Stream → ℕ → ℕ → Type 0
IsEnd s now e =
    (e ≤ now)
    × (0 < s.stop_time → e ≤ s.stop_time)
    × ((e ≡ now) ⊎ ((0 < s.stop_time) × (e ≡ s.stop_time)))

pub effective_end_unique : (s : Stream) (now e : ℕ) → IsEnd s now e → effective_end s now ≡ e
unfolding effective_end
effective_end_unique s now e (before, stopped, inl same) = elim (Bool-cases (ltb 0 s.stop_time)) [
  | inl stops ↦ ground (arith, stops, same, stopped (ground (arith, stops)))
  | inr endless ↦ ground (arith, endless, same)
]
effective_end_unique s now e (before, stopped, inr (stops, same)) =
    ground (arith, stops, same, before)

-- For a stream that is not ended and whose cliff is over, with its pauses in order, and the time `e`
-- up to which it pays (the earlier of now and the stop time, or now for a stream without one): what
-- can be claimed is the rate for each second since the last withdrawal, up to `e`, at which the
-- stream runs, and at most what is left of the deposit.
pub calculate_balance_lem :
    (s : Stream) (now e : ℕ)
    → IsEnd s now e
    → is_ended s ≡ false
    → s.cliff_time ≤ now
    → IsHistory false 0 s.pause_history
    → (calculate_balance s now).claimable
      ≡ min (running s s.last_withdraw_time e * s.rate_per_second) (s.deposit - s.withdrawn)
unfolding calculate_balance
calculate_balance_lem s now e last unended cliff h =
    let ends = effective_end_unique s now e last in
    let start = s.last_withdraw_time in
    let over : (ltb 0 s.cliff_time && ltb now s.cliff_time) ≡ false = ground (arith, cliff) in
    elim (Bool-cases (leb e start)) [
      | inl empty ↦
          let none_run = running_empty s start e (ground (arith, empty)) in
          rw (unended, over, ends) (rw (empty) (ground (arith, none_run)))
      | inr full ↦
          let active = active_running s start e (ground (arith, full)) h in
          rw (unended, over, ends) (rw (full) (rw (sym active) (accrue-claimable s start e)))
    ]
