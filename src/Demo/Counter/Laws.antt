-- ===== src/Demo/Counter/Laws.antt =====
-- Proofs about the live counter (demo/src/useClaimableCounter.ts, demo/src/useBalanceTicker.ts).
use paystream_contracts.Prelude.{
  ℕ, ◌+◌, ◌-◌, ◌*◌, ◌/◌, ◌^◌, ◌≤◌, ◌<◌, ◌≡◌, refl, arith, true, false, Bool-cases, inl, inr,
  if◌then◌else◌, some, List, [], ◌∷◌, ◌∙◌, ap, sym,
}
use paystream_contracts.Prelude.Int.{ℤ, pos, ◌+ℤ◌, ◌-ℤ◌, pos-plus, pos-minus, pos-times}
use paystream_contracts.Js.{str, is_text}
use paystream_contracts.Js.Double.{to_number, to_number_exact, exact_limit}
use paystream_contracts.Sdk.Types.{Stream}
use paystream_contracts.Demo.Counter.{
  calculate_claimable_at_time, calculate_current_claimable, Counter, effect, Ticker, ticker_effect,
  on_tick, on_interval, rounds, cleanup, claimable_amount, elapsed, effective_end, remaining,
  earned_amount,
}

-- The two copies of the calculation agree everywhere.
pub calculations_agree :
    (s : Stream) (base : ℤ) (t : ℕ)
    → calculate_claimable_at_time s base t ≡ calculate_current_claimable s base t
unfolding calculate_claimable_at_time calculate_current_claimable
calculations_agree s base t = refl

-- A running stream without cliff and without end, that began at second `first`, was last paid at
-- second `last`, earns `rate` a second, and has paid `withdrawn` of its `deposit`.
pub record IsRunning (s : Stream) (first last rate deposit withdrawn : ℕ) : Type 0 where
  pub active : s.status ≡ str "Active"
  pub began : s.start_time ≡ pos first
  pub ordered : first ≤ last
  pub endless : s.stop_time ≡ pos 0
  pub no_cliff : s.cliff_time ≡ pos 0
  pub paid : s.last_withdraw_time ≡ pos last
  pub earns : s.rate_per_second ≡ pos rate
  pub deposited : s.deposit ≡ pos deposit
  pub taken : s.withdrawn ≡ pos withdrawn

module _ (s : Stream) (first last rate deposit withdrawn : ℕ)
    (run : IsRunning s first last rate deposit withdrawn) where
  to_number_elapsed :
      (t : ℕ)
      → last ≤ t
      → t < exact_limit
      → to_number (pos t -ℤ to_number (pos last)) ≡ pos (t - last)
  to_number_elapsed t h k =
      ground (arith, to_number_exact last, pos-minus t last h, to_number_exact (t - last))

  shown :
      (base t : ℕ)
      → last ≤ t
      → t < exact_limit
      → calculate_claimable_at_time s (pos base) t ≡ pos (base + (t - last) * rate)
  unfolding calculate_claimable_at_time
  shown base t h k = ground (
    arith,
    to_number_exact first,
    to_number_exact last,
    to_number_elapsed t h k,
    pos-times (t - last) rate,
    pos-plus base ((t - last) * rate),
  )

  elapsed_running : (t : ℕ) → last ≤ t → elapsed s t ≡ pos (t - last)
  unfolding elapsed effective_end
  elapsed_running t h = ground (arith, pos-minus t last h)

  remaining_running :
      withdrawn ≤ deposit → deposit < 2 ^ 127 → remaining s ≡ pos (deposit - withdrawn)
  unfolding remaining
  remaining_running h k = ground (arith, pos-minus deposit withdrawn h)

  earned_running :
      (n : ℕ)
      → deposit < 2 ^ 127
      → n * rate + withdrawn ≤ deposit
      → earned_amount s (pos n) ≡ some (pos (n * rate))
  unfolding earned_amount
  earned_running n k enough = ground (arith, remaining_running, pos-times n rate)

  -- Before the deposit is used up the contract pays the rate for each second since the last
  -- payment.
  paid_out :
      (t : ℕ)
      → last ≤ t
      → deposit < 2 ^ 127
      → (t - last) * rate + withdrawn ≤ deposit
      → claimable_amount s t ≡ some (pos ((t - last) * rate))
  unfolding claimable_amount
  paid_out t h k enough = ground (arith, elapsed_running t h, earned_running (t - last) k enough)

  -- The amount shown for a running stream, whose base was polled at second `polled` and which is
  -- shown at second `now`, is what the contract would pay at `now` and, on top of it, all that had
  -- been earned at the poll, as long as the deposit covers what is earned.
  pub counter_overcounts :
      (polled now : ℕ)
      → last ≤ polled
      → polled ≤ now
      → now < exact_limit
      → deposit < 2 ^ 127
      → (now - last) * rate + withdrawn ≤ deposit
      → (base : ℤ) × (due : ℤ) × (claimable_amount s polled ≡ some base)
        × (claimable_amount s now ≡ some due)
        × (calculate_claimable_at_time s base now ≡ due +ℤ pos ((polled - last) * rate))
  counter_overcounts polled now h k exact limit enough =
      let least : (polled - last) * rate ≤ (now - last) * rate = grind arith in
      (
        pos ((polled - last) * rate),
        pos ((now - last) * rate),
        paid_out polled h limit (omega arith),
        paid_out now (omega arith) limit enough,
        shown ((polled - last) * rate) now (omega arith) exact
            ∙ ap pos (omega arith)
            ∙ sym (pos-plus ((now - last) * rate) ((polled - last) * rate)),
      )

abbrev pub last_time : ℕ → List ℕ → ℕ
last_time t [] = t
last_time t (now ∷ nows) = last_time now nows

rounds_set :
    (s : Stream) (base : ℤ) (t : ℕ) (nows : List ℕ) (c : Counter)
    → c.interval ≡ true
    → c.live_claimable ≡ calculate_claimable_at_time s base (t / 1000)
    → (rounds s base nows c).live_claimable
      ≡ calculate_claimable_at_time s base (last_time t nows / 1000)
unfolding rounds
rounds_set s base t [] c i e = e
rounds_set s base t (now ∷ nows) c i e =
    rounds_set s base now nows (on_interval s base now c) (unfold on_interval in ground arith)
      (unfold on_interval in ground arith)

on_interval_unset :
    (s : Stream) (base : ℤ) (now : ℕ) (c : Counter)
    → c.interval ≡ false
    → on_interval s base now c ≡ c
unfolding on_interval
on_interval_unset s base now c i = ground arith

rounds_unset :
    (s : Stream) (base : ℤ) (nows : List ℕ) (c : Counter)
    → c.interval ≡ false
    → rounds s base nows c ≡ c
unfolding rounds
rounds_unset s base [] c i = refl
rounds_unset s base (now ∷ nows) c i =
    rw (on_interval_unset s base now c i) (rounds_unset s base nows c i)

-- Of an active stream the counter shows the calculation at the last round of the interval, and of a
-- stream in any other status the base; after the cleanup, no round changes what is shown.
pub rounds-effect :
    (s : Stream) (base : ℤ) (now : ℕ) (nows : List ℕ) (c : Counter)
    → ((rounds s base nows (effect s base now c)).live_claimable ≡ (
        if is_text s.status "Active"
        then calculate_claimable_at_time s base (last_time now nows / 1000)
        else base))
      × (rounds s base nows (cleanup c) ≡ cleanup c)
unfolding effect cleanup
rounds-effect s base now nows c = (shown_last, rounds_unset s base nows _ refl)
  where
    active :
        is_text s.status "Active" ≡ true
        → (rounds s base nows (effect s base now c)).live_claimable
          ≡ calculate_claimable_at_time s base (last_time now nows / 1000)
    active e = rounds_set s base now nows (effect s base now c) (ground arith) (ground arith)

    idle :
        is_text s.status "Active" ≡ false
        → (rounds s base nows (effect s base now c)).live_claimable ≡ base
    idle e =
        let off : (effect s base now c).interval ≡ false = ground arith in
        rw (rounds_unset s base nows (effect s base now c) off) (ground arith)

    shown_last : (rounds s base nows (effect s base now c)).live_claimable ≡ (
        if is_text s.status "Active"
        then calculate_claimable_at_time s base (last_time now nows / 1000)
        else base)
    shown_last = elim (Bool-cases (is_text s.status "Active")) [
      | inl e ↦ active e ∙ rw e refl
      | inr e ↦ idle e ∙ rw e refl
    ]

-- The counter and the ticker show the same amount, after the effect and after a round.
pub tickers_agree :
    (s : Stream) (base : ℤ) (now next : ℕ) (c : Counter) (t : Ticker)
    → ((ticker_effect s base now t).ticking_balance ≡ (effect s base now c).live_claimable)
      × ((on_tick s base next (ticker_effect s base now t)).ticking_balance
          ≡ (on_interval s base next (effect s base now c)).live_claimable)
unfolding ticker_effect effect on_tick on_interval
tickers_agree s base now next c t = (
  ground (arith, calculations_agree s base (now / 1000)),
  ground (arith, calculations_agree s base (now / 1000), calculations_agree s base (next / 1000)),
)
