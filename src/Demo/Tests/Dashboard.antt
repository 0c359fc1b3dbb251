-- ===== src/Demo/Tests/Dashboard.antt =====
-- The counter, the employer's and the employee's hooks, the figures, toasts and templates at
-- concrete inputs.
use paystream_contracts.Prelude.{ℕ, ◌≡◌, refl, arith, [], ◌∷◌, none, some, false}
use paystream_contracts.Prelude.Int.{ℤ, pos, ◌+ℤ◌, ◌-ℤ◌, ◌*ℤ◌}
use paystream_contracts.Js
use paystream_contracts.Js.{Error, Result, ok, err, is_text, error_text}
use paystream_contracts.Sdk.Types.{Stream}
use paystream_contracts.Sdk.Client
use paystream_contracts.Sdk.Requests
use paystream_contracts.Sdk.Convert
use paystream_contracts.Demo.Counter.{Counter, calculate_claimable_at_time, claimable_amount}
use paystream_contracts.Demo.Counter.Laws.{IsRunning, counter_overcounts}
use paystream_contracts.Demo.Employer.{Dashboard, Action, load_dashboard, handle_action}
use paystream_contracts.Demo.Employer.Scan.{owned_between, load_dashboard_lem}
use paystream_contracts.Demo.Employer.Actions.{Acted, handle_action-Acted}
use paystream_contracts.Samples.{platform, client, wallet, stream, to_text}

stream-IsRunning : IsRunning stream 1 1 2 100 0
stream-IsRunning = record {
  active = refl;
  began = refl;
  ordered = omega arith;
  endless = refl;
  no_cliff = refl;
  paid = refl;
  earns = refl;
  deposited = refl;
  taken = refl;
}

-- Polled at second 11 with 20 due, the counter shows 42 a second later, where 22 are due.
shown : calculate_claimable_at_time stream (pos 20) 12 ≡ pos 42
unfolding calculate_claimable_at_time Js.Double.to_number Js.Double.round_double ◌+ℤ◌ ◌-ℤ◌ ◌*ℤ◌
shown = refl

counter_overcounts_example :
    (base : ℤ) × (due : ℤ) × (claimable_amount stream 11 ≡ some base)
    × (claimable_amount stream 12 ≡ some due)
    × (calculate_claimable_at_time stream base 12 ≡ due +ℤ pos 20)
counter_overcounts_example =
    counter_overcounts stream 1 1 2 100 0 stream-IsRunning 11 12 (omega arith) (omega arith)
      (omega arith) (omega arith) (omega arith)

abbrev counter : Counter
counter = record { live_claimable = pos 0; interval = false; last_update = 0 }

abbrev dashboard : Dashboard ℕ
dashboard = record {
  public_key = some "GA";
  streams = stream ∷ [];
  loading = false;
  action_loading = none;
  error = none;
  scanned = 0;
  chain_total = pos 0;
  last_tx_hashes = [];
  world = 0;
}

abbrev view : ℕ → Result Stream
view i = (Client.get_stream platform client (pos i) 0).0

stable : (i w : ℕ) → (Client.get_stream platform client (pos i) w).0 ≡ view i
unfolding Client.get_stream Client.simulate_read Client.simulate Client.to_scvals
    Requests.get_stream Convert.native_to_stream Convert.big_int
stable i w = refl

counted : Client.stream_count platform client 0 ≡ (ok (pos 3), 0)
unfolding Client.stream_count Client.simulate_read Client.simulate Client.to_scvals
    Requests.stream_count Convert.big_int
counted = refl

load_dashboard_lem_example :
    let t = (load_dashboard platform client wallet to_text "test" "GA" dashboard).1 in
    (t.streams ≡ owned_between "GA" view 0 3)
    × (t.scanned ≡ 3)
    × (t.chain_total ≡ pos 3)
    × (t.error ≡ none)
    × (t.loading ≡ false)
load_dashboard_lem_example =
    load_dashboard_lem platform client wallet to_text "test" "GA" view stable 3 0 dashboard
      (omega arith) counted

handle_action-Acted_example :
    let (r, t) =
      handle_action platform client wallet to_text "test" Action.pause (pos 0) dashboard in
    (r ≡ ok tt)
    × Acted platform client wallet to_text "test"
        (Client.build_tx platform client (Requests.pause_stream "GA" (pos 0)))
        (pos 0)
        dashboard
        t
handle_action-Acted_example =
    handle_action-Acted platform client wallet to_text "test" Action.pause (pos 0) dashboard "GA"
      refl
