-- ===== src/Demo/Employee.antt =====
-- `useEmployeeDashboard` (demo/src/useEmployeeDashboard.ts): the state of the hook as a record, and
-- each of its functions run from its call to its end.
use Prim.Native.String.{String}
use text.Mathlib.Text.{◌==◌}
use paystream_contracts.Prelude.{
  ℕ, zero, suc, ◌+◌, ◌-◌, Bool, true, false, List, [], ◌∷◌, ◌++◌, any, Option, none, some,
  if◌then◌else◌,
}
use paystream_contracts.Prelude.Int.{ℤ, pos, pos_part, eqb_ℤ}
use paystream_contracts.Prelude.Dict.{lookup, insert}
use paystream_contracts.Js.{
  Error, ok, Io, ◌>>=◌, ◌>>◌, pure, modify, try_catch, finally, error_text, is_text, present, ◌<>◌,
}
use paystream_contracts.Js.Double.{to_number}
use paystream_contracts.Js.Float.{Float}
use paystream_contracts.Sdk.Types.{Stream}
use paystream_contracts.Sdk.Platform.{Platform}
use paystream_contracts.Sdk.Requests
use paystream_contracts.Sdk.Client
use paystream_contracts.Sdk.Client.{Client}
use paystream_contracts.Sdk.Freighter.{
  Wallet, is_freighter_connected, connect_freighter, freighter_sign_transaction,
}
use paystream_contracts.Demo.Employer.{replace_stream, max_scan}

-- `polled` holds the keys under which a poller runs.
pub record EmployeeDashboard (World : Type 0) : Type 0 where
  pub public_key : Option String
  pub streams : List Stream
  pub claimable_amounts : List (String × ℤ)
  pub loading : Bool
  pub action_loading : Option String
  pub error : Option String
  pub scanned : ℕ
  pub chain_total : ℤ
  pub polled : List String
  pub world : World

abbrev outside : {World A : Type 0} → Io World A → Io (EmployeeDashboard World) A
outside m s = let (r, w) = m s.world in (r, record s { world = w })

abbrev set_error : {World : Type 0} → Error → Io (EmployeeDashboard World) (Unit {0})
set_error e = modify (λ s. record s { error = some (error_text e) })

abbrev begin_loading : {World : Type 0} → EmployeeDashboard World → EmployeeDashboard World
begin_loading s = record s { loading = true; error = none }

abbrev end_loading : {World : Type 0} → EmployeeDashboard World → EmployeeDashboard World
end_loading s = record s { loading = false }

-- `setClaimableAmounts((prev) => ({ ...prev, [key]: amount }))`, also a poller's callback
unfoldable pub set_amount :
    {World : Type 0} → String → ℤ → EmployeeDashboard World → EmployeeDashboard World
set_amount key amount s = record s { claimable_amounts = insert key amount s.claimable_amounts }

-- The effect's cleanup on unmount.
unfoldable pub unmount : {World : Type 0} → EmployeeDashboard World → EmployeeDashboard World
unmount s = record s { polled = [] }

module _ (p : Platform) (c : Client p) (api : Wallet p.World) (to_string : ℤ → String)
    (passphrase : String) where
  open p use {World}

  unfoldable pub connect_if : Bool → Io (EmployeeDashboard World) (Unit {0})
  connect_if false =
      modify (λ s. record s {
        error = some "Freighter is not installed. Get it at https://freighter.app";
      })
  connect_if true = do
    pk ← outside (connect_freighter api)
    modify (λ s. record s { public_key = some pk })

  unfoldable pub connect : Io (EmployeeDashboard World) (Unit {0})
  connect = do
    modify begin_loading
    finally (try_catch (outside (is_freighter_connected api) >>= connect_if) set_error) end_loading

  -- Start a poller for an active stream that has none; read the amount of a stream that is not
  -- active once.
  unfoldable pub follow : ℤ → Stream → Io (EmployeeDashboard World) (Unit {0})
  follow stream_id stream s =
      (if is_text stream.status "Active"
          then (if any (λ k. k == to_string stream_id) s.polled
              then pure tt
              else modify (λ t. record t { polled = to_string stream_id ∷ t.polled }))
          else (outside (Client.claimable p c stream_id) >>= λ amount.
              modify (set_amount (to_string stream_id) amount)))
        s

  -- Show a stream that was read if it is the employee's; an error of `follow` leaves it in `found`.
  unfoldable pub show_if_owned :
      String → ℤ → List Stream → Option Stream → Io (EmployeeDashboard World) (List Stream)
  show_if_owned employee_key stream_id found none = pure found
  show_if_owned employee_key stream_id found (some stream) =
      if is_text stream.employee employee_key
      then modify (λ s. record s { streams = found ++ stream ∷ [] })
        >> try_catch (follow stream_id stream) (λ _. pure tt)
        >> pure (found ++ stream ∷ [])
      else pure found

  -- The body of the loop at index `i`, with the array `found`.
  unfoldable pub scan_one : String → ℕ → List Stream → Io (EmployeeDashboard World) (List Stream)
  scan_one employee_key i found =
      try_catch (outside (Client.get_stream p c (pos i)) >>= λ s. pure (some s)) (λ _. pure none)
      >>= show_if_owned employee_key (pos i) found

  -- The loop over the `k` indices from `start + k - 1` down to `start`.
  unfoldable pub scan :
      String → ℕ → ℕ → ℕ → List Stream → Io (EmployeeDashboard World) (List Stream)
  scan employee_key total start zero found = pure found
  scan employee_key total start (suc k) found = do
    found' ← scan_one employee_key (start + k) found
    modify (λ s. record s { scanned = total - (start + k) })
    scan employee_key total start k found'

  -- `if (total === 0) return;` and the loop from `total - 1` down to `max(0, total - MAX_SCAN)`
  unfoldable pub scan_all : String → ℤ → Io (EmployeeDashboard World) (Unit {0})
  scan_all employee_key total =
      if eqb_ℤ total (pos 0)
      then pure tt
      else let n = pos_part total in
        scan employee_key n (n - max_scan) (n - (n - max_scan)) [] >> pure tt

  unfoldable pub scan_chain : String → Io (EmployeeDashboard World) (Unit {0})
  scan_chain employee_key = do
    count ← outside (Client.stream_count p c)
    modify (λ s. record s { chain_total = to_number count })
    scan_all employee_key (to_number count)

  unfoldable pub load_dashboard : String → Io (EmployeeDashboard World) (Unit {0})
  load_dashboard employee_key = do
    modify begin_loading
    modify (λ s. record s { streams = []; scanned = 0 })
    finally (try_catch (scan_chain employee_key) set_error) end_loading

  -- Also what the effect on `publicKey` does.
  unfoldable pub refresh : Io (EmployeeDashboard World) (Unit {0})
  refresh s = elim (present s.public_key) [ none ↦ (ok tt, s) | some pk ↦ load_dashboard pk s ]

  -- The `try` block of `withdraw`.
  unfoldable pub try_withdraw : ℤ → String → Io (EmployeeDashboard World) (Unit {0})
  try_withdraw stream_id pk = do
    xdr_str ← outside (Client.build_tx p c (Requests.withdraw pk stream_id none))
    signed ← outside (freighter_sign_transaction api xdr_str passphrase)
    outside (Client.submit_transaction p c signed)
    updated ← outside (Client.get_stream p c stream_id)
    modify (λ s. record s { streams = replace_stream stream_id updated s.streams })
    amount ← outside (Client.claimable p c stream_id)
    modify (set_amount (to_string stream_id) amount)

  unfoldable pub withdraw : ℤ → Io (EmployeeDashboard World) (Unit {0})
  withdraw stream_id s = elim (present s.public_key) [
    | none ↦ (ok tt, s)
    | some pk ↦
        (modify (λ t. record t {
          action_loading = some ("withdraw-" <> to_string stream_id);
          error = none;
        })
            >> finally (try_catch (try_withdraw stream_id pk) set_error)
                (λ t. record t { action_loading = none }))
          s
  ]

module _ (fl : Float) (to_string : ℤ → String) where
  open fl use {F, of_int, add, div}

  pub record EmployeeStats : Type 0 where
    pub total : ℕ
    pub active : ℕ
    pub total_withdrawn_xlm : F
    pub total_claimable_xlm : F

  -- `claimableAmounts[s.id.toString()] ?? 0n`
  abbrev amount_of : List (String × ℤ) → Stream → ℤ
  amount_of amounts s = elim (lookup (to_string s.id) amounts) [ none ↦ pos 0 | some a ↦ a ]

  -- The function that `streams.reduce` is given, and the reduction.
  unfoldable pub add_stream : List (String × ℤ) → EmployeeStats → Stream → EmployeeStats
  add_stream amounts acc s = record acc {
    total = suc acc.total;
    active = if is_text s.status "Active" then suc acc.active else acc.active;
    total_withdrawn_xlm =
        add acc.total_withdrawn_xlm (div (of_int s.withdrawn) (of_int (pos 10000000)));
    total_claimable_xlm =
        add acc.total_claimable_xlm (div (of_int (amount_of amounts s)) (of_int (pos 10000000)));
  }

  unfoldable pub reduce : List (String × ℤ) → EmployeeStats → List Stream → EmployeeStats
  reduce amounts acc [] = acc
  reduce amounts acc (s ∷ rest) = reduce amounts (add_stream amounts acc s) rest

  unfoldable pub employee_stats : List (String × ℤ) → List Stream → EmployeeStats
  employee_stats amounts streams =
      reduce amounts
        (record {
          total = 0;
          active = 0;
          total_withdrawn_xlm = of_int (pos 0);
          total_claimable_xlm = of_int (pos 0);
        })
        streams
