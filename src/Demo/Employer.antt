-- ===== src/Demo/Employer.antt =====
-- `useEmployerDashboard` (demo/src/useEmployerDashboard.ts): the state of the hook as a record, and
-- each of its functions run from its call to its end.
pub mod Scan
pub mod Actions
use Prim.Native.String.{String}
use paystream_contracts.Prelude.{
  ℕ, zero, suc, ◌+◌, ◌-◌, min, Bool, true, false, List, [], ◌∷◌, ◌++◌, map, Option, none, some,
  if◌then◌else◌,
}
use paystream_contracts.Prelude.Int.{ℤ, pos, pos_part, eqb_ℤ}
use paystream_contracts.Prelude.Dict.{insert}
use paystream_contracts.Js.{
  Error, Result, ok, err, Io, ◌>>=◌, ◌>>◌, pure, throw, modify, try_catch, finally, error_text,
  is_text, present, ◌<>◌,
}
use paystream_contracts.Js.Double.{to_number}
use paystream_contracts.Sdk.Types.{Stream}
use paystream_contracts.Sdk.Platform.{Platform}
use paystream_contracts.Sdk.Requests
use paystream_contracts.Sdk.Client
use paystream_contracts.Sdk.Client.{Client}
use paystream_contracts.Sdk.Freighter.{
  Wallet, is_freighter_connected, connect_freighter, freighter_sign_transaction,
}

-- The newest streams that are scanned, at most.
abbrev pub max_scan : ℕ
max_scan = 200

pub data Action : Type 0 where
  pause resume cancel : Action

unfoldable pub action_name : Action → String
action_name pause = "pause"
action_name resume = "resume"
action_name cancel = "cancel"

-- The states of the hook, over the state `world` of all that lies outside.
pub record Dashboard (World : Type 0) : Type 0 where
  pub public_key : Option String
  pub streams : List Stream
  pub loading : Bool
  pub action_loading : Option String
  pub error : Option String
  pub scanned : ℕ
  pub chain_total : ℤ
  pub last_tx_hashes : List (String × String)
  pub world : World

-- A call that changes only what lies outside.
abbrev pub outside : {World A : Type 0} → Io World A → Io (Dashboard World) A
outside m s = let (r, w) = m s.world in (r, record s { world = w })

abbrev pub set_error : {World : Type 0} → Error → Io (Dashboard World) (Unit {0})
set_error e = modify (λ s. record s { error = some (error_text e) })

-- `setLoading(true); setError(null)`
abbrev begin_loading : {World : Type 0} → Dashboard World → Dashboard World
begin_loading s = record s { loading = true; error = none }

abbrev end_loading : {World : Type 0} → Dashboard World → Dashboard World
end_loading s = record s { loading = false }

-- `setActionLoading(key); setError(null)`
abbrev begin_action : {World : Type 0} → String → Dashboard World → Dashboard World
begin_action key s = record s { action_loading = some key; error = none }

abbrev end_action : {World : Type 0} → Dashboard World → Dashboard World
end_action s = record s { action_loading = none }

-- `setStreams((prev) => prev.map((s) => (s.id === streamId ? updated : s)))`
unfoldable pub replace_stream : ℤ → Stream → List Stream → List Stream
replace_stream stream_id updated [] = []
replace_stream stream_id updated (s ∷ rest) =
    (if eqb_ℤ s.id stream_id then updated else s) ∷ replace_stream stream_id updated rest

-- `bigint.toString()` and `Networks` are given; `passphrase` is `CONFIG.networkPassphrase`.
module _ (p : Platform) (c : Client p) (api : Wallet p.World) (to_string : ℤ → String)
    (passphrase : String) where
  open p use {World}

  -- `if (!ok) { setError(…); return; }` and the rest of the `try` block
  unfoldable pub connect_if : Bool → Io (Dashboard World) (Unit {0})
  connect_if false =
      modify (λ s. record s {
        error = some "Freighter is not installed. Get it at https://freighter.app";
      })
  connect_if true = do
    pk ← outside (connect_freighter api)
    modify (λ s. record s { public_key = some pk })

  unfoldable pub connect : Io (Dashboard World) (Unit {0})
  connect = do
    modify begin_loading
    finally (try_catch (outside (is_freighter_connected api) >>= connect_if) set_error) end_loading

  -- Keep a stream that was read if it is the employer's.
  unfoldable pub add_if_owned : String → List Stream → Stream → Io (Dashboard World) (List Stream)
  add_if_owned employer_key found stream =
      if is_text stream.employer employer_key
      then modify (λ s. record s { streams = found ++ stream ∷ [] }) >> pure (found ++ stream ∷ [])
      else pure found

  -- The body of the loop at index `i`, with the array `found`.
  unfoldable pub scan_one : String → ℕ → List Stream → Io (Dashboard World) (List Stream)
  scan_one employer_key i found =
      try_catch (outside (Client.get_stream p c (pos i)) >>= add_if_owned employer_key found)
        (λ _. pure found)

  -- The loop over the `k` indices from `start + k - 1` down to `start`.
  unfoldable pub scan : String → ℕ → ℕ → ℕ → List Stream → Io (Dashboard World) (List Stream)
  scan employer_key total start zero found = pure found
  scan employer_key total start (suc k) found = do
    found' ← scan_one employer_key (start + k) found
    modify (λ s. record s { scanned = total - (start + k) })
    scan employer_key total start k found'

  -- `if (total === 0) return;` and the loop from `total - 1` down to `max(0, total - MAX_SCAN)`;
  -- at a negative total the loop makes no round.
  unfoldable pub scan_all : String → ℤ → Io (Dashboard World) (Unit {0})
  scan_all employer_key total =
      if eqb_ℤ total (pos 0)
      then pure tt
      else let n = pos_part total in
        scan employer_key n (n - max_scan) (n - (n - max_scan)) [] >> pure tt

  unfoldable pub scan_chain : String → Io (Dashboard World) (Unit {0})
  scan_chain employer_key = do
    count ← outside (Client.stream_count p c)
    modify (λ s. record s { chain_total = to_number count })
    scan_all employer_key (to_number count)

  unfoldable pub load_dashboard : String → Io (Dashboard World) (Unit {0})
  load_dashboard employer_key = do
    modify begin_loading
    modify (λ s. record s { streams = []; scanned = 0 })
    finally (try_catch (scan_chain employer_key) set_error) end_loading

  -- Also what the effect on `publicKey` does.
  unfoldable pub refresh : Io (Dashboard World) (Unit {0})
  refresh s = elim (present s.public_key) [ none ↦ (ok tt, s) | some pk ↦ load_dashboard pk s ]

  unfoldable pub action_tx : Action → String → ℤ → Io World String
  action_tx pause pk stream_id = Client.build_tx p c (Requests.pause_stream pk stream_id)
  action_tx resume pk stream_id = Client.build_tx p c (Requests.resume_stream pk stream_id)
  action_tx cancel pk stream_id = Client.build_tx p c (Requests.cancel_stream pk stream_id)

  -- Sign and submit, note the hash, and read the stream again.
  unfoldable pub sign_and_submit : ℤ → String → Io (Dashboard World) (Unit {0})
  sign_and_submit stream_id xdr = do
    signed ← outside (freighter_sign_transaction api xdr passphrase)
    tx_hash ← outside (Client.submit_transaction p c signed)
    modify
        (λ s. record s { last_tx_hashes = insert (to_string stream_id) tx_hash s.last_tx_hashes })
    updated ← outside (Client.get_stream p c stream_id)
    modify (λ s. record s { streams = replace_stream stream_id updated s.streams })

  -- Build with `tx`, then sign and submit: the `try` block of both actions.
  unfoldable pub attempt : ℤ → Io World String → Io (Dashboard World) (Unit {0})
  attempt stream_id tx = outside tx >>= sign_and_submit stream_id

  unfoldable pub act : Action → ℤ → String → Io (Dashboard World) (Unit {0})
  act action stream_id pk = do
    modify (begin_action (action_name action <> "-" <> to_string stream_id))
    finally (try_catch (attempt stream_id (action_tx action pk stream_id)) set_error) end_action

  unfoldable pub handle_action : Action → ℤ → Io (Dashboard World) (Unit {0})
  handle_action action stream_id s = elim (present s.public_key) [
    | none ↦ (ok tt, s)
    | some pk ↦ act action stream_id pk s
  ]

  -- `setError(String(e)); throw e;`
  unfoldable pub set_error_and_throw : Error → Io (Dashboard World) (Unit {0})
  set_error_and_throw e = set_error e >> throw e

  unfoldable pub top_up : ℤ → ℤ → String → Io (Dashboard World) (Unit {0})
  top_up stream_id amount pk = do
    modify (begin_action ("topup-" <> to_string stream_id))
    finally
        (try_catch (attempt stream_id (Client.build_tx p c (Requests.top_up pk stream_id amount)))
          set_error_and_throw)
        end_action

  unfoldable pub handle_top_up : ℤ → ℤ → Io (Dashboard World) (Unit {0})
  handle_top_up stream_id amount s = elim (present s.public_key) [
    | none ↦ (ok tt, s)
    | some pk ↦ top_up stream_id amount pk s
  ]
