-- ===== src/Demo/PayStream.antt =====
-- `usePayStream` (demo/src/usePayStream.ts): the state of the hook as a record, and each of its
-- functions run from its call to its end.
pub mod Laws
use Prim.Native.String.{String}
use text.Mathlib.Text.{◌==◌}
use paystream_contracts.Prelude.{
  Bool, true, false, List, [], ◌∷◌, ◌++◌, any, Option, none, some, if◌then◌else◌,
}
use paystream_contracts.Prelude.Int.{ℤ, pos, ◌-ℤ◌, ltb_ℤ, eqb_ℤ}
use paystream_contracts.Prelude.Dict.{insert}
use paystream_contracts.Js.{
  Error, Result, ok, err, Io, ◌>>=◌, ◌>>◌, pure, modify, try_catch, finally, error_text, present,
}
use paystream_contracts.Sdk.Types.{Stream}
use paystream_contracts.Sdk.Platform.{Platform}
use paystream_contracts.Sdk.Requests
use paystream_contracts.Sdk.Client
use paystream_contracts.Sdk.Client.{Client}
use paystream_contracts.Sdk.Freighter.{
  Wallet, is_freighter_connected, connect_freighter, freighter_sign_transaction,
}

-- The states of the hook; `polled` holds the keys under which a poller runs.
pub record PayStream (World : Type 0) : Type 0 where
  pub public_key : Option String
  pub streams : List Stream
  pub claimable_amounts : List (String × ℤ)
  pub error : Option String
  pub loading : Bool
  pub polled : List String
  pub world : World

abbrev pub outside : {World A : Type 0} → Io World A → Io (PayStream World) A
outside m s = let (r, w) = m s.world in (r, record s { world = w })

abbrev pub set_error : {World A : Type 0} → A → Error → Io (PayStream World) A
set_error a e = modify (λ s. record s { error = some (error_text e) }) >> pure a

abbrev pub begin_loading : {World : Type 0} → PayStream World → PayStream World
begin_loading s = record s { loading = true; error = none }

abbrev pub end_loading : {World : Type 0} → PayStream World → PayStream World
end_loading s = record s { loading = false }

-- Replace the first stream with the id, or else append.
unfoldable pub upsert : ℤ → Stream → List Stream → List Stream
upsert stream_id stream [] = stream ∷ []
upsert stream_id stream (s ∷ rest) =
    let later = upsert stream_id stream rest in
    if eqb_ℤ s.id stream_id then stream ∷ rest else s ∷ later

-- A poller is started under a key that has none.
unfoldable pub start_poller : String → List String → List String
start_poller key polled = if any (λ k. k == key) polled then polled else key ∷ polled

-- The callback of a poller.
unfoldable pub on_amount : {World : Type 0} → String → ℤ → PayStream World → PayStream World
on_amount key amount s = record s { claimable_amounts = insert key amount s.claimable_amounts }

module _ (p : Platform) (c : Client p) (api : Wallet p.World) (to_string : ℤ → String)
    (passphrase : String) where
  open p use {World}

  unfoldable pub connect_if : Bool → Io (PayStream World) (Unit {0})
  connect_if false = modify (λ s. record s {
    error = some "Freighter is not installed. Install it from https://freighter.app";
  })
  connect_if true = do
    pk ← outside (connect_freighter api)
    modify (λ s. record s { public_key = some pk })

  unfoldable pub connect : Io (PayStream World) (Unit {0})
  connect = do
    modify begin_loading
    finally (try_catch (outside (is_freighter_connected api) >>= connect_if) (set_error tt))
        end_loading

  unfoldable pub show_stream : ℤ → Stream → PayStream World → PayStream World
  show_stream stream_id stream s = record s {
    streams = upsert stream_id stream s.streams;
    polled = start_poller (to_string stream_id) s.polled;
  }

  unfoldable pub load_stream : ℤ → Io (PayStream World) (Unit {0})
  load_stream stream_id = do
    modify begin_loading
    finally
        (try_catch
          (outside (Client.get_stream p c stream_id) >>= λ stream.
            modify (show_stream stream_id stream))
          (set_error tt))
        end_loading

  -- `if (count > 0n) await loadStream(count - 1n)`
  unfoldable pub load_newest : ℤ → Io (PayStream World) (Unit {0})
  load_newest count s = (if ltb_ℤ (pos 0) count then load_stream (count -ℤ pos 1) s else (ok tt, s))

  -- Sign and submit, then load what is given by `next`.
  unfoldable pub sign_and_submit :
      Io (PayStream World) (Unit {0}) → String → Io (PayStream World) (Option String)
  sign_and_submit next xdr = do
    signed ← outside (freighter_sign_transaction api xdr passphrase)
    hash ← outside (Client.submit_transaction p c signed)
    next
    pure (some hash)

  -- Build with `tx`, sign, submit and load: a hash, or `none` for `undefined`.
  unfoldable pub perform :
      Io World String → Io (PayStream World) (Unit {0}) → Io (PayStream World) (Option String)
  perform tx next = do
    modify begin_loading
    finally (try_catch (outside tx >>= sign_and_submit next) (set_error none)) end_loading

  -- `if (!publicKey) { setError("Connect wallet first"); return; }`
  unfoldable pub with_key :
      (String → Io (PayStream World) (Option String)) → Io (PayStream World) (Option String)
  with_key f s = elim (present s.public_key) [
    | none ↦ (ok none, record s { error = some "Connect wallet first" })
    | some pk ↦ f pk s
  ]

  unfoldable pub create_stream :
      (employee token_address : String) (deposit rate_per_second stop_time : ℤ)
      → Io (PayStream World) (Option String)
  create_stream employee token_address deposit rate_per_second stop_time = with_key λ pk.
      perform
        (Client.build_tx p c (
          Requests.create_stream pk employee token_address deposit rate_per_second stop_time (pos 0)
            (pos 0)))
        (outside (Client.stream_count p c) >>= load_newest)

  unfoldable pub withdraw : ℤ → Io (PayStream World) (Option String)
  withdraw stream_id = with_key λ pk.
      perform (Client.build_tx p c (Requests.withdraw pk stream_id none)) (load_stream stream_id)
