-- ===== src/Demo/Employer/Actions.antt =====
-- Proofs about `handleAction` and `handleTopUp` (demo/src/useEmployerDashboard.ts).
use Prim.Native.String.{String}
use paystream_contracts.Prelude.{
  ◌≡◌, refl, ap, arith, List, [], ◌∷◌, none, some, ◌⊎◌, inl, inr, ◌∙◌, map, keep, not,
}
use paystream_contracts.Prelude.Int.{ℤ, eqb_ℤ}
use paystream_contracts.Prelude.Dict.{insert}
use paystream_contracts.Js.{
  Error, Result, ok, err, Io, error_text, present, try_catch, finally, ◌<>◌,
}
use paystream_contracts.Js.Laws.{Result-cases, bind_returned}
use paystream_contracts.Sdk.Types.{Stream}
use paystream_contracts.Sdk.Platform.{Platform}
use paystream_contracts.Sdk.Requests
use paystream_contracts.Sdk.Requests.{Request}
use paystream_contracts.Sdk.Client
use paystream_contracts.Sdk.Client.{Client}
use paystream_contracts.Sdk.Freighter.{Wallet, freighter_sign_transaction}
use paystream_contracts.Demo.Employer.{
  Dashboard, outside, Action, pause, resume, cancel, replace_stream, sign_and_submit, attempt, act,
  handle_action, handle_top_up, top_up, set_error_and_throw, action_tx, action_name, begin_action,
  end_action, set_error,
}

module _ (p : Platform) (c : Client p) (api : Wallet p.World) (to_string : ℤ → String)
    (passphrase : String) where
  open p use {World}

  -- The transaction that `tx` builds was signed by the wallet, submitted and confirmed under a hash
  -- that is noted, and the stream was read again and replaced; no other stream has changed.
  abbrev pub Submitted : Io World String → ℤ → Dashboard World → Dashboard World → Type 0
  Submitted tx stream_id s t =
      (xdr : String) × (signed : String) × (hash : String) × (updated : Stream) × (w1 : World)
      × (w2 : World) × (w3 : World) × (tx s.world ≡ (ok xdr, w1))
      × (freighter_sign_transaction api xdr passphrase w1 ≡ (ok signed, w2))
      × (Client.submit_transaction p c signed w2 ≡ (ok hash, w3))
      × (Client.get_stream p c stream_id w3 ≡ (ok updated, t.world))
      × (t.streams ≡ replace_stream stream_id updated s.streams)
      × (t.last_tx_hashes ≡ insert (to_string stream_id) hash s.last_tx_hashes)

  -- How an attempt ends, by whether it throws.
  abbrev Attempted :
      Io World String → ℤ → Dashboard World → Result (Unit {0}) × Dashboard World → Type 0
  Attempted tx stream_id s (ok _, t) = (t.error ≡ s.error) × Submitted tx stream_id s t
  Attempted tx stream_id s (err _, t) = t.streams ≡ s.streams

  sign_and_submit-Attempted :
      (tx : Io World String) (stream_id : ℤ) (xdr : String) (s : Dashboard World) (w : World)
      → tx s.world ≡ (ok xdr, w)
      → Attempted tx stream_id s
          (sign_and_submit p c api to_string passphrase stream_id xdr (record s { world = w }))
  unfolding sign_and_submit
  sign_and_submit-Attempted tx stream_id xdr s w built =
      elim (Result-cases (freighter_sign_transaction api xdr passphrase w).0) [
        | inr (e, h) ↦ ground arith
        | inl (signed, h) ↦
            let w1 = (freighter_sign_transaction api xdr passphrase w).1 in
            elim (Result-cases (Client.submit_transaction p c signed w1).0) [
              | inr (e, k) ↦ ground arith
              | inl (hash, k) ↦
                  let w2 = (Client.submit_transaction p c signed w1).1 in
                  elim (Result-cases (Client.get_stream p c stream_id w2).0) [
                    | inr (e, l) ↦ ground arith
                    | inl (updated, l) ↦
                        let w3 = (Client.get_stream p c stream_id w2).1 in
                        let t = record s {
                          last_tx_hashes = insert (to_string stream_id) hash s.last_tx_hashes;
                          streams = replace_stream stream_id updated s.streams;
                          world = w3;
                        } in
                        let done : sign_and_submit p c api to_string passphrase stream_id xdr
                              (record s { world = w })
                            ≡ (ok tt, t) =
                          ground arith in
                        rw done (
                          refl,
                          (
                            xdr,
                            signed,
                            hash,
                            updated,
                            w,
                            w1,
                            w2,
                            built,
                            ap (λ r. (r, w1)) h,
                            ap (λ r. (r, w2)) k,
                            ap (λ r. (r, w3)) l,
                            refl,
                            refl,
                          ),
                        )
                  ]
            ]
      ]

  attempt-Attempted :
      (stream_id : ℤ) (tx : Io World String) (s : Dashboard World)
      → Attempted tx stream_id s (attempt p c api to_string passphrase stream_id tx s)
  unfolding attempt
  attempt-Attempted stream_id tx s = elim (Result-cases (tx s.world).0) [
    | inr (e, h) ↦ ground arith
    | inl (xdr, h) ↦
        let w = (tx s.world).1 in
        rw
          (bind_returned (outside tx) (sign_and_submit p c api to_string passphrase stream_id) s xdr
            h)
          (sign_and_submit-Attempted tx stream_id xdr s w (ap (λ r. (r, w)) h))
  ]

  -- The call of the contract that an action stands for
  abbrev pub requested : Action → String → ℤ → Request
  requested pause pk stream_id = Requests.pause_stream pk stream_id
  requested resume pk stream_id = Requests.resume_stream pk stream_id
  requested cancel pk stream_id = Requests.cancel_stream pk stream_id

  action_tx_lem :
      (action : Action) (pk : String) (stream_id : ℤ)
      → action_tx p c api to_string passphrase action pk stream_id
        ≡ Client.build_tx p c (requested action pk stream_id)
  unfolding action_tx
  action_tx_lem pause pk stream_id = refl
  action_tx_lem resume pk stream_id = refl
  action_tx_lem cancel pk stream_id = refl

  -- What an action leaves: no spinner, and either a stream replaced and no error, or an error and
  -- the streams as they were.
  abbrev pub Acted : Io World String → ℤ → Dashboard World → Dashboard World → Type 0
  Acted tx stream_id s t =
      (t.action_loading ≡ none)
      × (((t.error ≡ none) × Submitted tx stream_id s t)
          ⊎ ((e : Error) × (t.error ≡ some (error_text e)) × (t.streams ≡ s.streams)))

  -- The `catch` and `finally` blocks of an action, on how its `try` block ends.
  abbrev settle : Result (Unit {0}) × Dashboard World → Result (Unit {0}) × Dashboard World
  settle (ok u, t) = (ok u, end_action t)
  settle (err e, t) = (ok tt, end_action (record t { error = some (error_text e) }))

  settle_lem :
      (m : Io (Dashboard World) (Unit {0})) (s : Dashboard World)
      → finally (try_catch m set_error) end_action s ≡ settle (m s)
  settle_lem m s = go (m s)
    where
      go :
          (q : Result (Unit {0}) × Dashboard World)
          → finally (try_catch (λ _. q) set_error) end_action s ≡ settle q
      go (ok u, t) = refl
      go (err e, t) = refl

  settle-Acted :
      (tx : Io World String) (stream_id : ℤ) (s : Dashboard World)
      (q : Result (Unit {0}) × Dashboard World)
      → s.error ≡ none
      → Attempted tx stream_id s q
      → ((settle q).0 ≡ ok tt) × Acted tx stream_id s (settle q).1
  settle-Acted tx stream_id s (ok u, t) h (e, done) = (refl, (refl, inl (e ∙ h, done)))
  settle-Acted tx stream_id s (err x, t) h same = (refl, (refl, inr (x, refl, same)))

  act-settle :
      (action : Action) (stream_id : ℤ) (pk : String) (s : Dashboard World)
      → act p c api to_string passphrase action stream_id pk s
        ≡ settle (
            attempt p c api to_string passphrase stream_id
              (action_tx p c api to_string passphrase action pk stream_id)
              (begin_action (action_name action <> "-" <> to_string stream_id) s))
  unfolding act
  act-settle action stream_id pk s =
      settle_lem
        (attempt p c api to_string passphrase stream_id
          (action_tx p c api to_string passphrase action pk stream_id))
        (begin_action (action_name action <> "-" <> to_string stream_id) s)

  act-Acted :
      (action : Action) (stream_id : ℤ) (pk : String) (s : Dashboard World)
      → let (r, t) = act p c api to_string passphrase action stream_id pk s in
        (r ≡ ok tt) × Acted (Client.build_tx p c (requested action pk stream_id)) stream_id s t
  act-Acted action stream_id pk s =
      let tx = Client.build_tx p c (requested action pk stream_id) in
      let start = begin_action (action_name action <> "-" <> to_string stream_id) s in
      rw (act-settle action stream_id pk s, action_tx_lem action pk stream_id)
        (settle-Acted tx stream_id start (attempt p c api to_string passphrase stream_id tx start)
          refl (attempt-Attempted stream_id tx start))

  -- The same where the error is thrown again.
  abbrev settle_thrown : Result (Unit {0}) × Dashboard World → Result (Unit {0}) × Dashboard World
  settle_thrown (ok u, t) = (ok u, end_action t)
  settle_thrown (err e, t) = (err e, end_action (record t { error = some (error_text e) }))

  settle_thrown_lem :
      (m : Io (Dashboard World) (Unit {0})) (s : Dashboard World)
      → finally (try_catch m (set_error_and_throw p c api to_string passphrase)) end_action s
        ≡ settle_thrown (m s)
  unfolding set_error_and_throw
  settle_thrown_lem m s = go (m s)
    where
      go :
          (q : Result (Unit {0}) × Dashboard World)
          → finally
              (try_catch (λ _. q) (set_error_and_throw p c api to_string passphrase))
              end_action
              s
            ≡ settle_thrown q
      go (ok u, t) = refl
      go (err e, t) = refl

  -- How a top-up ends.
  abbrev pub ToppedUp :
      Io World String → ℤ → Dashboard World → Result (Unit {0}) × Dashboard World → Type 0
  ToppedUp tx stream_id s q =
      (q.1.action_loading ≡ none)
      × (((q.0 ≡ ok tt) × (q.1.error ≡ none) × Submitted tx stream_id s q.1)
          ⊎ ((e : Error) × (q.0 ≡ err e)
              × (q.1.error ≡ some (error_text e))
              × (q.1.streams ≡ s.streams)))

  settle-ToppedUp :
      (tx : Io World String) (stream_id : ℤ) (s : Dashboard World)
      (q : Result (Unit {0}) × Dashboard World)
      → s.error ≡ none
      → Attempted tx stream_id s q
      → ToppedUp tx stream_id s (settle_thrown q)
  settle-ToppedUp tx stream_id s (ok u, t) h (e, done) = (refl, inl (refl, e ∙ h, done))
  settle-ToppedUp tx stream_id s (err x, t) h same = (refl, inr (x, refl, refl, same))

  top_up_settle :
      (stream_id amount : ℤ) (pk : String) (s : Dashboard World)
      → top_up p c api to_string passphrase stream_id amount pk s
        ≡ settle_thrown (
            attempt p c api to_string passphrase stream_id
              (Client.build_tx p c (Requests.top_up pk stream_id amount))
              (begin_action ("topup-" <> to_string stream_id) s))
  unfolding top_up
  top_up_settle stream_id amount pk s =
      settle_thrown_lem
        (attempt p c api to_string passphrase stream_id
          (Client.build_tx p c (Requests.top_up pk stream_id amount)))
        (begin_action ("topup-" <> to_string stream_id) s)

  top_up-ToppedUp :
      (stream_id amount : ℤ) (pk : String) (s : Dashboard World)
      → ToppedUp
          (Client.build_tx p c (Requests.top_up pk stream_id amount))
          stream_id
          s
          (top_up p c api to_string passphrase stream_id amount pk s)
  top_up-ToppedUp stream_id amount pk s =
      let tx = Client.build_tx p c (Requests.top_up pk stream_id amount) in
      let start = begin_action ("topup-" <> to_string stream_id) s in
      rw (top_up_settle stream_id amount pk s) (
        settle-ToppedUp tx stream_id start (attempt p c api to_string passphrase stream_id tx start)
          refl (attempt-Attempted stream_id tx start))

  -- An action that somebody with a key asks for never throws, and always leaves the state in one
  -- of two ways: the transaction of the contract's function for the action was built for the key,
  -- signed by the wallet, submitted and confirmed, its hash is noted, the stream was read again and
  -- only the streams with this id are replaced, and no error is shown; or an error is shown and no
  -- stream has changed. The button is free again in both.
  pub handle_action-Acted :
      (action : Action) (stream_id : ℤ) (s : Dashboard World) (pk : String)
      → present s.public_key ≡ some pk
      → let (r, t) = handle_action p c api to_string passphrase action stream_id s in
        (r ≡ ok tt) × Acted (Client.build_tx p c (requested action pk stream_id)) stream_id s t
  unfolding handle_action
  handle_action-Acted action stream_id s pk h =
      rw (h, handle_action) (act-Acted action stream_id pk s)

  -- A top-up leaves the state in the same two ways, and throws the error again in the second.
  pub handle_top_up-ToppedUp :
      (stream_id amount : ℤ) (s : Dashboard World) (pk : String)
      → present s.public_key ≡ some pk
      → ToppedUp
          (Client.build_tx p c (Requests.top_up pk stream_id amount))
          stream_id
          s
          (handle_top_up p c api to_string passphrase stream_id amount s)
  unfolding handle_top_up
  handle_top_up-ToppedUp stream_id amount s pk h =
      rw (h, handle_top_up) (top_up-ToppedUp stream_id amount pk s)

-- Refreshing one stream keeps the number of streams and the order of the ids, if the stream that is
-- read has the id that was asked for, and leaves the streams with other ids as they were.
pub replace_stream_lem :
    (stream_id : ℤ) (updated : Stream) (streams : List Stream)
    → updated.id ≡ stream_id
    → (map (λ s. s.id) (replace_stream stream_id updated streams) ≡ map (λ s. s.id) streams)
      × (keep (λ s. not (eqb_ℤ s.id stream_id)) (replace_stream stream_id updated streams)
          ≡ keep (λ s. not (eqb_ℤ s.id stream_id)) streams)
unfolding replace_stream
replace_stream_lem stream_id updated [] h = (refl, refl)
replace_stream_lem stream_id updated (s ∷ rest) h =
    let (ids, others) = replace_stream_lem stream_id updated rest h in (ground arith, ground arith)
