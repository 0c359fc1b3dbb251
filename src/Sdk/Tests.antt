-- ===== src/Sdk/Tests.antt =====
-- Tests of the SDK's model, and the theorems at concrete inputs.
use Prim.Native.String.{String}
use paystream_contracts.Prelude.{
  ℕ, zero, suc, ◌≡◌, ◌<◌, refl, arith, [], ◌∷◌, map, none, false, List,
}
use paystream_contracts.Prelude.Int.{pos}
use paystream_contracts.Js.{ok, err, new_error}
use paystream_contracts.Sdk.Platform.{SendResult, not_found}
use paystream_contracts.Sdk.Requests
use paystream_contracts.Sdk.Client.{
  build_tx, poll, confirm, submit_transaction, to_scvals, call_tx, simulate,
}
use paystream_contracts.Sdk.Client.Submission.{
  Accepted, Confirmed, answer, ask, submit_confirms_iff,
}
use paystream_contracts.Sdk.Client.Unsigned.{IsPrepared, build_tx_iff}
use paystream_contracts.Sdk.Types.{StreamParams}
use paystream_contracts.Sdk.Freighter.{freighter_sign_transaction}
use paystream_contracts.Sdk.Poll.{
  Handlers, Reaction, fired, resolved, rejected, start, unsubscribe, run,
}
use paystream_contracts.Sdk.Poll.Laws.{
  IsAlive, replies, seen, run-unsubscribe, run-start-IsAlive, run-replies,
}
use paystream_contracts.Samples.{platform, client, wallet}

-- The transaction is confirmed in the third round.
submitted : submit_transaction platform client "tx" 0 ≡ (ok "hash", 3)
unfolding submit_transaction confirm poll
submitted = refl

submit_confirms_iff_example :
    (tx : String) × (sent : SendResult) × (w' : ℕ) × Accepted platform client "tx" 0 tx sent w'
    × (("hash" ≡ sent.hash) × Confirmed platform client sent.hash 20 w')
submit_confirms_iff_example =
    (submit_confirms_iff platform client "tx" 0 "hash").0 (rw submitted refl)

answers : (j : ℕ) → j < 2 → answer platform client "hash" j 0 ≡ ok not_found
unfolding answer ask
answers zero h = refl
answers (suc zero) h = refl
answers (suc (suc j)) h = absurd (omega arith)

built : (build_tx platform client (Requests.pause_stream "GA" (pos 1)) 0).0 ≡ ok "pause_stream"
unfolding build_tx to_scvals call_tx simulate Requests.pause_stream
built = refl

build_tx_iff_example :
    IsPrepared platform client (Requests.pause_stream "GA" (pos 1)) 0 "pause_stream"
build_tx_iff_example =
    (build_tx_iff platform client (Requests.pause_stream "GA" (pos 1)) 0 "pause_stream").0 built

abbrev two_streams : List StreamParams
two_streams =
    record {
      employee = "GB";
      token = "CT";
      deposit = pos 100;
      rate_per_second = pos 1;
      stop_time = pos 0;
      cliff_time = pos 0;
    }
    ∷ record {
      employee = "GC";
      token = "CT";
      deposit = pos 50;
      rate_per_second = pos 2;
      stop_time = pos 9;
      cliff_time = pos 3;
    }
    ∷ []

signed : (freighter_sign_transaction wallet "tx" "test" 0).0 ≡ ok "tx"
unfolding freighter_sign_transaction
signed = refl

-- A caller whose handlers do nothing
abbrev quiet : Reaction
quiet = record { unsubscribes = false; throws = none }

abbrev plain : Handlers
plain = record { callback = λ a. quiet; on_error = none }

run-unsubscribe_example :
    (run plain (resolved (pos 7) ∷ fired ∷ []) (unsubscribe start)).notices ≡ start.notices
run-unsubscribe_example = run-unsubscribe plain (resolved (pos 7) ∷ fired ∷ []) start

run-start-IsAlive_example : IsAlive (run plain (rejected (new_error "down") ∷ fired ∷ []) start)
run-start-IsAlive_example = run-start-IsAlive plain (rejected (new_error "down") ∷ fired ∷ []) tt

run-replies_example :
    (run plain (replies (ok (pos 3) ∷ err (new_error "down") ∷ ok (pos 5) ∷ [])) start).notices
    ≡ map (seen plain.on_error) (ok (pos 3) ∷ err (new_error "down") ∷ ok (pos 5) ∷ [])
run-replies_example =
    run-replies plain (ok (pos 3) ∷ err (new_error "down") ∷ ok (pos 5) ∷ []) (λ a. (refl, refl)) tt
