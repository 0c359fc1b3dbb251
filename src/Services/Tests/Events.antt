-- ===== src/Services/Tests/Events.antt =====
-- Tests of the indexer, and the theorems at concrete inputs.
use Prim.Native.Nat.{ℕ, ◌+◌}
use paystream_contracts.Prelude.{
  ◌≡◌, refl, [], ◌∷◌, none, some, arith, map, Option, leb, if◌then◌else◌,
}
use paystream_contracts.Services.Indexer.{
  Job, Reply, queue_all, index_events, start_ledger, events, failed, State, process, is_conflict,
}
use paystream_contracts.Services.Indexer.Cursor.{
  complete, unavailable, run, IsIndexed, run-IsIndexed,
}
use paystream_contracts.Services.Indexer.Skipped.{polls, IsOnward, polls-IsOnward}
use paystream_contracts.Services.Indexer.Store.{process_all, process_again}

-- An event of a stream at a ledger
abbrev at_ledger : ℕ → Job
at_ledger n = record {
  ledger = n;
  tx_hash = "tx";
  event_type = "withdraw";
  stream_id = some 7;
  content = "";
}

abbrev new_state : State
new_state = record { last_ledger = 0; jobs = [] }

run-IsIndexed_example :
    IsIndexed
      (map at_ledger (3 ∷ 5 ∷ 9 ∷ []))
      (run at_ledger (3 ∷ 5 ∷ 9 ∷ []) (complete 4 ∷ unavailable ∷ complete 8 ∷ []) new_state)
run-IsIndexed_example =
    run-IsIndexed at_ledger (3 ∷ 5 ∷ 9 ∷ []) 1 (complete 4 ∷ unavailable ∷ complete 8 ∷ [])
      new_state (omega arith, (omega arith, (omega arith, tt))) refl

-- An answer that begins at the ledger that was asked for
abbrev next_page : ℕ → Reply ℕ
next_page from = events (from ∷ []) (some (from + 5))

-- The event of ledger 5 was left out of the page after which the cursor is 8.
abbrev behind : State
behind = record { last_ledger = 8; jobs = at_ledger 3 ∷ [] }

abbrev decode : ℕ → Option Job
decode n = some (at_ledger n)

-- An event that cannot be decoded ends the poll: the job of the one before is queued, and the cursor stays.
undecodable :
    index_events
      (λ n. if leb 10 n then none else decode n)
      (λ _. events (9 ∷ 10 ∷ []) (some 12))
      behind
    ≡ record behind { jobs = at_ledger 3 ∷ at_ledger 9 ∷ [] }
unfolding index_events queue_all start_ledger
undecodable = refl

polls-IsOnward_example :
    IsOnward behind (polls decode (next_page ∷ (λ from. failed) ∷ next_page ∷ []) behind)
unfolding queue_all
polls-IsOnward_example =
    polls-IsOnward decode (next_page ∷ (λ from. failed) ∷ next_page ∷ []) behind
      ((λ from. (omega arith, tt)), ((λ from. tt), ((λ from. (omega arith, tt)), tt)))

process_again_example :
    process (at_ledger 3) (process_all (at_ledger 5 ∷ []) (process (at_ledger 3) []))
    ≡ process_all (at_ledger 5 ∷ []) (process (at_ledger 3) [])
process_again_example = process_again (at_ledger 3) (at_ledger 5 ∷ []) [] (7, refl)

-- An event of the contract, without a stream, is stored again by a job that runs again.
abbrev paused_contract : Job
paused_contract = record (at_ledger 4) { event_type = "pause"; stream_id = none }

stored_twice :
    process paused_contract (process paused_contract []) ≡ paused_contract ∷ paused_contract ∷ []
unfolding process is_conflict
stored_twice = refl
