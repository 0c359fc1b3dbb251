-- ===== src/Services/Tests/Storage.antt =====
-- Tests of the snapshots and the migrations, and the theorems at concrete inputs.
use Prim.Native.Nat.{ℕ}
use Prim.Native.Nat.{Ordering}
use Prim.Native.String as Native
use Prim.Native.String.{String}
use paystream_contracts.Prelude.{◌≡◌, Bool, true, false, List, [], ◌∷◌, none, some, arith}
use paystream_contracts.Prelude.Dict.{lookup}
use paystream_contracts.Js.{ok}
use paystream_contracts.Services.Snapshot as Snapshot
use paystream_contracts.Services.Snapshot.{
  Options, memory_storage, memory_storage-IsStorage, stored, checkpoint, query_at, compact, key_of,
}
use paystream_contracts.Services.Snapshot.Refines.{Command, periodic, forced, Log}
use paystream_contracts.Services.Snapshot.Queries.{IsPruned, checkpoint-IsPruned}
use paystream_contracts.Services.Migration as Migrations
use paystream_contracts.Services.Migration.Runner as Runs
use paystream_contracts.Services.Migration.{Migration, State}
use paystream_contracts.Services.Migration.Runner.{Runner, migrate, rollback, pending, to_rollback}
use paystream_contracts.Services.Migration.Rollback.{pending-rollback}

abbrev stream : Snapshot.Stream
stream = record {
  id = "7";
  status = "Active";
  deposit = 100;
  withdrawn = 0;
  rate_per_second = 1;
  last_withdraw_time = 0;
}

abbrev options : Options
options = record { interval_secs = 10; retention_limit = 2 }

-- The third comes too early, and the last one pushes out the first.
abbrev commands : List Command
commands = periodic stream 100 ∷ forced stream 105 ∷ periodic stream 110 ∷ periodic stream 115 ∷ []

abbrev empty_log : Log
empty_log id = []

checkpoint-IsPruned_example :
    IsPruned options (stored memory_storage "7" (checkpoint memory_storage options stream 100 []).1)
unfolding stored memory_storage lookup
checkpoint-IsPruned_example =
    checkpoint-IsPruned memory_storage memory_storage-IsStorage options stream 100 [] (omega arith)
      (λ id. (tt, omega arith)) "7"

-- A migration of numbers that adds `n` and takes it away again
abbrev adding : String → ℕ → Migration ℕ
adding version n = record {
  version = version;
  description = "add";
  up = λ xs. ok (n ∷ xs);
  down = some (λ xs. ok xs);
  validate = none;
}

abbrev text_before : String → String → Bool
text_before a b = elim (Native.compare a b) [ Ordering.lt ↦ true | _ ↦ false ]

abbrev runner : Runner ℕ
runner = record {
  has_db = true;
  migrations = ("002", adding "002" 2) ∷ ("001", adding "001" 1) ∷ [];
  before = text_before;
}

abbrev new_state : State
new_state = record { table = none; lines = []; notices = [] }

abbrev migrated_state : State
migrated_state = (migrate runner (5 ∷ []) new_state).1

-- Both migrations are done, and both are undone and count all the same.
pending-rollback_example :
    (pending runner (rollback runner (5 ∷ []) "000" migrated_state).1
      ≡ pending runner migrated_state)
    × (to_rollback runner "000" (rollback runner (5 ∷ []) "000" migrated_state).1
        ≡ to_rollback runner "000" migrated_state)
pending-rollback_example = pending-rollback runner (5 ∷ []) "000" migrated_state
