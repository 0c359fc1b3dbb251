-- ===== src/Services/Indexer.antt =====
-- The event indexer of services/indexer/src/index.js, with its tables by the SQL of migrate.js
-- beside it: one poll of the network, the queue of jobs, and the worker that stores an event. The
-- decoding of an event is a parameter, which may throw, and the queries do not fail.
use Prim.Native.Nat.{ℕ, ◌+◌}
use Prim.Native.String.{String}
use text.Mathlib.Text.{◌==◌}
use paystream_contracts.Prelude.{
  Bool, true, false, List, [], ◌∷◌, ◌++◌, Option, none, some, ltb, leb, if◌then◌else◌, ◌&&◌,
}
use paystream_contracts.Prelude as Prelude
pub mod Store
pub mod Cursor
pub mod Skipped

-- The data of a job, which is also a row of `stream_events`
pub record Job : Type 0 where
  pub ledger : ℕ
  pub tx_hash : String
  pub event_type : String
  pub stream_id : Option ℕ
  pub content : String

-- What `getEvents` answers: its events with the latest ledger, if it says one, or an error; for
-- an error about `startLedger`, what `getLatestLedger` answers then
pub data Reply (R : Type 0) : Type 0 where
  events : List R → (latest_ledger : Option ℕ) → Reply R
  too_old : (sequence : ℕ) → Reply R
  failed : Reply R

-- `indexer_cursor` and the jobs that were added to the queue
pub record State : Type 0 where
  pub last_ledger : ℕ
  pub jobs : List Job

unfoldable pub start_ledger : ℕ → ℕ
start_ledger last_ledger = if ltb 0 last_ledger then last_ledger + 1 else 1

-- `if (ledger > maxLedger) maxLedger = ledger`
unfoldable pub max_ledger : ℕ → List Job → ℕ
max_ledger so_far [] = so_far
max_ledger so_far (job ∷ rest) =
    max_ledger (if ltb so_far job.ledger then job.ledger else so_far) rest

-- The end of a poll that was answered
unfoldable pub take_events : List Job → Option ℕ → State → State
take_events found latest_ledger s =
    let latest : ℕ = elim latest_ledger [ none ↦ max_ledger s.last_ledger found | some l ↦ l ] in
    record {
      last_ledger = if ltb s.last_ledger latest then latest else s.last_ledger;
      jobs = s.jobs ++ found;
    }

-- The loop over the events: the jobs it adds, and whether it comes to its end; it ends early where
-- the event cannot be decoded, or its job not be added.
unfoldable pub queue_all : {R : Type 0} → (R → Option Job) → List R → List Job × Bool
queue_all decode [] = ([], true)
queue_all decode (raw ∷ rest) =
    let later = queue_all decode rest in
    elim (decode raw) [ none ↦ ([], false) | some job ↦ (job ∷ later.0, later.1) ]

-- `indexEvents`, given what the network answers from a ledger on; `decode` makes the job of an
-- event, or is `none` where that or adding it throws.
unfoldable pub index_events : {R : Type 0} → (R → Option Job) → (ℕ → Reply R) → State → State
index_events decode get_events s = elim (get_events (start_ledger s.last_ledger)) [
  | events raws latest ↦
      let queued = queue_all decode raws in
      if queued.1 then take_events queued.0 latest s else record s { jobs = s.jobs ++ queued.0 }
  | too_old sequence ↦ record s { last_ledger = sequence }
  | failed ↦ s
]

-- Two rows conflict by UNIQUE (tx_hash, event_type, stream_id), where two NULLs differ.
abbrev pub same_stream : Option ℕ → Option ℕ → Bool
same_stream (some a) (some b) = Prelude.◌==◌ a b
same_stream _ _ = false

unfoldable pub is_conflict : Job → Job → Bool
is_conflict a b =
    a.tx_hash == b.tx_hash && a.event_type == b.event_type && same_stream a.stream_id b.stream_id

-- The worker: `INSERT ... ON CONFLICT DO NOTHING`
unfoldable pub process : Job → List Job → List Job
process job rows = if Prelude.any (is_conflict job) rows then rows else rows ++ job ∷ []
