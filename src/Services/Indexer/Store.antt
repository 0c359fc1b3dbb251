-- ===== src/Services/Indexer/Store.antt =====
-- Proofs about the worker of services/indexer/src/index.js: jobs that run again, and in any order.
use Prim.Native.Nat.{ℕ}
use paystream_contracts.Prelude.{
  any-append, ◌≡◌, refl, arith, eq_refl, Bool, true, List, [], ◌∷◌, some, any,
}
use paystream_contracts.Services.Indexer.{Job, is_conflict, process}

-- The rows after the jobs have run, in this order
unfoldable pub process_all : List Job → List Job → List Job
process_all [] rows = rows
process_all (job ∷ jobs) rows = process_all jobs (process job rows)

-- Some row is about the same event as the job.
abbrev pub is_stored : List Job → Job → Bool
is_stored rows job = any (is_conflict job) rows

-- The job is about a stream, so that its row can conflict.
abbrev pub IsAboutStream : Job → Type 0
IsAboutStream job = (id : ℕ) × (job.stream_id ≡ some id)

conflict_self : (job : Job) → IsAboutStream job → is_conflict job job ≡ true
unfolding is_conflict
conflict_self job (id, e) = ground (arith, eq_refl job.tx_hash, eq_refl job.event_type, e)

-- What is stored stays stored.
process-kept :
    (job other : Job) (rows : List Job)
    → is_stored rows other ≡ true
    → is_stored (process job rows) other ≡ true
unfolding process
process-kept job other rows h = ground (arith, h, any-append (is_conflict other) rows job)

process_all-kept :
    (jobs : List Job) (other : Job) (rows : List Job)
    → is_stored rows other ≡ true
    → is_stored (process_all jobs rows) other ≡ true
unfolding process_all
process_all-kept [] other rows h = h
process_all-kept (job ∷ jobs) other rows h =
    process_all-kept jobs other (process job rows) (process-kept job other rows h)

process-stored :
    (job : Job) (rows : List Job) → IsAboutStream job → is_stored (process job rows) job ≡ true
unfolding process
process-stored job rows about =
    ground (arith, conflict_self job about, any-append (is_conflict job) rows job)

-- A job about a stream that has run once changes nothing when it runs again, after whatever jobs
-- have run in between.
pub process_again :
    (job : Job) (jobs : List Job) (rows : List Job)
    → IsAboutStream job
    → process job (process_all jobs (process job rows)) ≡ process_all jobs (process job rows)
unfolding process
process_again job jobs rows about =
    let there = process_all-kept jobs job (process job rows) (process-stored job rows about) in
    rw there refl
