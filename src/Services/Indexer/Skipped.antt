-- ===== src/Services/Indexer/Skipped.antt =====
-- Proofs about the cursor of services/indexer/src/index.js: what the queue never gets.
use Prim.Native.Nat.{ℕ, ◌+◌, ◌≤◌, ◌<◌}
use paystream_contracts.Prelude.{
  ◌≡◌, refl, ap, sym, ◌∙◌, arith, Option, Bool-cases, inl, inr, List, [], ◌∷◌, ◌++◌, All,
  All-append, All-weaken, append-nil, append_assoc,
}
use paystream_contracts.Services.Indexer.{
  Job, Reply, events, too_old, failed, State, start_ledger, queue_all, take_events, index_events,
}

unfoldable pub polls : {R : Type 0} → (R → Option Job) → List (ℕ → Reply R) → State → State
polls decode [] s = s
polls decode (get_events ∷ rest) s = polls decode rest (index_events decode get_events s)

-- The answer holds no event before the ledger that was asked for, and where it is that this ledger
-- is too old, the latest ledger is not before the last one that is known.
abbrev pub IsFrom : {R : Type 0} → (R → Option Job) → ℕ → Reply R → Type 0
IsFrom decode from (events raws latest) = All (λ job. from ≤ job.ledger) (queue_all decode raws).0
IsFrom decode from (too_old sequence) = from ≤ sequence + 1
IsFrom decode from failed = Unit

-- The state after has more jobs, all of them after the cursor before, which has not gone back.
abbrev pub IsOnward : State → State → Type 0
IsOnward s later =
    ((new : List Job) × (later.jobs ≡ s.jobs ++ new) × All (λ job. s.last_ledger < job.ledger) new)
    × (s.last_ledger ≤ later.last_ledger)

IsOnward-refl : (s : State) → IsOnward s s
IsOnward-refl s = (([], sym (append-nil s.jobs), tt), omega arith)

IsOnward-trans : (s t u : State) → IsOnward s t → IsOnward t u → IsOnward s u
IsOnward-trans s t u ((xs, e, old), st) ((ys, f, new), tu) = (
  (
    xs ++ ys,
    f ∙ ap (λ jobs. jobs ++ ys) e ∙ append_assoc s.jobs xs ys,
    All-append (λ job. s.last_ledger < job.ledger) xs ys old
        (All-weaken (λ job. t.last_ledger < job.ledger) (λ job. s.last_ledger < job.ledger) ys
          (λ job later. omega (arith, later, st)) new),
  ),
  omega (arith, st, tu),
)

start_le : (n : ℕ) → n < start_ledger n
unfolding start_ledger
start_le n = ground arith

answered-IsOnward :
    {R : Type 0} (decode : R → Option Job) (s : State) (r : Reply R)
    → IsFrom decode (start_ledger s.last_ledger) r
    → IsOnward s (index_events decode (λ _. r) s)
unfolding index_events take_events
answered-IsOnward decode s (events raws latest) from = elim (Bool-cases (queue_all decode raws).1) [
  | inl whole ↦ rw (whole) (new_jobs, ground arith)
  | inr cut ↦ rw (cut) (new_jobs, omega arith)
]
  where
    new_jobs :
        (new : List Job) × (s.jobs ++ (queue_all decode raws).0 ≡ s.jobs ++ new)
        × All (λ job. s.last_ledger < job.ledger) new
    new_jobs = (
      (queue_all decode raws).0,
      refl,
      All-weaken (λ job. start_ledger s.last_ledger ≤ job.ledger)
          (λ job. s.last_ledger < job.ledger) (queue_all decode raws).0
          (λ job later. omega (arith, later, start_le s.last_ledger)) from,
    )
answered-IsOnward decode s (too_old sequence) from =
    (([], sym (append-nil s.jobs), tt), omega (arith, from, start_le s.last_ledger))
answered-IsOnward decode s failed from = IsOnward-refl s

-- The answers that are given, each to the ledger that is asked for then.
abbrev pub AreFrom : {R : Type 0} → (R → Option Job) → List (ℕ → Reply R) → Type 0
AreFrom decode gets = All (λ get_events. (from : ℕ) → IsFrom decode from (get_events from)) gets

-- If no answer holds an event before the ledger that was asked for, and none that says this ledger is
-- too old comes with a latest ledger before the cursor: later polls add to the queue only events
-- after the cursor, and never set it back, so an event up to the cursor that an answer left out is
-- not queued any more. An event may fail to be decoded or queued.
pub polls-IsOnward :
    {R : Type 0} (decode : R → Option Job) (gets : List (ℕ → Reply R)) (s : State)
    → AreFrom decode gets
    → IsOnward s (polls decode gets s)
unfolding polls index_events
polls-IsOnward decode [] s from = IsOnward-refl s
polls-IsOnward decode (get_events ∷ rest) s (one, others) =
    let next = index_events decode get_events s in
    let first : IsOnward s next =
      answered-IsOnward decode s (get_events (start_ledger s.last_ledger))
        (one (start_ledger s.last_ledger)) in
    IsOnward-trans s next (polls decode rest next) first (polls-IsOnward decode rest next others)
