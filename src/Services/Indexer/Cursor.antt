-- ===== src/Services/Indexer/Cursor.antt =====
-- Proofs about the cursor of services/indexer/src/index.js: which events are put into the queue.
use Prim.Native.Nat.{ℕ, ◌+◌, ◌≤◌, ◌<◌}
use mathlib.Core.Path.{subst}
use paystream_contracts.Prelude.{
  ◌≡◌, refl, ap, sym, ◌∙◌, arith, Bool, true, false, List, [], ◌∷◌, ◌++◌, some, ltb, leb, ◌&&◌,
  keep, Bool-cases, inl, inr, append-nil, map,
}
use paystream_contracts.Services.Indexer.{
  Job, Reply, events, failed, State, start_ledger, queue_all, take_events, index_events,
}

-- The events of a chain from one ledger to another, both included
abbrev pub between : ℕ → ℕ → List Job → List Job
between a b chain = keep (λ job. leb a job.ledger && leb job.ledger b) chain

-- The ledgers of a chain are in order from `a` on.
abbrev pub IsChain : ℕ → List Job → Type 0
IsChain a [] = Unit
IsChain a (job ∷ rest) = (a ≤ job.ledger) × IsChain job.ledger rest

-- Every answer is complete: the events of the chain from the ledger that was asked for up to the
-- latest ledger, which it says.
pub data CompleteReply : Type 0 where
  complete : (latest_ledger : ℕ) → CompleteReply
  unavailable : CompleteReply

-- The answer about the raw events of a chain, with what they decode to
abbrev pub reply : {R : Type 0} → (R → Job) → List R → CompleteReply → ℕ → Reply R
reply decode raws (complete latest) from =
    events (keep (λ raw. leb from (decode raw).ledger && leb (decode raw).ledger latest) raws)
      (some latest)
reply decode raws unavailable from = failed

unfoldable pub run : {R : Type 0} → (R → Job) → List R → List CompleteReply → State → State
run decode raws [] s = s
run decode raws (r ∷ rs) s =
    run decode raws rs (index_events (λ raw. some (decode raw)) (reply decode raws r) s)

map-keep :
    {R : Type 0} (decode : R → Job) (p : Job → Bool) (raws : List R)
    → map decode (keep (λ raw. p (decode raw)) raws) ≡ keep p (map decode raws)
map-keep decode p [] = refl
map-keep decode p (raw ∷ raws) = elim (Bool-cases (p (decode raw))) [
  | inl yes_ ↦ rw yes_ (ap (λ jobs. decode raw ∷ jobs) (map-keep decode p raws))
  | inr no_ ↦ rw no_ (map-keep decode p raws)
]

between_none : (a b : ℕ) (chain : List Job) → b < a → between a b chain ≡ []
between_none a b [] h = refl
between_none a b (job ∷ rest) h = ground (arith, h, between_none a b rest h)

between_later : (a b c : ℕ) (chain : List Job) → IsChain c chain → b < c → between a b chain ≡ []
between_later a b c [] h later = refl
between_later a b c (job ∷ rest) (low, h) later =
    ground (arith, low, later, between_later a b job.ledger rest h (omega (arith, low, later)))

-- In a chain, the events of two neighbouring stretches follow each other.
between-append :
    (a b c t : ℕ) (chain : List Job)
    → IsChain t chain
    → a ≤ b + 1
    → b ≤ c
    → between a b chain ++ between (b + 1) c chain ≡ between a c chain
between-append a b c t [] h ab bc = refl
between-append a b c t (job ∷ rest) (low, h) ab bc =
    let others = between-append a b c job.ledger rest h ab bc in
    elim (Bool-cases (leb job.ledger b)) [
      | inl early ↦
          let in_all : leb job.ledger c ≡ true = ground (arith, early, bc) in
          let not_late : leb (b + 1) job.ledger ≡ false = ground (arith, early) in
          elim (Bool-cases (leb a job.ledger)) [
            | inl after ↦ rw (early, in_all, not_late, after) (ap (λ jobs. job ∷ jobs) others)
            | inr before ↦ rw (early, in_all, not_late, before) others
          ]
      | inr late ↦
          let after : leb a job.ledger ≡ true = ground (arith, late, ab) in
          let after_b : leb (b + 1) job.ledger ≡ true = ground (arith, late) in
          let none_early = between_later a b job.ledger rest h (ground (arith, late)) in
          elim (Bool-cases (leb job.ledger c)) [
            | inl inside ↦
                rw (late, after, after_b, inside, none_early)
                  (ap (λ jobs. job ∷ jobs)
                    (subst (λ xs. xs ++ between (b + 1) c rest ≡ between a c rest) none_early
                      others))
            | inr outside ↦ rw (late, after, after_b, outside) others
          ]
    ]

-- The queue holds the events up to the cursor, in order and each once.
abbrev pub IsIndexed : List Job → State → Type 0
IsIndexed chain s = s.jobs ≡ between 1 s.last_ledger chain

start_lem : (n : ℕ) → start_ledger n ≡ n + 1
unfolding start_ledger
start_lem n = ground arith

take-IsIndexed :
    (chain : List Job) (t latest : ℕ) (s : State)
    → IsChain t chain
    → IsIndexed chain s
    → IsIndexed chain
        (take_events (between (start_ledger s.last_ledger) latest chain) (some latest) s)
unfolding take_events
take-IsIndexed chain t latest s ordered h =
    let from = start_lem s.last_ledger in
    elim (Bool-cases (ltb s.last_ledger latest)) [
      | inl ahead ↦
          let joined =
            between-append 1 s.last_ledger latest t chain ordered (omega arith)
              (ground (arith, ahead)) in
          rw (ahead, from, h) joined
      | inr behind ↦
          let nothing_new =
            between_none (s.last_ledger + 1) latest chain (ground (arith, behind)) in
          rw (behind, from, nothing_new) (append-nil s.jobs ∙ h)
    ]

-- If every event can be decoded, the loop adds the jobs of all.
queue_all_lem :
    {R : Type 0} (decode : R → Job) (raws : List R)
    → queue_all (λ raw. some (decode raw)) raws ≡ (map decode raws, true)
unfolding queue_all
queue_all_lem decode [] = refl
queue_all_lem decode (raw ∷ rest) = rw (queue_all_lem decode rest, queue_all) refl

index-IsIndexed :
    {R : Type 0} (decode : R → Job) (raws : List R) (t : ℕ) (r : CompleteReply) (s : State)
    → IsChain t (map decode raws)
    → IsIndexed (map decode raws) s
    → IsIndexed (map decode raws) (index_events (λ raw. some (decode raw)) (reply decode raws r) s)
unfolding index_events
index-IsIndexed decode raws t unavailable s ordered h = h
index-IsIndexed decode raws t (complete latest) s ordered h =
    let from = start_ledger s.last_ledger in
    let asked = keep (λ raw. leb from (decode raw).ledger && leb (decode raw).ledger latest) raws in
    rw (queue_all_lem decode asked) (
      subst (λ found. IsIndexed (map decode raws) (take_events found (some latest) s))
        (sym (map-keep decode (λ job. leb from job.ledger && leb job.ledger latest) raws))
        (take-IsIndexed (map decode raws) t latest s ordered h))

-- Of a chain whose ledgers are in order and whose events can all be decoded and queued: after any polls, each answered completely or not at all,
-- the queue holds exactly the events from ledger 1 up to the cursor, in order and each once, if it
-- did before.
pub run-IsIndexed :
    {R : Type 0} (decode : R → Job) (raws : List R) (t : ℕ) (rs : List CompleteReply) (s : State)
    → IsChain t (map decode raws)
    → IsIndexed (map decode raws) s
    → IsIndexed (map decode raws) (run decode raws rs s)
unfolding run
run-IsIndexed decode raws t [] s ordered h = h
run-IsIndexed decode raws t (r ∷ rs) s ordered h =
    run-IsIndexed decode raws t rs (index_events (λ raw. some (decode raw)) (reply decode raws r) s)
      ordered (index-IsIndexed decode raws t r s ordered h)
