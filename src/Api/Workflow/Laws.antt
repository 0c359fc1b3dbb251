-- ===== src/Api/Workflow/Laws.antt =====
-- Proofs about api/services/streamWorkflowService.js.
use Prim.Native.Nat.{ℕ, suc, ◌≤◌, ◌<◌}
use Prim.Native.String.{String}
use text.Mathlib.Text.{◌==◌}
use mathlib.Core.Path.{subst}
use paystream_contracts.Prelude.{
  any-append, ◌≡◌, refl, arith, Bool, true, false, List, [], ◌∷◌, ◌++◌, Option, some, ◌⊎◌, inl, inr,
  Bool-cases, Option-cases, any, leb,
}
use paystream_contracts.Prelude.Dict.{lookup, insert}
use paystream_contracts.Api.Workflow.{
  Status, pending, approved, rejected, overridden, Entry, approval, rejection, override, Clock,
  Metadata, Request, Requests, new_request, create_approval_request, approved_count, is_approval,
  approve, reject, override_with, if_pending, update, approve_approval_request,
  reject_approval_request, override_approval_request,
}

-- The calls of the service
pub data Call : Type 0 where
  creating : Option String → String → List String → Option ℕ → Metadata → Clock → Call
  approving : String → String → Option String → Clock → Call
  rejecting : String → String → String → Clock → Call
  overriding : String → String → String → Clock → Call

unfoldable pub step : Call → Requests → Requests
step (creating title requested_by approvers required metadata clock) s =
    (create_approval_request title requested_by approvers required metadata clock s).1
step (approving id approver given clock) s = (approve_approval_request id approver given clock s).1
step (rejecting id approver reason clock) s = (reject_approval_request id approver reason clock s).1
step (overriding id actor reason clock) s = (override_approval_request id actor reason clock s).1

unfoldable pub run : List Call → Requests → Requests
run [] s = s
run (c ∷ cs) s = run cs (step c s)

abbrev is_rejection : Entry → Bool
is_rejection e = elim e.action [ rejection ↦ true | _ ↦ false ]

abbrev is_override : Entry → Bool
is_override e = elim e.action [ override ↦ true | _ ↦ false ]

-- A status is what the audit trail says: pending while the approvals are too few, approved with
-- enough of them, and rejected or overridden after such an entry.
abbrev pub IsSoundAs : Status → ℕ → List Entry → Type 0
IsSoundAs pending required trail = (approved_count trail ≡ 0) ⊎ (approved_count trail < required)
IsSoundAs approved required trail = (required ≤ approved_count trail) × (0 < approved_count trail)
IsSoundAs rejected required trail = any is_rejection trail ≡ true
IsSoundAs overridden required trail = any is_override trail ≡ true

abbrev pub IsSound : Request → Type 0
IsSound r = IsSoundAs r.status r.required_approvals r.audit_trail

any_added :
    (p : Entry → Bool) (trail : List Entry) (e : Entry)
    → p e ≡ true
    → any p (trail ++ e ∷ []) ≡ true
any_added p trail e h = ground (arith, h, any-append p trail e)

pub count_added :
    (trail : List Entry) (e : Entry)
    → is_approval e ≡ true
    → approved_count (trail ++ e ∷ []) ≡ suc (approved_count trail)
unfolding approved_count
count_added [] e h = ground (arith, h)
count_added (x ∷ trail) e h = ground (arith, count_added trail e h)

-- What holds of a request that is changed while it is pending
pub pending_only :
    (Q : Request → Type 0) (f : Request → Request) (r : Request)
    → (r.status ≡ pending → Q (f r))
    → Q r
    → Q (if_pending f r)
unfolding if_pending
pending_only Q f r changed same = go r.status changed
  where
    go :
        (st : Status)
        → (st ≡ pending → Q (f r))
        → Q (elim st as (λ _. Request) [ pending ↦ f r | _ ↦ r ])
    go pending k = k refl
    go approved k = same
    go rejected k = same
    go overridden k = same

approve-IsSound :
    (approver note : String) (clock : Clock) (r : Request)
    → r.status ≡ pending
    → IsSound (approve approver note clock r)
unfolding approve
approve-IsSound approver note clock r open_ =
    let trail = (approve approver note clock r).audit_trail in
    let new : Entry = record {
      actor = approver;
      action = approval;
      timestamp = clock.iso;
      note = note;
    } in
    let counted = count_added r.audit_trail new refl in
    elim (Bool-cases (leb r.required_approvals (approved_count trail))) [
      | inl enough ↦ rw (enough, approve) (ground (arith, enough), ground (arith, counted))
      | inr too_few ↦ rw (too_few, open_, approve) (inr (ground (arith, too_few)))
    ]

reject-IsSound :
    (approver reason : String) (clock : Clock) (r : Request)
    → IsSound (reject approver reason clock r)
unfolding reject
reject-IsSound approver reason clock r = any_added is_rejection r.audit_trail _ refl

override-IsSound :
    (actor reason : String) (clock : Clock) (r : Request)
    → IsSound (override_with actor reason clock r)
unfolding override_with
override-IsSound actor reason clock r = any_added is_override r.audit_trail _ refl

create-IsSound :
    (title : Option String) (by : String) (approvers : List String) (n : ℕ) (metadata : Metadata)
    (clock : Clock)
    → IsSound (new_request title by approvers n metadata clock)
unfolding approved_count
create-IsSound title by approvers n metadata clock = inl refl

-- What holds of every request that is stored
abbrev pub Stored : (Request → Type 0) → Requests → Type 0
Stored Q [] = Unit
Stored Q (entry ∷ rest) = Q entry.1 × Stored Q rest

Stored-insert :
    (Q : Request → Type 0) (id : String) (r : Request) (s : Requests)
    → Q r
    → Stored Q s
    → Stored Q (insert id r s)
unfolding insert
Stored-insert Q id r [] q h = (q, tt)
Stored-insert Q id r (entry ∷ rest) q (one, others) = elim (Bool-cases (entry.0 == id)) [
  | inl same ↦ rw same (q, others)
  | inr different ↦ rw different (one, Stored-insert Q id r rest q others)
]

Stored-lookup :
    (Q : Request → Type 0) (id : String) (r : Request) (s : Requests)
    → Stored Q s
    → lookup id s ≡ some r
    → Q r
unfolding lookup
Stored-lookup Q id r [] h e = let impossible : ⊥ = ground (arith, e) in elim impossible [ ]
Stored-lookup Q id r (entry ∷ rest) (one, others) e = elim (Bool-cases (entry.0 == id)) [
  | inl same ↦ let this : entry.1 ≡ r = ground (arith, e, same) in subst Q this one
  | inr different ↦ Stored-lookup Q id r rest others (ground (arith, e, different))
]

Stored-update :
    (Q : Request → Type 0) (id : String) (f : Request → Request) (s : Requests)
    → ((r : Request) → Q r → Q (f r))
    → Stored Q s
    → Stored Q (update id f s).1
unfolding update
Stored-update Q id f s keeps h = elim (Option-cases (lookup id s)) [
  | inl absent ↦ rw (absent, update) h
  | inr (r, found) ↦
      rw (found, update) (Stored-insert Q id (f r) s (keeps r (Stored-lookup Q id r s h found)) h)
]

step-IsSound : (c : Call) (s : Requests) → Stored IsSound s → Stored IsSound (step c s)
unfolding step create_approval_request approve_approval_request reject_approval_request
    override_approval_request
step-IsSound (creating title by approvers required metadata clock) s h =
    Stored-insert IsSound _ _ s (create-IsSound title by approvers _ metadata clock) h
step-IsSound (approving id approver given clock) s h =
    Stored-update IsSound id _ s
      (λ r sound. pending_only IsSound _ r (approve-IsSound approver _ clock r) sound) h
step-IsSound (rejecting id approver reason clock) s h =
    Stored-update IsSound id _ s
      (λ r sound. pending_only IsSound _ r (λ _. reject-IsSound approver reason clock r) sound) h
step-IsSound (overriding id actor reason clock) s h =
    Stored-update IsSound id _ s (λ r sound. override-IsSound actor reason clock r) h

-- After any calls on a new service the status of every request is what its audit trail says: it is
-- pending only while the approvals are too few (or there is none), approved only with at least one
-- and as many as are required, and rejected or overridden only after such an entry.
pub run-IsSound :
    (cs : List Call) (id : String) (r : Request) → lookup id (run cs []) ≡ some r → IsSound r
unfolding run
run-IsSound cs id r found = Stored-lookup IsSound id r (run cs []) (all cs [] tt) found
  where
    all : (ds : List Call) (s : Requests) → Stored IsSound s → Stored IsSound (run ds s)
    all [] s h = h
    all (d ∷ ds) s h = all ds (step d s) (step-IsSound d s h)
