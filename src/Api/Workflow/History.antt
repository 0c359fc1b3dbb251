-- ===== src/Api/Workflow/History.antt =====
-- Proofs about api/services/streamWorkflowService.js: what a request can become.
use Prim.Native.Nat.{ℕ, suc, zero, ◌+◌}
use Prim.Native.String.{String}
use text.Mathlib.Text.{◌==◌}
use mathlib.Core.Path.{subst}
use paystream_contracts.Prelude.{
  ◌≡◌, refl, ap, sym, ◌∙◌, arith, eq_iff, eq_refl, false, List, [], ◌∷◌, ◌++◌, Option, some,
  if◌then◌else◌, ◌⊎◌, inl, inr, Bool-cases, Option-cases, All, leb, append_assoc, append-nil,
}
use paystream_contracts.Prelude.Dict.{lookup, lookup-insert}
use paystream_contracts.Js.{◌<>◌}
use paystream_contracts.Api.Workflow.{
  or_approved, Status, pending, approved, rejected, overridden, Entry, approval, Clock, Request,
  Requests, create_approval_request, approved_count, approve, reject, override_with, if_pending,
  update, approve_approval_request, reject_approval_request, override_approval_request,
}
use paystream_contracts.Api.Workflow.Laws.{
  Call, creating, approving, rejecting, overriding, step, run, pending_only, count_added,
}

-- A request that is not pending changes its status only to overridden.
abbrev pub Follows : Status → Status → Type 0
Follows before after = (before ≡ after) ⊎ (before ≡ pending) ⊎ (after ≡ overridden)

-- The audit trail was only added to, and the status follows the earlier one.
abbrev pub IsLater : Request → Request → Type 0
IsLater r later =
    ((tail : List Entry) × (later.audit_trail ≡ r.audit_trail ++ tail))
    × Follows r.status later.status

Follows-trans : (a b c : Status) → Follows a b → Follows b c → Follows a c
Follows-trans a b c h k = ground (arith, h, k)

IsLater-refl : (r : Request) → IsLater r r
IsLater-refl r = (([], sym (append-nil r.audit_trail)), inl refl)

IsLater-trans : (r s t : Request) → IsLater r s → IsLater s t → IsLater r t
IsLater-trans r s t ((xs, e), h) ((ys, f), k) = (
  (xs ++ ys, f ∙ ap (λ trail. trail ++ ys) e ∙ append_assoc r.audit_trail xs ys),
  Follows-trans r.status s.status t.status h k,
)

approve-IsLater :
    (approver note : String) (clock : Clock) (r : Request)
    → IsLater r (if_pending (approve approver note clock) r)
unfolding approve
approve-IsLater approver note clock r =
    pending_only (IsLater r) (approve approver note clock) r (λ open_. ((_, refl), inr (inl open_)))
      (IsLater-refl r)

reject-IsLater :
    (approver reason : String) (clock : Clock) (r : Request)
    → IsLater r (if_pending (reject approver reason clock) r)
unfolding reject
reject-IsLater approver reason clock r =
    pending_only (IsLater r) (reject approver reason clock) r
      (λ open_. ((_, refl), inr (inl open_))) (IsLater-refl r)

override-IsLater :
    (actor reason : String) (clock : Clock) (r : Request)
    → IsLater r (override_with actor reason clock r)
unfolding override_with
override-IsLater actor reason clock r = ((_, refl), inr (inr refl))

-- The request is stored under the id, later than `r`.
abbrev pub IsStoredLater : String → Request → Requests → Type 0
IsStoredLater id r s = (later : Request) × (lookup id s ≡ some later) × IsLater r later

updated :
    (id : String) (f : Request → Request) (s : Requests) (r : Request)
    → lookup id s ≡ some r
    → lookup id (update id f s).1 ≡ some (f r)
unfolding update
updated id f s r found =
    rw (found, update) (ground (arith, lookup-insert id id (f r) s, eq_refl id))

update-IsLater :
    (id other : String) (f : Request → Request) (s : Requests) (r : Request)
    → ((q : Request) → IsLater q (f q))
    → lookup id s ≡ some r
    → IsStoredLater id r (update other f s).1
unfolding update
update-IsLater id other f s r later found = elim (Option-cases (lookup other s)) [
  | inl absent ↦ rw (absent, update) (r, found, IsLater-refl r)
  | inr (q, there) ↦ elim (Bool-cases (other == id)) [
    | inl same ↦
        let this : other ≡ id = (eq_iff other id).0 same in
        subst (λ k. IsStoredLater id r (update k f s).1) (sym this)
          (f r, updated id f s r found, later r)
    | inr different ↦
        rw (there, update)
          (r, ground (arith, found, different, lookup-insert other id (f q) s), IsLater-refl r)
  ]
]

-- The call does not create a request with the id.
abbrev pub IsElsewhere : String → Call → Type 0
IsElsewhere id (creating title by approvers required metadata clock) =
    (("approval-" <> clock.millis) == id) ≡ false
IsElsewhere id _ = Unit

step-IsLater :
    (id : String) (c : Call) (s : Requests) (r : Request)
    → IsElsewhere id c
    → lookup id s ≡ some r
    → IsStoredLater id r (step c s)
unfolding step create_approval_request approve_approval_request reject_approval_request
    override_approval_request
step-IsLater id (creating title by approvers required metadata clock) s r elsewhere found = (
  r,
  ground (
    arith,
    found,
    elsewhere,
    lookup-insert ("approval-" <> clock.millis) id
        (create_approval_request title by approvers required metadata clock s).0 s,
  ),
  IsLater-refl r,
)
step-IsLater id (approving other approver given clock) s r elsewhere found =
    update-IsLater id other _ s r (λ q. approve-IsLater approver _ clock q) found
step-IsLater id (rejecting other approver reason clock) s r elsewhere found =
    update-IsLater id other _ s r (λ q. reject-IsLater approver reason clock q) found
step-IsLater id (overriding other actor reason clock) s r elsewhere found =
    update-IsLater id other _ s r (λ q. override-IsLater actor reason clock q) found

-- If no call creates a request with the same id again, a stored request stays stored; its audit
-- trail is only added to, and once it is not pending, its status changes only to overridden.
pub run-IsLater :
    (id : String) (cs : List Call) (s : Requests) (r : Request)
    → All (IsElsewhere id) cs
    → lookup id s ≡ some r
    → IsStoredLater id r (run cs s)
unfolding run
run-IsLater id [] s r elsewhere found = (r, found, IsLater-refl r)
run-IsLater id (c ∷ cs) s r (one, others) found =
    let (q, there, first) = step-IsLater id c s r one found in
    let (end_, last, rest) = run-IsLater id cs (step c s) q others there in
    (end_, last, IsLater-trans r q end_ first rest)

abbrev pub repeated : ℕ → Call → List Call
repeated zero c = []
repeated (suc n) c = c ∷ repeated n c

opened : (f : Request → Request) (r : Request) → r.status ≡ pending → if_pending f r ≡ f r
unfolding if_pending
opened f r open_ = go r.status open_
  where
    go : (st : Status) → st ≡ pending → elim st as (λ _. Request) [ pending ↦ f r | _ ↦ r ] ≡ f r
    go pending e = refl
    go approved e = let impossible : ⊥ = ground (arith, e) in elim impossible [ ]
    go rejected e = let impossible : ⊥ = ground (arith, e) in elim impossible [ ]
    go overridden e = let impossible : ⊥ = ground (arith, e) in elim impossible [ ]

approve_lem :
    (actor note : String) (clock : Clock) (r : Request)
    → r.status ≡ pending
    → (approved_count (approve actor note clock r).audit_trail ≡ suc (approved_count r.audit_trail))
      × ((approve actor note clock r).required_approvals ≡ r.required_approvals)
      × ((approve actor note clock r).status ≡ (
          if leb r.required_approvals (suc (approved_count r.audit_trail))
          then approved
          else pending))
unfolding approve
approve_lem actor note clock r open_ =
    let new : Entry = record {
      actor = actor;
      action = approval;
      timestamp = clock.iso;
      note = note;
    } in
    let counted = count_added r.audit_trail new refl in
    (counted, refl, rw (counted, open_, approve) refl)

-- The approvals are counted and not the approvers: as many approvals as are missing by one and the
-- same actor, whether or not the request lists them, get a pending request approved.
pub run_alone :
    (n : ℕ) (id actor : String) (given : Option String) (clock : Clock) (s : Requests) (r : Request)
    → lookup id s ≡ some r
    → r.status ≡ pending
    → approved_count r.audit_trail + suc n ≡ r.required_approvals
    → (end_ : Request) × (lookup id (run (repeated (suc n) (approving id actor given clock)) s)
        ≡ some end_)
      × (end_.status ≡ approved)
unfolding run step approve_approval_request
run_alone zero id actor given clock s r found open_ missing =
    let f = approve actor (or_approved given) clock in
    let (_, _, decided) = approve_lem actor (or_approved given) clock r open_ in
    (
      f r,
      updated id (if_pending f) s r found ∙ ap some (opened f r open_),
      ground (arith, decided, missing),
    )
run_alone (suc n) id actor given clock s r found open_ missing =
    let f = approve actor (or_approved given) clock in
    let (counted, required, decided) = approve_lem actor (or_approved given) clock r open_ in
    run_alone n id actor given clock (update id (if_pending f) s).1 (f r)
      (updated id (if_pending f) s r found ∙ ap some (opened f r open_))
      (ground (arith, decided, missing)) (ground (arith, counted, required, missing))
