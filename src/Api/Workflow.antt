-- ===== src/Api/Workflow.antt =====
-- The approval requests of api/services/streamWorkflowService.js. The texts of the clock are
-- arguments; `metadata` is its deadline, its note and the rest as a text.
use Prim.Native.Nat.{ℕ, suc}
use Prim.Native.String.{String}
use text.Mathlib.Text.{◌==◌}
use paystream_contracts.Prelude.{
  Bool, true, false, List, [], ◌∷◌, ◌++◌, Option, none, some, leb, if◌then◌else◌, length, keep, map,
}
use paystream_contracts.Prelude.Dict.{lookup, insert}
use paystream_contracts.Js.{Error, new_error, Result, ok, err, present, ◌<>◌}
pub mod Laws
pub mod History

pub data Status : Type 0 where
  pending : Status
  approved : Status
  rejected : Status
  overridden : Status

pub data Action : Type 0 where
  requested : Action
  approval : Action
  rejection : Action
  override : Action

-- An entry of the audit trail
pub record Entry : Type 0 where
  pub actor : String
  pub action : Action
  pub timestamp : String
  pub note : String

pub record Decision : Type 0 where
  pub actor : String
  pub note : String

pub record Notification : Type 0 where
  pub approver : String
  pub channel : String
  pub sent_at : String

pub record Metadata : Type 0 where
  pub deadline : Option String
  pub note : Option String
  pub others : String

pub record Request : Type 0 where
  pub id : String
  pub title : String
  pub requested_by : String
  pub approvers : List String
  pub required_approvals : ℕ
  pub status : Status
  pub deadline : String
  pub audit_trail : List Entry
  pub notifications : List Notification
  pub metadata : Metadata
  pub decisions : Option (List Decision)
  pub rejection_reason : Option String
  pub override_reason : Option String
  pub override_by : Option String

-- The clock: `Date.now()` as a text, now and a day from now as ISO texts
pub record Clock : Type 0 where
  pub millis : String
  pub iso : String
  pub tomorrow : String

abbrev pub or_text : Option String → String → String
or_text o default = elim (present o) [ none ↦ default | some s ↦ s ]

abbrev pub new_request : Option String → String → List String → ℕ → Metadata → Clock → Request
new_request title requested_by approvers required metadata clock = record {
  id = "approval-" <> clock.millis;
  title = or_text title "Pending approval";
  requested_by = requested_by;
  approvers = approvers;
  required_approvals = required;
  status = pending;
  deadline = or_text metadata.deadline clock.tomorrow;
  audit_trail =
      record {
        actor = requested_by;
        action = requested;
        timestamp = clock.iso;
        note = or_text metadata.note "Approval requested";
      }
      ∷ [];
  notifications =
      map (λ a. record { approver = a; channel = "email"; sent_at = clock.iso }) approvers;
  metadata = metadata;
  decisions = none;
  rejection_reason = none;
  override_reason = none;
  override_by = none;
}

-- `_requests`
abbrev pub Requests : Type 0
Requests = List (String × Request)

-- `createApprovalRequest`, where `none` of `required` is an argument left out
unfoldable pub create_approval_request :
    Option String
    → String
    → List String
    → Option ℕ
    → Metadata
    → Clock
    → Requests
    → Request × Requests
create_approval_request title requested_by approvers required metadata clock requests =
    let count : ℕ = elim required [ none ↦ 1 | some n ↦ n ] in
    let request = new_request title requested_by approvers count metadata clock in
    (request, insert request.id request requests)

abbrev pub is_approval : Entry → Bool
is_approval e = elim e.action [ approval ↦ true | _ ↦ false ]

-- `auditTrail.filter((entry) => entry.action === 'approved').length`
unfoldable pub approved_count : List Entry → ℕ
approved_count trail = length (keep is_approval trail)

abbrev pub or_none : Option (List Decision) → List Decision
or_none none = []
or_none (some decisions) = decisions

-- An approval of a request that is pending
unfoldable pub approve : String → String → Clock → Request → Request
approve approver note clock r =
    let trail =
      r.audit_trail
      ++ record { actor = approver; action = approval; timestamp = clock.iso; note = note } ∷ [] in
    let status = if leb r.required_approvals (approved_count trail) then approved else r.status in
    record r {
      audit_trail = trail;
      decisions = some (or_none r.decisions ++ record { actor = approver; note = note } ∷ []);
      status = status;
    }

unfoldable pub reject : String → String → Clock → Request → Request
reject approver reason clock r = record r {
  audit_trail =
      r.audit_trail
      ++ record { actor = approver; action = rejection; timestamp = clock.iso; note = reason } ∷ [];
  rejection_reason = some reason;
  status = rejected;
}

unfoldable pub override_with : String → String → Clock → Request → Request
override_with actor reason clock r = record r {
  audit_trail =
      r.audit_trail
      ++ record { actor = actor; action = override; timestamp = clock.iso; note = reason } ∷ [];
  override_reason = some reason;
  override_by = some actor;
  status = overridden;
}

-- `if (request.status !== 'pending') return request`
unfoldable pub if_pending : (Request → Request) → Request → Request
if_pending f r = elim r.status [ pending ↦ f r | _ ↦ r ]

-- Finding the request and changing it where it is
unfoldable pub update : String → (Request → Request) → Requests → Result Request × Requests
update id f requests = elim (lookup id requests) [
  | none ↦ (err (new_error "Approval request not found"), requests)
  | some r ↦ (ok (f r), insert id (f r) requests)
]

-- The default of the argument `note`
abbrev pub or_approved : Option String → String
or_approved none = "Approved"
or_approved (some given) = given

unfoldable pub approve_approval_request :
    String → String → Option String → Clock → Requests → Result Request × Requests
approve_approval_request id approver given clock requests =
    update id (if_pending (approve approver (or_approved given) clock)) requests

unfoldable pub reject_approval_request :
    String → String → String → Clock → Requests → Result Request × Requests
reject_approval_request id approver reason clock requests =
    update id (if_pending (reject approver reason clock)) requests

unfoldable pub override_approval_request :
    String → String → String → Clock → Requests → Result Request × Requests
override_approval_request id actor reason clock requests =
    update id (override_with actor reason clock) requests
