-- ===== src/Api/Tests/Records.antt =====
-- Tests of the approvals, the templates and the idempotency keys, and the theorems at concrete
-- inputs.
use Prim.Native.Nat.{ℕ}
use Prim.Native.String.{String}
use text.Mathlib.Text.{◌==◌}
use paystream_contracts.Prelude.{
  ◌≡◌, refl, true, List, [], ◌∷◌, none, some, inl, inr, arith, if◌then◌else◌,
}
use paystream_contracts.Prelude.Dict.{lookup, insert}
use paystream_contracts.Api.Workflow as Workflow
use paystream_contracts.Api.Workflow.{
  Clock, Metadata, Request, Requests, new_request, approved, approved_count,
}
use paystream_contracts.Api.Workflow.Laws.{
  Call, creating, approving, rejecting, overriding, run, run-IsSound, IsSound,
}
use paystream_contracts.Api.Workflow.History.{IsStoredLater, run-IsLater, run_alone, repeated}
use paystream_contracts.Api.Templates as Templates
use paystream_contracts.Api.Templates.{Template}
use paystream_contracts.Api.Templates.Laws.{updating, removing, run_foreign}
use paystream_contracts.Api.Idempotency as Idempotency
use paystream_contracts.Api.Idempotency.{
  Row, idempotency_middleware, ask, answer, store, insert_row, wrapped, mismatched, find,
}
use paystream_contracts.Api.Idempotency.Laws.{arrived, answered, run_unguarded}

abbrev clock : Clock
clock = record { millis = "17"; iso = "today"; tomorrow = "tomorrow" }

abbrev metadata : Metadata
metadata = record { deadline = none; note = none; others = "" }

abbrev asked : Request
asked = new_request (some "Raise") "GA" ("GB" ∷ []) 2 metadata clock

abbrev stored_request : Requests
stored_request = ("approval-17", asked) ∷ []

abbrev calls : List Call
calls =
    creating (some "Raise") "GA" ("GB" ∷ []) (some 2) metadata clock
    ∷ overriding "approval-17" "GC" "urgent" clock
    ∷ []

run-IsSound_example : IsSound (Workflow.override_with "GC" "urgent" clock asked)
unfolding run Workflow.Laws.step Workflow.create_approval_request Workflow.override_approval_request
    Workflow.update lookup insert
run-IsSound_example =
    run-IsSound calls "approval-17" (Workflow.override_with "GC" "urgent" clock asked) refl

run-IsLater_example : IsStoredLater "approval-17" asked (
    run
      (rejecting "approval-17" "GB" "no" clock ∷ approving "approval-17" "GB" none clock ∷ [])
      stored_request)
unfolding lookup
run-IsLater_example =
    run-IsLater "approval-17"
      (rejecting "approval-17" "GB" "no" clock ∷ approving "approval-17" "GB" none clock ∷ [])
      stored_request asked (tt, (tt, tt)) refl

-- The requester, who is not among the approvers, approves twice.
run_alone_example :
    (end_ : Request) × (lookup "approval-17"
        (run (repeated 2 (approving "approval-17" "GA" none clock)) stored_request)
      ≡ some end_)
    × (end_.status ≡ approved)
unfolding lookup approved_count
run_alone_example =
    run_alone 1 "approval-17" "GA" none clock stored_request asked refl refl (omega arith)

-- A template that is built in and that "GA" owns
abbrev template : Template ℕ
template = record {
  id = "t1";
  owner_id = "GA";
  name = "Monthly";
  params = 5;
  shared = true;
  is_default = true;
  created_at = "";
  updated_at = "";
}

abbrev templates : List (String × Template ℕ)
templates = ("t1", template) ∷ []

run_foreign_example :
    lookup "t1" (
      Templates.Laws.run
        (updating "t1" "GA" (record { name = some "Mine"; params = none; shared = none }) "now"
          ∷ removing "t1" "GB"
          ∷ [])
        templates)
    ≡ some template
unfolding lookup
run_foreign_example =
    run_foreign "t1" template
      (updating "t1" "GA" (record { name = some "Mine"; params = none; shared = none }) "now"
        ∷ removing "t1" "GB"
        ∷ [])
      templates refl (inr refl, (inl refl, tt))

abbrev row : Row String
row = record {
  key = "k";
  address = "GA";
  request_body = "pay";
  response_status = 200;
  response_body = "paid";
}

abbrev again : Idempotency.Request String
again = record { key = some "k"; method = "POST"; stellar_address = some "GA"; body = "pay" }

-- The same body, where the database gives it back with its keys in another order
reordered :
    idempotency_middleware
      (λ s. s)
      true
      again
      (store (λ b. if b == "pay" then "yap" else b) true row [])
    ≡ mismatched
unfolding idempotency_middleware ask answer store insert_row find
reordered = refl

-- The same payment arrives twice before its response is stored, and runs twice.
run_unguarded_example :
    idempotency_middleware
      (λ s. s)
      true
      again
      (Idempotency.Laws.run
        (λ b. b)
        (arrived again ∷ answered (record row { key = "other" }) ∷ [])
        [])
    ≡ wrapped "k" "GA"
unfolding find
run_unguarded_example =
    run_unguarded (λ b. b) (λ s. s) "k" "GA" []
      (arrived again ∷ answered (record row { key = "other" }) ∷ []) again refl (tt, (inl refl, tt))
      (refl, refl, refl)
