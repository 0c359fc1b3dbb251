-- ===== src/Services/Notification.antt =====
-- The messages of services/notification/src/index.js: the notification that is made of an event.
use Prim.Native.Nat.{ℕ, zero, suc}
use Prim.Native.String.{String}
use text.Mathlib.Text.{◌==◌}
use paystream_contracts.Prelude.{List, [], ◌∷◌, Option, none, some, if◌then◌else◌}
use paystream_contracts.Js.{Error, Result, ok, err, ◌<>◌}
pub mod Poll
pub mod Laws

-- The data of an event: a list of texts, a text by its characters, or a value that is neither by
-- the text it has
pub data Data : Type 0 where
  values : List String → Data
  word : List String → Data
  scalar : String → Data

pub record Event : Type 0 where
  pub type_ : String
  pub stream_id : String
  pub content : Data

pub record Notification : Type 0 where
  pub subject : Option String
  pub text : Option String
  pub notify_addresses : List String

abbrev pub no_message : Notification
no_message = record { subject = none; text = none; notify_addresses = [] }

-- `values[n]` as it stands in a text
abbrev pub item : ℕ → List String → String
item n [] = "undefined"
item zero (v ∷ vs) = v
item (suc n) (v ∷ vs) = item n vs

-- `values[n]` as `join` writes it
abbrev pub entry : ℕ → List String → String
entry n [] = ""
entry zero (v ∷ vs) = v
entry (suc n) (v ∷ vs) = entry n vs

-- `String(list)`
abbrev pub joined : List String → String
joined [] = ""
joined (v ∷ []) = v
joined (v ∷ w ∷ vs) = v <> "," <> joined (w ∷ vs)

abbrev pub glued : List String → String
glued [] = ""
glued (c ∷ cs) = c <> glued cs

abbrev pub text_of : Data → String
text_of (values vs) = joined vs
text_of (word cs) = glued cs
text_of (scalar v) = v

abbrev pub not_iterable : Error
not_iterable = record { name = "TypeError"; message = "data is not iterable" }

-- A message that takes the list apart
abbrev pub from_values : (List String → Notification) → Data → Result Notification
from_values f (values vs) = ok (f vs)
from_values f (word cs) = ok (f cs)
from_values f (scalar v) = err not_iterable

abbrev pub created_message : String → List String → Notification
created_message id vs = record {
  subject = some ("PayStream: New stream #" <> id <> " created");
  text = some (
      "Stream #"
      <> id
      <> " created.\nEmployer: "
      <> item 0 vs
      <> "\nEmployee: "
      <> item 1 vs
      <> "\nRate: "
      <> item 2 vs
      <> " tokens/s");
  notify_addresses = entry 0 vs ∷ entry 1 vs ∷ [];
}

abbrev pub withdraw_message : String → List String → Notification
withdraw_message id vs = record {
  subject = some ("PayStream: Withdrawal from stream #" <> id);
  text = some (
      "Employee "
      <> item 0 vs
      <> " withdrew "
      <> item 1 vs
      <> " tokens from stream #"
      <> id
      <> ".");
  notify_addresses = entry 0 vs ∷ [];
}

abbrev pub paused_message : String → List String → Notification
paused_message id vs = record {
  subject = some ("PayStream: Stream #" <> id <> " paused");
  text = some ("Stream #" <> id <> " was paused by " <> item 0 vs <> " at " <> item 2 vs <> ".");
  notify_addresses = entry 0 vs ∷ entry 1 vs ∷ [];
}

abbrev pub cancelled_message : String → List String → Notification
cancelled_message id vs = record {
  subject = some ("PayStream: Stream #" <> id <> " cancelled");
  text = some (
      "Stream #"
      <> id
      <> " was cancelled by "
      <> item 0 vs
      <> ". Refund: "
      <> item 2 vs
      <> ", Employee Payout: "
      <> item 3 vs
      <> ".");
  notify_addresses = entry 0 vs ∷ entry 1 vs ∷ [];
}

abbrev pub status_message : String → String → Notification
status_message id status = record {
  subject = some ("PayStream: Stream #" <> id <> " status → " <> status);
  text = some ("Stream #" <> id <> " status changed to " <> status <> ".");
  notify_addresses = [];
}

-- `buildNotification`
unfoldable pub build_notification : Event → Result Notification
build_notification event =
    if event.type_ == "created"
    then from_values (created_message event.stream_id) event.content
    else if event.type_ == "withdraw"
    then from_values (withdraw_message event.stream_id) event.content
    else if event.type_ == "paused"
    then from_values (paused_message event.stream_id) event.content
    else if event.type_ == "cancelled"
    then from_values (cancelled_message event.stream_id) event.content
    else if event.type_ == "status"
    then ok (status_message event.stream_id (text_of event.content))
    else ok no_message
