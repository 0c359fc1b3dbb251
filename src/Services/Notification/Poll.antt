-- ===== src/Services/Notification/Poll.antt =====
-- The deliveries of services/notification/src/index.js, with their retries, and one poll. The reading
-- of a record is a parameter, as are the answers of the mail server, the database and the listeners.
use Prim.Native.Nat.{ℕ, zero, suc, ◌+◌, ◌*◌, ◌^◌}
use Prim.Native.String.{String}
use text.Mathlib.Text.{◌==◌}
use paystream_contracts.Prelude.{
  Bool, true, false, List, [], ◌∷◌, ◌++◌, Option, none, some, if◌then◌else◌, any,
}
use paystream_contracts.Prelude.Dict.{lookup}
use paystream_contracts.Js.{ok, err}
use paystream_contracts.Services.Notification.{Event, Notification, joined, build_notification}

-- `eventMapping`
abbrev pub event_mapping : List (String × String)
event_mapping =
    ("created", "stream_created")
    ∷ ("withdraw", "withdrawn")
    ∷ ("paused", "paused")
    ∷ ("cancelled", "cancelled")
    ∷ []

-- A delivery of a webhook from an attempt on, with `left` attempts after it: the attempt that
-- succeeds, if one does, and the delays before the attempts that follow. `accepts` says which
-- attempts the listener accepts.
pub record Delivery : Type 0 where
  pub delivered : Option ℕ
  pub delays : List ℕ

unfoldable pub dispatch_from : (ℕ → Bool) → (left attempt : ℕ) → Delivery
dispatch_from accepts zero attempt = record {
  delivered = if accepts attempt then some attempt else none;
  delays = [];
}
dispatch_from accepts (suc left) attempt =
    let later = dispatch_from accepts left (attempt + 1) in
    if accepts attempt
    then record { delivered = some attempt; delays = [] }
    else record { delivered = later.delivered; delays = 2 ^ attempt * 1000 ∷ later.delays }

-- `dispatchWebhook`, with `MAX_ATTEMPTS` 5
unfoldable pub dispatch_webhook : (ℕ → Bool) → Delivery
dispatch_webhook accepts = dispatch_from accepts 4 1

-- A mail, and a webhook that is dispatched: the address it goes to and the secret that signs it
pub record Mail : Type 0 where
  pub to : String
  pub message : Notification

pub record Webhook : Type 0 where
  pub url : String
  pub secret : String
  pub message : Notification

-- What the service is started with, and what answers it
pub record Service : Type 0 where
  pub watched : List String
  pub has_mailer : Bool
  pub legacy : Option (String × String)
  -- the rows of `webhooks` for the addresses and the event; `none` without a database, and an
  -- empty list for a query that fails
  pub registered : Option (List String → String → List (String × String))
  -- whether the mail server takes the mail
  pub takes : Mail → Bool

-- The page token, the mails taken by the server, and the webhooks dispatched
pub record State : Type 0 where
  pub cursor : String
  pub mails : List Mail
  pub webhooks : List Webhook

abbrev pub hooks_of : Notification → List (String × String) → List Webhook
hooks_of n [] = []
hooks_of n (row ∷ rows) = record { url = row.0; secret = row.1; message = n } ∷ hooks_of n rows

abbrev pub legacy_rows : Option (String × String) → List (String × String)
legacy_rows none = []
legacy_rows (some row) = row ∷ []

abbrev pub registered_rows :
    Option (List String → String → List (String × String))
    → List String
    → Option String
    → List (String × String)
registered_rows (some query) addresses (some mapped) = query addresses mapped
registered_rows _ addresses _ = []

-- `notifyWebhooks`
unfoldable pub notify_webhooks : Service → String → Notification → State → State
notify_webhooks service event_type n s =
    let rows =
      legacy_rows service.legacy
      ++ registered_rows service.registered n.notify_addresses (lookup event_type event_mapping) in
    record s { webhooks = s.webhooks ++ hooks_of n rows }

-- `sendEmail`: false where it throws
unfoldable pub send_email : Service → Mail → State → Bool × State
send_email service mail s =
    if service.has_mailer
    then if mail.to == ""
      then (true, s)
      else if service.takes mail
      then (true, record s { mails = s.mails ++ mail ∷ [] })
      else (false, s)
    else (true, s)

-- A record of the page: its token, and its event if it can be read
pub record Record : Type 0 where
  pub paging_token : String
  pub event : Option Event

-- What the loop does for an event that is watched: false where it throws
unfoldable pub notify_event : Service → Event → State → Bool × State
notify_event service event s = elim (build_notification event) [
  | err e ↦ (false, s)
  | ok n ↦
      send_email service (record { to = joined n.notify_addresses; message = n })
        (notify_webhooks service event.type_ n s)
]

-- One turn of the loop of `poll`
unfoldable pub handle : Service → Record → State → Bool × State
handle service r s =
    let moved : State = record s { cursor = r.paging_token } in
    elim r.event [
      | none ↦ (true, moved)
      | some event ↦
          if any (λ t. t == event.type_) service.watched
          then notify_event service event moved
          else (true, moved)
    ]

-- The loop of `poll`; an error ends it
unfoldable pub handle_all : Service → List Record → State → State
handle_all service [] s = s
handle_all service (r ∷ rest) s =
    let (fine, next) = handle service r s in
    let later = handle_all service rest next in if fine then later else next

-- `poll`, given the page after the cursor; `none` is a request that fails
unfoldable pub poll : Service → Option (List Record) → State → State
poll service none s = s
poll service (some page) s = handle_all service page s
