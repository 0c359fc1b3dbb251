-- ===== src/Services/Tests/Mails.antt =====
-- Tests of the notifications, and the theorem at concrete inputs.
use Prim.Native.String.{String}
use text.Mathlib.Text.{◌==◌}
use paystream_contracts.Prelude.{
  ◌≡◌, refl, false, true, List, [], ◌∷◌, none, some, map, ◌⊎◌, if◌then◌else◌, leb,
}
use paystream_contracts.Services.Notification.{values, build_notification}
use paystream_contracts.Services.Notification.Poll.{
  Service, State, Record, dispatch_from, dispatch_webhook, notify_webhooks, send_email,
  notify_event, handle, handle_all, poll,
}
use paystream_contracts.Services.Notification.Laws.{IsDone, IsStopped, poll_lem}

-- A server that refuses the mails to "down"
abbrev service : Service
service = record {
  watched = "created" ∷ "withdraw" ∷ [];
  has_mailer = true;
  legacy = none;
  registered = none;
  takes = λ mail. if mail.to == "down" then false else true;
}

abbrev withdrawal : String → String → Record
withdrawal token employee = record {
  paging_token = token;
  event =
      some
        (record { type_ = "withdraw"; stream_id = "7"; content = values (employee ∷ "100" ∷ []) });
}

abbrev page : List Record
page = withdrawal "1" "amy" ∷ withdrawal "2" "down" ∷ withdrawal "3" "bob" ∷ []

abbrev new_state : State
new_state = record { cursor = "now"; mails = []; webhooks = [] }

-- The mail to "bob" is left to the next poll, and the one to "down" is lost.
cursor_after : (poll service (some page) new_state).cursor ≡ "2"
unfolding poll handle_all handle notify_event send_email notify_webhooks build_notification
cursor_after = refl

recipients_after : map (λ m. m.to) (poll service (some page) new_state).mails ≡ "amy" ∷ []
unfolding poll handle_all handle notify_event send_email notify_webhooks build_notification
recipients_after = refl

-- A listener that is down twice is tried again after 2 and 4 seconds.
third_attempt :
    dispatch_webhook (λ attempt. leb 3 attempt)
    ≡ record { delivered = some 3; delays = 2000 ∷ 4000 ∷ [] }
unfolding dispatch_webhook dispatch_from
third_attempt = refl

poll_lem_example :
    IsDone service page new_state (poll service (some page) new_state)
    ⊎ IsStopped service page new_state (poll service (some page) new_state)
poll_lem_example = poll_lem service page new_state
