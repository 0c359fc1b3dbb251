-- ===== src/Services/Notification/Laws.antt =====
-- Proofs about `poll` (services/notification/src/index.js): which mails a poll sends, and where it
-- goes on.
use Prim.Native.String.{String}
use text.Mathlib.Text.{◌==◌}
use paystream_contracts.Prelude.{
  ◌≡◌, refl, ap, sym, ◌∙◌, Bool, true, false, List, [], ◌∷◌, ◌++◌, Option, none, some, any,
  if◌then◌else◌, ◌⊎◌, Bool-cases, inl, inr, ◌&&◌, not, All, append-nil, append_assoc,
}
use paystream_contracts.Js.{Result, ok, err}
use paystream_contracts.Services.Notification.{Event, Notification, joined, build_notification}
use paystream_contracts.Services.Notification.Poll.{
  Mail, Service, State, Record, notify_webhooks, send_email, notify_event, handle, handle_all, poll,
}

abbrev pub is_watched : Service → Event → Bool
is_watched service event = any (λ t. t == event.type_) service.watched

-- The mail that an event asks for: there is one if its message can be made and has an address.
abbrev mail_for : Service → Result Notification → List Mail
mail_for service (err e) = []
mail_for service (ok n) =
    if service.has_mailer
    then if joined n.notify_addresses == ""
      then []
      else record { to = joined n.notify_addresses; message = n } ∷ []
    else []

abbrev event_mails : Service → Option Event → List Mail
event_mails service none = []
event_mails service (some event) =
    if is_watched service event then mail_for service (build_notification event) else []

-- The mails that the records ask for, in their order
abbrev pub mails_of : Service → List Record → List Mail
mails_of service [] = []
mails_of service (r ∷ rest) = event_mails service r.event ++ mails_of service rest

-- The mail of an event is lost: its message cannot be made, or the server refuses the mail.
abbrev is_refused : Service → Result Notification → Bool
is_refused service (err e) = true
is_refused service (ok n) =
    service.has_mailer
    && not (joined n.notify_addresses == "")
    && not (service.takes (record { to = joined n.notify_addresses; message = n }))

abbrev pub is_lost : Service → Option Event → Bool
is_lost service none = false
is_lost service (some event) =
    is_watched service event && is_refused service (build_notification event)

-- The cursor stays; a step throws exactly where the mail is lost, and then sends nothing, and else
-- sends what is asked for.
abbrev Sends : Bool × State → State → List Mail → Bool → Type 0
Sends q s asked lost =
    (q.1.cursor ≡ s.cursor)
    × (((q.0 ≡ true) × (lost ≡ false) × (q.1.mails ≡ s.mails ++ asked))
        ⊎ ((q.0 ≡ false) × (lost ≡ true) × (q.1.mails ≡ s.mails)))

send_email_lem :
    (service : Service) (n : Notification) (s : State)
    → Sends
        (send_email service (record { to = joined n.notify_addresses; message = n }) s)
        s
        (mail_for service (ok n))
        (is_refused service (ok n))
unfolding send_email
send_email_lem service n s = elim (Bool-cases service.has_mailer) [
  | inr closed ↦ rw (closed, send_email) (refl, inl (refl, refl, sym (append-nil s.mails)))
  | inl mailing ↦ elim (Bool-cases (joined n.notify_addresses == "")) [
    | inl empty ↦ rw (mailing, empty, send_email) (refl, inl (refl, refl, sym (append-nil s.mails)))
    | inr full ↦
        elim (Bool-cases (service.takes (record { to = joined n.notify_addresses; message = n }))) [
          | inl taken ↦ rw (mailing, full, taken, send_email) (refl, inl (refl, refl, refl))
          | inr refused ↦ rw (mailing, full, refused, send_email) (refl, inr (refl, refl, refl))
        ]
  ]
]

notify_event_lem :
    (service : Service) (event : Event) (s : State)
    → Sends
        (notify_event service event s)
        s
        (mail_for service (build_notification event))
        (is_refused service (build_notification event))
unfolding notify_event notify_webhooks
notify_event_lem service event s = go (build_notification event)
  where
    go :
        (built : Result Notification)
        → Sends
            (elim built [
              | err e ↦ (false, s)
              | ok n ↦
                  send_email service
                    (record { to = joined n.notify_addresses; message = n })
                    (notify_webhooks service event.type_ n s)
            ])
            s
            (mail_for service built)
            (is_refused service built)
    go (err e) = (refl, inr (refl, refl, refl))
    go (ok n) = send_email_lem service n (notify_webhooks service event.type_ n s)

handle_lem :
    (service : Service) (r : Record) (s : State)
    → Sends
        (handle service r s)
        (record s { cursor = r.paging_token })
        (event_mails service r.event)
        (is_lost service r.event)
unfolding handle
handle_lem service r s = go r.event
  where
    moved : State
    moved = record s { cursor = r.paging_token }

    go :
        (event : Option Event)
        → Sends
            (elim event [
              | none ↦ (true, moved)
              | some e ↦
                  if any (λ t. t == e.type_) service.watched
                  then notify_event service e moved
                  else (true, moved)
            ])
            moved
            (event_mails service event)
            (is_lost service event)
    go none = (refl, inl (refl, refl, sym (append-nil s.mails)))
    go (some e) = elim (Bool-cases (any (λ t. t == e.type_) service.watched)) [
      | inl watched ↦ rw (watched) (notify_event_lem service e moved)
      | inr ignored ↦ rw (ignored) (refl, inl (refl, refl, sym (append-nil s.mails)))
    ]

-- The token of the last record, if there is one
abbrev pub last_token : String → List Record → String
last_token cursor [] = cursor
last_token cursor (r ∷ rest) = last_token r.paging_token rest

-- No mail of the records is lost.
abbrev pub AreKept : Service → List Record → Type 0
AreKept service page = All (λ r. is_lost service r.event ≡ false) page

-- All records were handled.
abbrev pub IsDone : Service → List Record → State → State → Type 0
IsDone service page s after =
    (after.cursor ≡ last_token s.cursor page)
    × (after.mails ≡ s.mails ++ mails_of service page)
    × AreKept service page

-- A record stopped the poll, because its mail is lost: the records before it were handled, and the
-- next poll begins after it.
abbrev pub IsStopped : Service → List Record → State → State → Type 0
IsStopped service page s after =
    (done : List Record) × (r : Record) × (rest : List Record) × (page ≡ done ++ r ∷ rest)
    × (after.cursor ≡ r.paging_token)
    × (after.mails ≡ s.mails ++ mails_of service done)
    × AreKept service done
    × (is_lost service r.event ≡ true)

-- What the rest of the page adds after the mails of its first record
after_first :
    (service : Service) (r : Record) (rest : List Record) (s t after : State)
    → t.cursor ≡ r.paging_token
    → t.mails ≡ s.mails ++ event_mails service r.event
    → is_lost service r.event ≡ false
    → IsDone service rest t after ⊎ IsStopped service rest t after
    → IsDone service (r ∷ rest) s after ⊎ IsStopped service (r ∷ rest) s after
after_first service r rest s t after at sent kept (inl (last, mails, others)) = inl (
  last ∙ ap (λ c. last_token c rest) at,
  mails
      ∙ ap (λ m. m ++ mails_of service rest) sent
      ∙ append_assoc s.mails (event_mails service r.event) (mails_of service rest),
  (kept, others),
)
after_first service r rest s t after at sent kept
      (inr (done, x, more, split, last, mails, others, lost)) =
    inr (
      r ∷ done,
      x,
      more,
      ap (λ l. r ∷ l) split,
      last,
      mails
          ∙ ap (λ m. m ++ mails_of service done) sent
          ∙ append_assoc s.mails (event_mails service r.event) (mails_of service done),
      (kept, others),
      lost,
    )

handle_all_lem :
    (service : Service) (page : List Record) (s : State)
    → IsDone service page s (handle_all service page s)
      ⊎ IsStopped service page s (handle_all service page s)
unfolding handle_all
handle_all_lem service [] s = inl (refl, sym (append-nil s.mails), tt)
handle_all_lem service (r ∷ rest) s =
    let (at, sent) = handle_lem service r s in
    elim sent [
      | inr (threw, lost, same) ↦
          rw (threw) (inr ([], r, rest, refl, at, same ∙ sym (append-nil s.mails), tt, lost))
      | inl (fine, kept, mailed) ↦ rw (fine) (
          after_first service r rest s (handle service r s).1
            (handle_all service rest (handle service r s).1) at mailed kept
            (handle_all_lem service rest (handle service r s).1))
    ]

-- A poll that gets its page either handles all records, none of whose mails is lost: it sends the
-- mails they ask for, in order, and goes on after the last one; or it stops at the first record whose
-- mail is lost (its message cannot be made or the server refuses it), after sending the mails of
-- those before it, and the next poll begins after that record.
pub poll_lem :
    (service : Service) (page : List Record) (s : State)
    → IsDone service page s (poll service (some page) s)
      ⊎ IsStopped service page s (poll service (some page) s)
unfolding poll
poll_lem service page s = handle_all_lem service page s
