-- ===== src/Sdk/Poll.antt =====
-- `pollClaimable` (sdk/src/poll.ts). The poller is a state machine: what happens between two
-- awaits is one step. A timer, a reply of `client.claimable` and a call of `unsubscribe` are its
-- events, in any order.
pub mod Laws
use paystream_contracts.Prelude.{
  ℕ, max, Bool, true, false, List, [], ◌∷◌, ◌++◌, Option, none, some, if◌then◌else◌,
}
use paystream_contracts.Prelude.Int.{ℤ}
use paystream_contracts.Js.{Error}

-- What a call of a handler of the caller does to the poller: it may unsubscribe, and throw.
pub record Reaction : Type 0 where
  pub unsubscribes : Bool
  pub throws : Option Error

pub record Handlers : Type 0 where
  pub callback : ℤ → Reaction
  pub on_error : Option (Error → Reaction)

-- What the poller is waiting for; `ended` means for nothing, ever.
pub data Phase : Type 0 where
  in_flight waiting ended : Phase

-- What the caller has seen: `callback`, `onError` and `console.error`.
pub data Notice : Type 0 where
  called : ℤ → Notice
  reported logged : Error → Notice

pub record Poller : Type 0 where
  pub active : Bool
  pub phase : Phase
  pub notices : List Notice

pub data Event : Type 0 where
  fired : Event
  resolved : ℤ → Event
  rejected : Error → Event
  unsubscribed : Event

pub safe_interval : ℕ → ℕ
safe_interval interval_ms = max interval_ms 1000

-- The synchronous part of `tick`, up to the await.
unfoldable pub tick : Poller → Poller
tick s = if s.active then record s { phase = in_flight } else record s { phase = ended }

-- The first tick is made at once.
unfoldable pub start : Poller
unfolding tick
start = tick (record { active = true; phase = ended; notices = [] })

unfoldable pub unsubscribe : Poller → Poller
unsubscribe s = record s { active = false }

abbrev react : Reaction → Poller → Poller
react r s = if r.unsubscribes then unsubscribe s else s

-- The last statement of `tick`
reschedule : Poller → Poller
reschedule s = if s.active then record s { phase = waiting } else record s { phase = ended }

abbrev note : Notice → Poller → Poller
note n s = record s { notices = s.notices ++ n ∷ [] }

-- An error that the handler throws ends `tick` before it reschedules.
after_report : Option Error → Poller → Poller
unfolding reschedule
after_report none s = reschedule s
after_report (some _) s = record s { phase = ended }

report : Option (Error → Reaction) → Error → Poller → Poller
unfolding reschedule after_report unsubscribe
report none e s = reschedule (note (logged e) s)
report (some f) e s = after_report (f e).throws (react (f e) (note (reported e) s))

-- The `catch` block and what follows it
caught : Handlers → Error → Poller → Poller
unfolding report reschedule
caught h e s = if s.active then report h.on_error e s else reschedule s

-- `callback(amount)` has come back, or thrown.
after_callback : Handlers → Option Error → Poller → Poller
unfolding caught reschedule
after_callback h none s = reschedule s
after_callback h (some e) s = caught h e s

deliver : Handlers → ℤ → Poller → Poller
unfolding after_callback reschedule unsubscribe
deliver h amount s =
    if s.active
    then after_callback h (h.callback amount).throws
        (react (h.callback amount) (note (called amount) s))
    else reschedule s

-- An event that the poller is not waiting for does nothing.
dispatch : Handlers → Phase → Event → Poller → Poller
unfolding tick unsubscribe deliver caught
dispatch h waiting fired s = tick s
dispatch h in_flight (resolved amount) s = deliver h amount s
dispatch h in_flight (rejected e) s = caught h e s
dispatch h _ unsubscribed s = unsubscribe s
dispatch h _ _ s = s

unfoldable pub step : Handlers → Event → Poller → Poller
unfolding dispatch
step h e s = dispatch h s.phase e s

unfoldable pub run : Handlers → List Event → Poller → Poller
run h [] s = s
run h (e ∷ es) s = run h es (step h e s)
