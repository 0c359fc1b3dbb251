-- ===== src/Sdk/Poll/Laws.antt =====
-- Proofs about `pollClaimable` (sdk/src/poll.ts), for every sequence of events.
use paystream_contracts.Prelude.{
  ℕ, ◌≤◌, ◌≡◌, refl, ◌≢◌, arith, true, false, List, [], ◌∷◌, ◌++◌, Option, none, some, ◌∙◌,
  append_assoc, map, append-nil, sym, ap,
}
use paystream_contracts.Prelude.Int.{ℤ}
use paystream_contracts.Js.{Error, Result, ok, err}
use paystream_contracts.Sdk.Poll.{
  Handlers, Reaction, Phase, in_flight, waiting, ended, Notice, called, reported, logged, note,
  react, Poller, Event, fired, resolved, rejected, unsubscribed, safe_interval, start, unsubscribe,
  dispatch, step, run, tick, report, after_report, reschedule, caught, after_callback, deliver,
}

dispatch_inactive :
    (h : Handlers) (f : Phase) (e : Event) (s : Poller)
    → s.active ≡ false
    → ((dispatch h f e s).active ≡ false) × ((dispatch h f e s).notices ≡ s.notices)
unfolding dispatch
dispatch_inactive h waiting fired s i = ground arith
dispatch_inactive h in_flight (resolved a) s i = ground arith
dispatch_inactive h in_flight (rejected x) s i = ground arith
dispatch_inactive h f unsubscribed s i = ground arith
dispatch_inactive h f e s i = ground arith

run_inactive :
    (h : Handlers) (es : List Event) (s : Poller)
    → s.active ≡ false
    → (run h es s).notices ≡ s.notices
unfolding run step
run_inactive h [] s i = refl
run_inactive h (e ∷ es) s i =
    let (j, same) = dispatch_inactive h s.phase e s i in
    run_inactive h es (dispatch h s.phase e s) j ∙ same

-- Once `unsubscribe` has been called, no handler is called again, whatever happens later.
pub run-unsubscribe :
    (h : Handlers) (es : List Event) (s : Poller) → (run h es (unsubscribe s)).notices ≡ s.notices
unfolding unsubscribe
run-unsubscribe h es s = run_inactive h es (unsubscribe s) refl

-- The caller's error handler, if there is one, never throws.
abbrev pub NeverThrows : Option (Error → Reaction) → Type 0
NeverThrows none = Unit
NeverThrows (some f) = (e : Error) → (f e).throws ≡ none

-- A poller is waiting for a timer or for a reply, unless it was unsubscribed.
abbrev pub IsAlive : Poller → Type 0
IsAlive s = s.active ≡ true → s.phase ≢ ended

report-IsAlive :
    (o : Option (Error → Reaction)) (e : Error) (s : Poller)
    → NeverThrows o
    → IsAlive (report o e s)
unfolding report
report-IsAlive none e s q = ground arith
report-IsAlive (some f) e s q = ground (arith, q e)

caught-IsAlive :
    (h : Handlers) (e : Error) (s : Poller) → NeverThrows h.on_error → IsAlive (caught h e s)
unfolding caught
caught-IsAlive h e s q = ground (arith, report-IsAlive h.on_error e s q)

after_callback-IsAlive :
    (h : Handlers) (o : Option Error) (s : Poller)
    → NeverThrows h.on_error
    → IsAlive (after_callback h o s)
unfolding after_callback
after_callback-IsAlive h none s q = ground arith
after_callback-IsAlive h (some e) s q = caught-IsAlive h e s q

deliver-IsAlive :
    (h : Handlers) (a : ℤ) (s : Poller) → NeverThrows h.on_error → IsAlive (deliver h a s)
unfolding deliver
deliver-IsAlive h a s q = ground (
  arith,
  after_callback-IsAlive h (h.callback a).throws (react (h.callback a) (note (called a) s)) q,
)

dispatch-IsAlive :
    (h : Handlers) (f : Phase) (e : Event) (s : Poller)
    → NeverThrows h.on_error
    → f ≡ s.phase
    → IsAlive s
    → IsAlive (dispatch h f e s)
unfolding dispatch
dispatch-IsAlive h waiting fired s q i alive = ground arith
dispatch-IsAlive h in_flight (resolved a) s q i alive = deliver-IsAlive h a s q
dispatch-IsAlive h in_flight (rejected x) s q i alive = caught-IsAlive h x s q
dispatch-IsAlive h f unsubscribed s q i alive = ground arith
dispatch-IsAlive h f e s q i alive = alive

run-IsAlive :
    (h : Handlers) (es : List Event) (s : Poller)
    → NeverThrows h.on_error
    → IsAlive s
    → IsAlive (run h es s)
unfolding run step
run-IsAlive h [] s q alive = alive
run-IsAlive h (e ∷ es) s q alive =
    run-IsAlive h es (dispatch h s.phase e s) q (dispatch-IsAlive h s.phase e s q refl alive)

-- If the error handler never throws, the poller goes on until it is unsubscribed: after any
-- events it is waiting for its timer or for a reply, or is no longer active.
pub run-start-IsAlive :
    (h : Handlers) (es : List Event) → NeverThrows h.on_error → IsAlive (run h es start)
unfolding start
run-start-IsAlive h es q = run-IsAlive h es start q (λ _. ground arith)

dispatch_ended :
    (h : Handlers) (f : Phase) (e : Event) (s : Poller)
    → f ≡ ended
    → s.phase ≡ ended
    → (dispatch h f e s).phase ≡ ended
unfolding dispatch
dispatch_ended h waiting fired s i j = cc
dispatch_ended h in_flight (resolved a) s i j = cc
dispatch_ended h in_flight (rejected x) s i j = cc
dispatch_ended h f unsubscribed s i j = j
dispatch_ended h f e s i j = j

run_ended :
    (h : Handlers) (es : List Event) (s : Poller) → s.phase ≡ ended → (run h es s).phase ≡ ended
unfolding run step
run_ended h [] s j = j
run_ended h (e ∷ es) s j =
    run_ended h es (dispatch h s.phase e s) (dispatch_ended h s.phase e s j j)

-- An error handler that throws ends the polling, though nobody has unsubscribed: whatever
-- happens later, no timer is set and nothing is asked.
run_after_throw :
    (h : Handlers) (f : Error → Reaction) (x y : Error) (es : List Event)
    → h.on_error ≡ some f
    → (f x).throws ≡ some y
    → (run h (rejected x ∷ es) start).phase ≡ ended
unfolding run step start
run_after_throw h f x y es e t = run_ended h es (step h (rejected x) start) (ground (arith, throws))
  where
    throws : (step h (rejected x) start).phase ≡ ended
    throws = rw (e, report, t)

-- The replies to the questions, each an amount or an error, with the timer firing after each
abbrev pub replies : List (Result ℤ) → List Event
replies [] = []
replies (ok a ∷ rest) = resolved a ∷ fired ∷ replies rest
replies (err e ∷ rest) = rejected e ∷ fired ∷ replies rest

abbrev pub IsQuiet : Reaction → Type 0
IsQuiet r = (r.unsubscribes ≡ false) × (r.throws ≡ none)

abbrev pub IsQuietHandler : Option (Error → Reaction) → Type 0
IsQuietHandler none = Unit
IsQuietHandler (some f) = (e : Error) → IsQuiet (f e)

-- What the caller sees of a reply: an error is logged where there is no handler for it.
abbrev pub seen : Option (Error → Reaction) → Result ℤ → Notice
seen on_error (ok a) = called a
seen none (err e) = logged e
seen (some f) (err e) = reported e

-- The poller while it asks
abbrev asking : List Notice → Poller
asking notices = record { active = true; phase = in_flight; notices = notices }

report-asking :
    (on_error : Option (Error → Reaction)) (e : Error) (notices : List Notice)
    → IsQuietHandler on_error
    → report on_error e (asking notices)
      ≡ record (asking (notices ++ seen on_error (err e) ∷ [])) { phase = waiting }
unfolding report after_report reschedule
report-asking none e notices q = refl
report-asking (some f) e notices q = ground (arith, q e)

reply-asking :
    (h : Handlers) (r : Result ℤ) (rest : List (Result ℤ)) (notices : List Notice)
    → ((a : ℤ) → IsQuiet (h.callback a))
    → IsQuietHandler h.on_error
    → run h (replies (r ∷ rest)) (asking notices)
      ≡ run h (replies rest) (asking (notices ++ seen h.on_error r ∷ []))
unfolding run step dispatch deliver after_callback reschedule caught tick
reply-asking h (ok a) rest notices q q' = ground (arith, q a)
reply-asking h (err e) rest notices q q' =
    ap (λ s. run h (replies rest) (step h fired s)) (report-asking h.on_error e notices q')

replies_from :
    (h : Handlers) (rs : List (Result ℤ)) (notices : List Notice)
    → ((a : ℤ) → IsQuiet (h.callback a))
    → IsQuietHandler h.on_error
    → (run h (replies rs) (asking notices)).notices ≡ notices ++ map (seen h.on_error) rs
unfolding run
replies_from h [] notices q q' = sym (append-nil notices)
replies_from h (r ∷ rest) notices q q' =
    ap (λ (s : Poller). s.notices) (reply-asking h r rest notices q q')
    ∙ replies_from h rest (notices ++ seen h.on_error r ∷ []) q q'
    ∙ append_assoc notices (seen h.on_error r ∷ []) (map (seen h.on_error) rest)

-- In a run in which each question is answered or fails and the timer then fires, and in which no
-- handler throws or unsubscribes: the callback is called with each amount and the error handler
-- with each error (which is logged where there is none), once, in the order of the replies, and
-- nothing else is called.
pub run-replies :
    (h : Handlers) (rs : List (Result ℤ))
    → ((a : ℤ) → IsQuiet (h.callback a))
    → IsQuietHandler h.on_error
    → (run h (replies rs) start).notices ≡ map (seen h.on_error) rs
unfolding start tick
run-replies h rs q q' = replies_from h rs [] q q'

-- The timer is never set to less than a second, nor to less than the caller asks.
pub safe_interval_bounds : (n : ℕ) → (1000 ≤ safe_interval n) × (n ≤ safe_interval n)
unfolding safe_interval
safe_interval_bounds n = omega arith
