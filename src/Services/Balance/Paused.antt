-- ===== src/Services/Balance/Paused.antt =====
-- Proofs about `calcPausedSeconds` (services/balance/balance.js): it counts the seconds at which
-- the stream is paused.
use Prim.Native.Nat.{ℕ, ◌+◌, ◌-◌, ◌≤◌, ◌<◌}
use mathlib.Core.Path.{subst}
use native.Mathlib.Nat.{add_assoc}
use paystream_contracts.Prelude.{
  ◌≡◌, refl, arith, Bool, true, false, List, [], ◌∷◌, Option, none, some, leb, ltb, if◌then◌else◌,
  ◌&&◌, ◌∙◌, ap, Bool-cases, inl, inr,
}
use paystream_contracts.Prelude.Int.{pos, sub_ℕ, ◌+ℤ◌, pos-plus}
use paystream_contracts.Services.Balance.{PauseEvent, paused_loop, calc_paused_seconds, min, max}
use paystream_contracts.Services.Balance.Seconds.{
  seconds, seconds-plus, seconds_ext, seconds_all, seconds_none,
}

-- Whether the stream is paused at the second `x`: the last event up to `x` says so, and before
-- the first event `paused` does.
unfoldable pub paused_at : Bool → List PauseEvent → ℕ → Bool
paused_at paused [] x = paused
paused_at paused (event ∷ rest) x =
    paused_at (if leb event.timestamp x then event.is_pause else paused) rest x

-- From the time `t` on, the events are in the order of their times, and none pauses a stream
-- that is paused.
unfoldable pub IsHistory : Bool → ℕ → List PauseEvent → Type 0
IsHistory paused t [] = Unit
IsHistory paused t (event ∷ rest) =
    (t ≤ event.timestamp)
    × ((paused && event.is_pause) ≡ false)
    × IsHistory event.is_pause event.timestamp rest

-- Before the first event nothing has changed.
paused_at_before :
    (b c : Bool) (t : ℕ) (es : List PauseEvent) (x : ℕ)
    → IsHistory b t es
    → x < t
    → paused_at c es x ≡ c
unfolding paused_at IsHistory
paused_at_before b c t [] x h l = refl
paused_at_before b c t (e ∷ es) x (low, _, h) l =
    ground (arith, low, paused_at_before e.is_pause c e.timestamp es x h (omega (arith, low, l)))

-- Leaving out the seconds from `a` to `b`, at which `p` never holds.
drop_before :
    (p q : ℕ → Bool) (a b c : ℕ)
    → a ≤ b
    → b ≤ c
    → ((x : ℕ) → a ≤ x → x < b → p x ≡ false)
    → ((x : ℕ) → b ≤ x → x < c → p x ≡ q x)
    → seconds p a (c - a) ≡ seconds q b (c - b)
drop_before p q a b c ab bc never same =
    let here = seconds_none p a (b - a) (λ x low high. never x low (omega (arith, ab, high))) in
    let later = seconds_ext p q b (c - b) (λ x low high. same x low (omega (arith, bc, high))) in
    let split = seconds-plus p a (b - a) (c - b) in
    let sum : b - a + (c - b) ≡ c - a = omega (arith, ab, bc) in
    let border : a + (b - a) ≡ b = omega (arith, ab) in
    ground (arith, split, sum, border, here, later)

-- The pause that is open, and the time from which it counts.
abbrev is_open : Option ℕ → Bool
is_open none = false
is_open (some start) = true

abbrev from_when : Option ℕ → ℕ → ℕ
from_when none from_time = from_time
from_when (some start) from_time = start

-- An open pause began in the window, at its start or before the events still to come.
abbrev IsStart : Option ℕ → (t from_time to_time : ℕ) → Type 0
IsStart none t from_time to_time = Unit
IsStart (some start) t from_time to_time =
    (from_time ≤ start) × (start ≤ to_time) × (start ≤ max t from_time)

-- A resumption at `t` ends the open pause, and the pauses that follow come later.
seconds_resumed :
    (e : PauseEvent) (es : List PauseEvent) (t s a b : ℕ)
    → IsStart (some s) t a b
    → IsHistory true t (e ∷ es)
    → e.is_pause ≡ false
    → seconds (paused_at true (e ∷ es)) s (b - s)
      ≡ min e.timestamp b - s + seconds (paused_at false es) a (b - a)
unfolding paused_at IsHistory
seconds_resumed e es t s a b (a_s, sb, st) (low, _, h) resumes =
    let r = max s (min e.timestamp b) in
    let rb : r ≤ b = ground (arith, sb) in
    let sr : s ≤ r = ground arith in
    let on : (x : ℕ) → s ≤ x → x < s + (r - s) → paused_at true (e ∷ es) x ≡ true =
      λ x l u. ground (arith, l, u, resumes, paused_at_before e.is_pause true e.timestamp es x h) in
    let off : (x : ℕ) → a ≤ x → x < r → paused_at false es x ≡ false = λ x l u.
      ground
        (arith, l, u, low, st, resumes, paused_at_before e.is_pause false e.timestamp es x h) in
    let after : (x : ℕ)
        → r ≤ x
        → x < r + (b - r)
        → paused_at true (e ∷ es) x ≡ paused_at false es x =
      λ x l u. ground (arith, l, u, resumes) in
    let first = seconds_all (paused_at true (e ∷ es)) s (r - s) on in
    let last = seconds_ext (paused_at true (e ∷ es)) (paused_at false es) r (b - r) after in
    let skipped =
      drop_before (paused_at false es) (paused_at false es) a r b (omega (arith, a_s, sr)) rb off
        (λ x l u. refl) in
    let sum : r - s + (b - r) ≡ b - s = omega (arith, sr, rb) in
    let border : s + (r - s) ≡ r = omega (arith, sr) in
    let split = seconds-plus (paused_at true (e ∷ es)) s (r - s) (b - r) in
    let whole : seconds (paused_at true (e ∷ es)) s (b - s)
        ≡ r - s + seconds (paused_at false es) a (b - a) =
      ground (arith, split, sum, border, first, last, skipped) in
    ground (arith, whole)

-- A pause at `t` before the end of the window opens there.
seconds_opened :
    (e : PauseEvent) (es : List PauseEvent) (t a b : ℕ)
    → a ≤ b
    → IsHistory false t (e ∷ es)
    → e.is_pause ≡ true
    → e.timestamp < b
    → seconds (paused_at false (e ∷ es)) a (b - a)
      ≡ seconds (paused_at true es) (max e.timestamp a) (b - max e.timestamp a)
unfolding paused_at IsHistory
seconds_opened e es t a b ab (low, _, h) pauses inside =
    drop_before (paused_at false (e ∷ es)) (paused_at true es) a (max e.timestamp a) b
      (ground arith) (ground (arith, inside, ab))
      (λ x l u. ground (arith, l, u, pauses, paused_at_before e.is_pause false e.timestamp es x h))
      (λ x l u. ground (arith, l, u, pauses))

-- An event that leaves the stream running in the window.
seconds_kept :
    (e : PauseEvent) (es : List PauseEvent) (a b : ℕ)
    → a ≤ b
    → (e.is_pause && ltb e.timestamp b) ≡ false
    → seconds (paused_at false (e ∷ es)) a (b - a) ≡ seconds (paused_at false es) a (b - a)
unfolding paused_at
seconds_kept e es a b ab keeps =
    seconds_ext (paused_at false (e ∷ es)) (paused_at false es) a (b - a)
      (λ x l u. ground (arith, l, u, keeps, ab))

-- After an event nothing is asked of a stream that runs.
IsHistory-closed :
    (b : Bool) (t : ℕ) (es : List PauseEvent) → IsHistory b t es → IsHistory false t es
unfolding IsHistory
IsHistory-closed b t [] h = h
IsHistory-closed b t (e ∷ es) (low, _, h) = (low, refl, h)

paused_loop_lem :
    (es : List PauseEvent) (o : Option ℕ) (t a b n : ℕ)
    → a ≤ b
    → IsStart o t a b
    → IsHistory (is_open o) t es
    → paused_loop es a b o (pos n)
      ≡ pos (n + seconds (paused_at (is_open o) es) (from_when o a) (b - from_when o a))
unfolding paused_loop paused_at IsHistory
paused_loop_lem [] none t a b n ab s h =
    let no_pause = seconds_none (paused_at false []) a (b - a) (λ x l u. refl) in
    ground (arith, no_pause)
paused_loop_lem [] (some start) t a b n ab (_, sb, _) h =
    let all_paused = seconds_all (paused_at true []) start (b - start) (λ x l u. refl) in
    let open_for : sub_ℕ b start ≡ pos (b - start) = ground (arith, sb) in
    rw (all_paused, open_for) (pos-plus n (b - start))
paused_loop_lem (e ∷ es) none t a b n ab s (low, go_on, h) =
    elim (Bool-cases (e.is_pause && ltb e.timestamp b)) [
      | inl opens ↦
          let pauses : e.is_pause ≡ true = ground (arith, opens) in
          let inside : e.timestamp < b = ground (arith, opens) in
          let still : IsHistory true e.timestamp es =
            subst (λ c. IsHistory c e.timestamp es) pauses h in
          let rest =
            paused_loop_lem es (some (max e.timestamp a)) e.timestamp a b n ab
              (ground arith, ground (arith, inside, ab), omega arith) still in
          rw (opens, seconds_opened e es t a b ab (low, go_on, h) pauses inside) rest
      | inr keeps ↦
          let rest =
            paused_loop_lem es none e.timestamp a b n ab tt
              (IsHistory-closed e.is_pause e.timestamp es h) in
          rw (keeps, seconds_kept e es a b ab keeps) rest
    ]
paused_loop_lem (e ∷ es) (some start) t a b n ab s (low, resume, h) =
    let resumes : e.is_pause ≡ false = ground (arith, resume) in
    let rest =
      paused_loop_lem es none e.timestamp a b (n + (min e.timestamp b - start)) ab tt
        (IsHistory-closed e.is_pause e.timestamp es h) in
    let more : (if ltb start (min e.timestamp b)
          then pos n +ℤ pos (min e.timestamp b - start)
          else pos n)
        ≡ pos (n + (min e.timestamp b - start)) =
      ground (arith, pos-plus n (min e.timestamp b - start)) in
    let counted = seconds_resumed e es t start a b s (low, resume, h) resumes in
    let sum = add_assoc n (min e.timestamp b - start) (seconds (paused_at false es) a (b - a)) in
    rw (resumes, more) (ground (arith, rest, sum, counted))

-- For events in the order of their times, none of which pauses a paused stream, and a window that
-- does not end before it starts, what is calculated is the number of seconds of the window at
-- which the stream is paused.
pub calc_paused_seconds_lem :
    (events : List PauseEvent) (a b : ℕ)
    → a ≤ b
    → IsHistory false 0 events
    → calc_paused_seconds events a b ≡ pos (seconds (paused_at false events) a (b - a))
unfolding calc_paused_seconds
calc_paused_seconds_lem events a b ab h =
    paused_loop_lem events none 0 a b 0 ab tt h ∙ ap pos (omega arith)
