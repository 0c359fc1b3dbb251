-- ===== src/Demo/Balance/Laws.antt =====
-- Proofs about the token balance (demo/src/useTokenBalance.ts), for every order of the replies.
use Prim.Native.String.{String}
use Prim.Native.Nat.{◌≤◌, ◌<◌}
use paystream_contracts.Prelude.{
  ℕ, ◌≡◌, refl, arith, Bool, true, false, not, List, [], ◌∷◌, Option, none, some, keep, ltb,
  Bool-cases, Option-cases, inl, inr,
}
use paystream_contracts.Prelude.Int.{ℤ}
use paystream_contracts.Js.{Result, ok, err, present}
use paystream_contracts.Demo.Balance.{
  Balance, Event, changed, replied, unmounted, change, reply, step, run, is_live,
}

abbrev pub events : List (ℕ × Result ℤ) → List Event
events [] = []
events ((k, r) ∷ rest) = replied k r ∷ events rest

reply_dead : (j : ℕ) (r : Result ℤ) (s : Balance) → s.live ≡ none → reply j r s ≡ s
unfolding reply
reply_dead j (ok bal) s h = ground arith
reply_dead j (err e) s h = ground arith

abbrev pub is_reply : Event → Bool
is_reply (replied k r) = true
is_reply _ = false

-- A reply to the request of a run before run `n`
abbrev is_earlier : ℕ → Event → Bool
is_earlier n (replied k r) = ltb k n
is_earlier n _ = false

-- The events but for the replies to the requests of runs before run `n`
abbrev pub without_earlier : ℕ → List Event → List Event
without_earlier n es = keep (λ e. not (is_earlier n e)) es

abbrev IsLater : ℕ → Option ℕ → Type 0
IsLater n none = Unit
IsLater n (some k) = n ≤ k

-- No run before run `n` is live, and none will be.
abbrev IsFrom : ℕ → Balance → Type 0
IsFrom n s = IsLater n s.live × (n ≤ s.next)

change-IsFrom :
    (n : ℕ) (public_key token_address : Option String) (s : Balance)
    → n ≤ s.next
    → IsFrom n (change public_key token_address s)
unfolding change
change-IsFrom n public_key token_address s h = elim (Option-cases (present public_key)) [
  | inl absent ↦ rw (absent) (tt, h)
  | inr (key, given) ↦ elim (Option-cases (present token_address)) [
    | inl absent ↦ rw (given, absent) (tt, h)
    | inr (token, there) ↦ rw (given, there) (h, omega (arith, h))
  ]
]

reply-live : (k : ℕ) (r : Result ℤ) (s : Balance) → (reply k r s).live ≡ s.live
unfolding reply
reply-live k (ok bal) s = ground arith
reply-live k (err e) s = ground arith

reply-next : (k : ℕ) (r : Result ℤ) (s : Balance) → (reply k r s).next ≡ s.next
unfolding reply
reply-next k (ok bal) s = ground arith
reply-next k (err e) s = ground arith

step-IsFrom : (n : ℕ) (e : Event) (s : Balance) → IsFrom n s → IsFrom n (step e s)
unfolding step
step-IsFrom n (changed public_key token_address) s (_, h) =
    change-IsFrom n public_key token_address s h
step-IsFrom n (replied k r) s h = rw (reply-live k r s, reply-next k r s) h
step-IsFrom n unmounted s (_, h) = (tt, h)

not_live : (n k : ℕ) (live : Option ℕ) → IsLater n live → k < n → is_live k live ≡ false
not_live n k none h earlier = refl
not_live n k (some j) h earlier = ground (arith, h, earlier)

reply_earlier : (n k : ℕ) (r : Result ℤ) (s : Balance) → IsFrom n s → k < n → reply k r s ≡ s
unfolding reply
reply_earlier n k (ok bal) s (h, _) earlier = rw (not_live n k s.live h earlier) refl
reply_earlier n k (err e) s (h, _) earlier = rw (not_live n k s.live h earlier) refl

run_from :
    (n : ℕ) (es : List Event) (s : Balance) → IsFrom n s → run es s ≡ run (without_earlier n es) s
unfolding run step
run_from n [] s h = refl
run_from n (changed public_key token_address ∷ es) s h =
    run_from n es (step (changed public_key token_address) s)
      (step-IsFrom n (changed public_key token_address) s h)
run_from n (unmounted ∷ es) s h = run_from n es (step unmounted s) (step-IsFrom n unmounted s h)
run_from n (replied k r ∷ es) s h = elim (Bool-cases (ltb k n)) [
  | inl earlier ↦
      let same : step (replied k r) s ≡ s = reply_earlier n k r s h (ground (arith, earlier)) in
      rw (earlier, same) (run_from n es s h)
  | inr later ↦ rw (later) (run_from n es (step (replied k r) s) (step-IsFrom n (replied k r) s h))
]

-- Once the key or the token changes, or the component unmounts, the replies to requests made before
-- change nothing: whatever follows, also new changes and their replies in any order, gives the state
-- that it gives without them.
pub run-without_earlier :
    (e : Event) (es : List Event) (s : Balance)
    → is_reply e ≡ false
    → run (e ∷ es) s ≡ run (e ∷ without_earlier s.next es) s
unfolding run step
run-without_earlier (changed public_key token_address) es s h =
    run_from s.next es (change public_key token_address s)
      (change-IsFrom s.next public_key token_address s (omega arith))
run-without_earlier unmounted es s h =
    run_from s.next es (record s { live = none }) (tt, omega arith)
run-without_earlier (replied k r) es s h = ground (arith, h)

dead_run :
    (replies : List (ℕ × Result ℤ)) (s : Balance) → s.live ≡ none → run (events replies) s ≡ s
unfolding run step
dead_run [] s h = refl
dead_run ((j, r) ∷ rest) s h = rw (reply_dead j r s h, run) (dead_run rest s h)

change-none :
    (public_key token_address : Option String) (s : Balance)
    → present public_key ≡ none
    → change public_key token_address s ≡ record s { balance = none; live = none }
unfolding change
change-none public_key token_address s h = ground arith

-- If the wallet goes away while a balance is loading, the hook shows no balance, and
-- goes on to show that it is loading: no reply that comes later ends it.
pub loading_sticks :
    (public_key token_address : Option String) (replies : List (ℕ × Result ℤ)) (s : Balance)
    → present public_key ≡ none
    → s.loading ≡ true
    → ((run (events replies) (change public_key token_address s)).loading ≡ true)
      × ((run (events replies) (change public_key token_address s)).balance ≡ none)
loading_sticks public_key token_address replies s h l =
    let same = change-none public_key token_address s h in
    let done = dead_run replies (record s { balance = none; live = none }) refl in
    rw (same, done) (l, refl)
