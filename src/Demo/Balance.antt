-- ===== src/Demo/Balance.antt =====
-- The token balance of an employer (demo/src/useTokenBalance.ts). A run of the effect is numbered;
-- what happens is a sequence of runs of the effect and of replies to the requests that the runs
-- have made, in any order.
pub mod Laws
use Prim.Native.String.{String}
use paystream_contracts.Prelude.{
  ℕ, suc, Bool, true, false, List, [], ◌∷◌, Option, none, some, if◌then◌else◌, ◌==◌,
}
use paystream_contracts.Prelude.Int.{ℤ}
use paystream_contracts.Js.{Result, ok, err, error_text, present}

-- The state of the hook; `live` is the run whose `cancelled` is false and that has a request, and
-- `next` the number of the next run.
pub record Balance : Type 0 where
  pub balance : Option ℤ
  pub loading : Bool
  pub error : Option String
  pub live : Option ℕ
  pub next : ℕ

pub data Event : Type 0 where
  changed : (public_key token_address : Option String) → Event
  replied : ℕ → Result ℤ → Event
  unmounted : Event

abbrev pub is_live : ℕ → Option ℕ → Bool
is_live k none = false
is_live k (some n) = n == k

-- The effect after its guard: `public_key` and `token_address` as the guard sees them.
abbrev run_effect : Option String → Option String → Balance → Balance
run_effect (some _) (some _) s = record s {
  loading = true;
  error = none;
  live = some s.next;
  next = suc s.next;
}
run_effect _ _ s = record s { balance = none; live = none }

-- The cleanup of the last run and the effect of the next, when the dependencies change.
unfoldable pub change : Option String → Option String → Balance → Balance
change public_key token_address s = run_effect (present public_key) (present token_address) s

-- `.then`, `.catch` and `.finally`, if the run is not cancelled
unfoldable pub reply : ℕ → Result ℤ → Balance → Balance
reply k (ok bal) s =
    if is_live k s.live then record s { balance = some bal; loading = false } else s
reply k (err e) s =
    if is_live k s.live then record s { error = some (error_text e); loading = false } else s

unfoldable pub step : Event → Balance → Balance
step (changed public_key token_address) s = change public_key token_address s
step (replied k r) s = reply k r s
step unmounted s = record s { live = none }

unfoldable pub run : List Event → Balance → Balance
run [] s = s
run (e ∷ es) s = run es (step e s)
