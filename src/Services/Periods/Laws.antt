-- ===== src/Services/Periods/Laws.antt =====
-- Proofs about the periods of services/balance/balance.js.
use Prim.Native.Nat.{ℕ, ◌+◌, ◌<◌}
use Prim.Native.String.{String}
use paystream_contracts.Prelude.{◌≡◌, List, [], ◌∷◌, Option, some, ◌⊎◌}
use paystream_contracts.Prelude.Int.{ℤ, pos}
use paystream_contracts.Js.{ok}
use paystream_contracts.Services.Periods.{Calendar, Period, Earned, next_cursor}

-- The steps of the calendar go forward.
abbrev pub IsForward : Calendar → Type 0
IsForward calendar = (t : ℕ) → (t < calendar.next_day t) × (t < calendar.next_month t)

-- The periods follow each other without a gap from `a` to `b`, and none is empty.
abbrev pub IsTiling : ℕ → ℕ → List Period → Type 0
IsTiling a b [] = a ≡ b
IsTiling a b (p ∷ ps) = (p.start ≡ a) × (a < p.end) × IsTiling p.end b ps

-- The periods that are offered, and a custom one whose length is positive.
abbrev pub IsAccepted : String → Option ℤ → Type 0
IsAccepted d custom =
    (d ≡ "daily")
    ⊎ (d ≡ "weekly")
    ⊎ (d ≡ "monthly")
    ⊎ ((d ≡ "custom") × (n : ℕ) × (custom ≡ some (pos n)) × (0 < n))

-- The steps neither throw nor stand still.
abbrev pub IsDuration : Calendar → String → Option ℤ → Type 0
IsDuration calendar d custom =
    (t : ℕ) → (n : ℕ) × (next_cursor calendar d custom t ≡ ok n) × (t < n)

-- What is earned in all the periods.
abbrev pub total : List Earned → ℕ
total [] = 0
total (e ∷ es) = e.earned + total es
