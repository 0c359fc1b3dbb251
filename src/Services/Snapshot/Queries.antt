-- ===== src/Services/Snapshot/Queries.antt =====
-- Proofs about services/snapshot/snapshotStore.js: the stored checkpoints are spaced and few, and
-- what `queryAt` and `cleanup` answer.
use Prim.Native.Nat.{ℕ, zero, suc, ◌+◌, ◌-◌, ◌≤◌, ◌<◌}
use Prim.Native.String.{String}
use text.Mathlib.Text.{◌==◌}
use mathlib.Core.Path.{subst}
use paystream_contracts.Prelude.{
  ◌≡◌, refl, sym, ap, arith, List, [], ◌∷◌, ◌++◌, Option, none, some, false, Bool-cases, inl, inr,
  if◌then◌else◌, length, leb, keep, All,
}
use paystream_contracts.Services.Snapshot.{
  Snapshot, Stream, Storage, IsStorage, Options, last, drop, keep_last, compact, too_soon, stored,
  checkpoint, query, query_at, in_range,
}
use paystream_contracts.Services.Snapshot.Recent.{length-keep_last}
use paystream_contracts.Services.Snapshot.Refines.{stored-save}

-- Each entry is at least `n` seconds later than the one before.
abbrev pub IsSpaced : ℕ → List Snapshot → Type 0
IsSpaced n [] = Unit
IsSpaced n (s ∷ []) = Unit
IsSpaced n (s ∷ t ∷ rest) = (s.ts + n ≤ t.ts) × IsSpaced n (t ∷ rest)

IsSpaced-drop : (n k : ℕ) (xs : List Snapshot) → IsSpaced n xs → IsSpaced n (drop k xs)
unfolding drop
IsSpaced-drop n zero xs h = h
IsSpaced-drop n (suc k) [] h = tt
IsSpaced-drop n (suc k) (x ∷ []) h = IsSpaced-drop n k [] tt
IsSpaced-drop n (suc k) (x ∷ y ∷ xs) (_, h) = IsSpaced-drop n k (y ∷ xs) h

IsSpaced-keep_last :
    (n limit : ℕ) (xs : List Snapshot) → IsSpaced n xs → IsSpaced n (keep_last limit xs)
unfolding keep_last
IsSpaced-keep_last n limit xs h = elim (Bool-cases (leb limit 0)) [
  | inl none_kept ↦ rw none_kept h
  | inr some_kept ↦ rw some_kept (IsSpaced-drop n (length xs - limit) xs h)
]

-- An entry that is not too soon after the newest one.
IsSpaced-append :
    (n : ℕ) (xs : List Snapshot) (x : Snapshot)
    → IsSpaced n xs
    → too_soon n (last xs) x.ts ≡ false
    → IsSpaced n (xs ++ x ∷ [])
unfolding last too_soon
IsSpaced-append n [] x h due = tt
IsSpaced-append n (y ∷ []) x h due = (ground (arith, due), tt)
IsSpaced-append n (y ∷ z ∷ xs) x (gap, h) due = (gap, IsSpaced-append n (z ∷ xs) x h due)

-- What is stored of a stream is spaced by the interval and within the retention limit.
abbrev pub IsPruned : Options → List Snapshot → Type 0
IsPruned options xs = IsSpaced options.interval_secs xs × (length xs ≤ options.retention_limit)

module _ {W : Type 0} (storage : Storage W) where
  -- For a backend that loads what was saved and a positive retention limit, a periodic checkpoint
  -- keeps the entries of every stream at least the interval apart and within the retention limit,
  -- whatever the clock shows.
  pub checkpoint-IsPruned :
      IsStorage storage
      → (options : Options) (stream : Stream) (now : ℕ) (w : W) → 0 < options.retention_limit
      → ((id : String) → IsPruned options (stored storage id w))
      → (id : String)
      → IsPruned options (stored storage id (checkpoint storage options stream now w).1)
  unfolding checkpoint compact
  checkpoint-IsPruned laws options stream now w positive h id =
      elim (Bool-cases (too_soon options.interval_secs (last (stored storage stream.id w)) now)) [
        | inl early ↦ rw early (h id)
        | inr due ↦
            let xs = stored storage stream.id w in
            let new = compact stream now in
            let kept = keep_last options.retention_limit (xs ++ new ∷ []) in
            let spaced = IsSpaced-append options.interval_secs xs new (h stream.id).0 due in
            let pruned : IsPruned options kept = (
              IsSpaced-keep_last options.interval_secs options.retention_limit (xs ++ new ∷ [])
                  spaced,
              length-keep_last options.retention_limit (xs ++ new ∷ []) positive,
            ) in
            let either : IsPruned options (if stream.id == id then kept else stored storage id w) =
              elim (Bool-cases (stream.id == id)) [
                | inl same ↦ rw same pruned
                | inr different ↦ rw different (h id)
              ] in
            rw due
              (subst (IsPruned options) (sym (stored-save storage laws stream.id id kept w)) either)
      ]

-- The entry that is the last one at or before the time `at`, in the order of the list.
abbrev pub IsLatest : ℕ → List Snapshot → Option Snapshot → Type 0
IsLatest at xs none = All (λ t. at < t.ts) xs
IsLatest at xs (some s) =
    (older : List Snapshot) × (newer : List Snapshot) × (xs ≡ older ++ s ∷ newer)
    × (s.ts ≤ at)
    × All (λ t. t.ts ≤ s.ts) older
    × All (λ t. at < t.ts) newer

IsSpaced-tail : (n : ℕ) (x : Snapshot) (xs : List Snapshot) → IsSpaced n (x ∷ xs) → IsSpaced n xs
IsSpaced-tail n x [] h = tt
IsSpaced-tail n x (y ∷ xs) (_, h) = h

-- The first of a spaced list is not later than any other.
first_le :
    (n : ℕ) (x : Snapshot) (older : List Snapshot) (s : Snapshot) (newer : List Snapshot)
    → IsSpaced n (x ∷ older ++ s ∷ newer)
    → x.ts ≤ s.ts
first_le n x [] s newer (gap, h) = omega (arith, gap)
first_le n x (y ∷ older) s newer (gap, h) = omega (arith, gap, first_le n y older s newer h)

-- The answer for the rest of a list, with an entry before it that is in time or not.
abbrev or_else : Option Snapshot → Snapshot → Option Snapshot
or_else none x = some x
or_else (some s) x = some s

last-cons : (x : Snapshot) (xs : List Snapshot) → last (x ∷ xs) ≡ or_else (last xs) x
unfolding last
last-cons x [] = refl
last-cons x (y ∷ []) = refl
last-cons x (y ∷ z ∷ xs) = any_other (last (z ∷ xs)) (last-cons y (z ∷ xs))
  where
    any_other : (o : Option Snapshot) → o ≡ or_else o y → o ≡ or_else o x
    any_other none e = ground (arith, e)
    any_other (some s) e = refl

IsLatest-older :
    (at n : ℕ) (x : Snapshot) (xs : List Snapshot) (s : Snapshot)
    → IsSpaced n (x ∷ xs)
    → IsLatest at xs (some s)
    → IsLatest at (x ∷ xs) (some s)
IsLatest-older at n x xs s h (older, newer, e, le, old, new) =
    let first = first_le n x older s newer (subst (λ ys. IsSpaced n (x ∷ ys)) e h) in
    (x ∷ older, newer, ap (λ ys. x ∷ ys) e, le, (first, old), new)

IsLatest-in :
    (at n : ℕ) (x : Snapshot) (xs : List Snapshot) (o : Option Snapshot)
    → x.ts ≤ at
    → IsSpaced n (x ∷ xs)
    → IsLatest at xs o
    → IsLatest at (x ∷ xs) (or_else o x)
IsLatest-in at n x xs none le h l = ([], xs, refl, le, tt, l)
IsLatest-in at n x xs (some s) le h l = IsLatest-older at n x xs s h l

IsLatest-out :
    (at n : ℕ) (x : Snapshot) (xs : List Snapshot) (o : Option Snapshot)
    → at < x.ts
    → IsSpaced n (x ∷ xs)
    → IsLatest at xs o
    → IsLatest at (x ∷ xs) o
IsLatest-out at n x xs none lt h l = (lt, l)
IsLatest-out at n x xs (some s) lt h l = IsLatest-older at n x xs s h l

last_of_keep :
    (at n : ℕ) (xs : List Snapshot)
    → IsSpaced n xs
    → IsLatest at xs (last (keep (in_range none (some at)) xs))
unfolding last
last_of_keep at n [] h = tt
last_of_keep at n (x ∷ xs) h =
    let rest = last_of_keep at n xs (IsSpaced-tail n x xs h) in
    elim (Bool-cases (leb x.ts at)) [
      | inl early ↦
          let new = last-cons x (keep (in_range none (some at)) xs) in
          rw early (
            subst (IsLatest at (x ∷ xs)) (sym new) (
              IsLatest-in at n x xs (last (keep (in_range none (some at)) xs))
                (ground (arith, early)) h rest))
      | inr late ↦ rw late (
          IsLatest-out at n x xs (last (keep (in_range none (some at)) xs)) (ground (arith, late)) h
            rest)
    ]

module _ {W : Type 0} (storage : Storage W) where
  -- If the entries of a stream are in the order of their times, `queryAt` answers the latest one
  -- that is not after the time: none is between them, and without an answer all are after it.
  pub query_at-IsLatest :
      (id : String) (at : ℕ) (w : W)
      → IsSpaced 0 (stored storage id w)
      → IsLatest at (stored storage id w) (query_at storage id at w)
  unfolding query_at query
  query_at-IsLatest id at w h = last_of_keep at 0 (stored storage id w) h
