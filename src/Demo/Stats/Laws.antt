-- ===== src/Demo/Stats/Laws.antt =====
-- Proofs about `stats` (demo/src/useEmployerDashboard.ts).
use Prim.Native.String.{String}
use paystream_contracts.Prelude.{
  ℕ, suc, ◌+◌, ◌≡◌, ◌≢◌, refl, ◌∙◌, arith, Bool, true, false, ◌||◌, List, [], ◌∷◌, length, keep,
  if◌then◌else◌, eq_iff,
}
use paystream_contracts.Js.{is_text, Native, undefined, str, int, bool, obj}
use paystream_contracts.Js.Float.{Float}
use paystream_contracts.Sdk.Types.{Stream}
use paystream_contracts.Demo.Stats.{DashboardStats, zero_stats, add_stream, reduce, stats}

-- How many streams have a status, by its text.
abbrev pub with_status : String → List Stream → ℕ
with_status name streams = length (keep (λ s. is_text s.status name) streams)

-- Each counter of the second argument, added to what the first one has.
pub record IsCount (fl : Float) (streams : List Stream) (from to : DashboardStats fl) : Type 0 where
  pub total : to.total ≡ from.total + length streams
  pub active : to.active ≡ from.active + with_status "Active" streams
  pub paused : to.paused ≡ from.paused + with_status "Paused" streams
  pub cancelled : to.cancelled ≡ from.cancelled + with_status "Cancelled" streams
  pub exhausted : to.exhausted ≡ from.exhausted + with_status "Exhausted" streams

-- A value is equal to one text at most.
is_text_one : (v : Native) (s t : String) → s ≢ t → is_text v s ≡ true → is_text v t ≡ false
is_text_one undefined s t d h = cc
is_text_one (int n) s t d h = cc
is_text_one (bool b) s t d h = cc
is_text_one (obj o) s t d h = cc
is_text_one (str v) s t d h = ground (arith, eq_iff v s, eq_iff v t)

with_status-cons :
    (name : String) (s : Stream) (rest : List Stream)
    → with_status name (s ∷ rest) ≡ with_status name (s ∷ []) + with_status name rest
with_status-cons name s rest = ground arith

ne_paused : ◌≢◌ {A = String} "Active" "Paused"
ne_paused = ground (arith, eq_iff "Active" "Paused")

ne_cancelled : (◌≢◌ {A = String} "Active" "Cancelled") × (◌≢◌ {A = String} "Paused" "Cancelled")
ne_cancelled = ground (arith, eq_iff "Active" "Cancelled", eq_iff "Paused" "Cancelled")

ne_exhausted :
    (◌≢◌ {A = String} "Active" "Exhausted")
    × (◌≢◌ {A = String} "Paused" "Exhausted")
    × (◌≢◌ {A = String} "Cancelled" "Exhausted")
ne_exhausted = ground (
  arith,
  eq_iff "Active" "Exhausted",
  eq_iff "Paused" "Exhausted",
  eq_iff "Cancelled" "Exhausted",
)

module _ (fl : Float) where
  add_stream-IsCount :
      (s : Stream) (acc : DashboardStats fl) → IsCount fl (s ∷ []) acc (add_stream fl acc s)
  unfolding add_stream
  add_stream-IsCount s acc = ground (
    arith,
    is_text_one s.status "Active" "Paused" ne_paused,
    is_text_one s.status "Active" "Cancelled" ne_cancelled.0,
    is_text_one s.status "Paused" "Cancelled" ne_cancelled.1,
    is_text_one s.status "Active" "Exhausted" ne_exhausted.0,
    is_text_one s.status "Paused" "Exhausted" ne_exhausted.1,
    is_text_one s.status "Cancelled" "Exhausted" ne_exhausted.2,
  )

  reduce-IsCount :
      (streams : List Stream) (acc : DashboardStats fl)
      → IsCount fl streams acc (reduce fl acc streams)
  unfolding reduce
  reduce-IsCount [] acc = ground arith
  reduce-IsCount (s ∷ rest) acc =
      let one = add_stream-IsCount s acc in
      let more = reduce-IsCount rest (add_stream fl acc s) in
      record {
        total = omega (arith, one.total, more.total);
        active = omega (arith, one.active, more.active, with_status-cons "Active" s rest);
        paused = omega (arith, one.paused, more.paused, with_status-cons "Paused" s rest);
        cancelled =
            omega (arith, one.cancelled, more.cancelled, with_status-cons "Cancelled" s rest);
        exhausted =
            omega (arith, one.exhausted, more.exhausted, with_status-cons "Exhausted" s rest);
      }

  -- The figures of a list: the total is its length, and each counter is the number of streams
  -- with that status.
  pub stats-IsCount :
      (streams : List Stream) → IsCount fl streams (zero_stats fl) (stats fl streams)
  unfolding stats
  stats-IsCount streams = reduce-IsCount streams (zero_stats fl)

-- Whether the chain of tests knows the status of a stream.
abbrev pub is_known : Stream → Bool
is_known s =
    is_text s.status "Active"
    || is_text s.status "Paused"
    || is_text s.status "Cancelled"
    || is_text s.status "Exhausted"

known_once :
    (s : Stream) (rest : List Stream) (n : ℕ)
    → with_status "Active" rest
        + with_status "Paused" rest
        + with_status "Cancelled" rest
        + with_status "Exhausted" rest
      ≡ n
    → with_status "Active" (s ∷ rest)
        + with_status "Paused" (s ∷ rest)
        + with_status "Cancelled" (s ∷ rest)
        + with_status "Exhausted" (s ∷ rest)
      ≡ (if is_known s then suc n else n)
known_once s rest n h = ground (
  arith,
  is_text_one s.status "Active" "Paused" ne_paused,
  is_text_one s.status "Active" "Cancelled" ne_cancelled.0,
  is_text_one s.status "Paused" "Cancelled" ne_cancelled.1,
  is_text_one s.status "Active" "Exhausted" ne_exhausted.0,
  is_text_one s.status "Paused" "Exhausted" ne_exhausted.1,
  is_text_one s.status "Cancelled" "Exhausted" ne_exhausted.2,
)

known_all :
    (streams : List Stream)
    → with_status "Active" streams
        + with_status "Paused" streams
        + with_status "Cancelled" streams
        + with_status "Exhausted" streams
      ≡ length (keep is_known streams)
known_all [] = refl
known_all (s ∷ rest) =
    known_once s rest (length (keep is_known rest)) (known_all rest) ∙ ground arith

-- The four counters together count the streams whose status is one of the four texts, each once.
-- So a stream whose status was decoded to anything but a text is in the total and in no counter.
pub stats_known :
    (fl : Float) (streams : List Stream)
    → let t = stats fl streams in
      t.active + t.paused + t.cancelled + t.exhausted ≡ length (keep is_known streams)
stats_known fl streams =
    let c = stats-IsCount fl streams in
    omega (arith, c.active, c.paused, c.cancelled, c.exhausted, known_all streams)
