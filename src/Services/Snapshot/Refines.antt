-- ===== src/Services/Snapshot/Refines.antt =====
-- Proofs about services/snapshot/snapshotStore.js: the pruned store stands for a log that forgets
-- nothing, with any storage backend.
use Prim.Native.Nat.{ℕ}
use Prim.Native.String.{String}
use text.Mathlib.Text.{◌==◌}
use text.Mathlib.TextLemmas.{append_cancel_left}
use paystream_contracts.Prelude.{
  ◌≡◌, arith, eq_iff, List, [], ◌∷◌, ◌++◌, Option, none, some, if◌then◌else◌,
}
use paystream_contracts.Services.Snapshot.{
  Snapshot, Stream, Storage, IsStorage, Options, last, keep_last, compact, key_of, too_soon, stored,
  checkpoint, force_checkpoint,
}

key_eq : (id other : String) → (key_of id == key_of other) ≡ (id == other)
unfolding key_of
key_eq id other = ground (
  arith,
  eq_iff id other,
  eq_iff (key_of id) (key_of other),
  append_cancel_left "stream:" id other,
)

pub data Command : Type 0 where
  periodic : Stream → ℕ → Command
  forced : Stream → ℕ → Command

-- Whatever was ever recorded, by stream.
abbrev pub Log : Type 0
Log = String → List Snapshot

abbrev pub record_in : Log → String → Snapshot → Log
record_in log id s other = if id == other then log id ++ s ∷ [] else log other

-- The specification: a checkpoint is due when the last entry is `interval` old.
unfoldable pub specified : ℕ → Command → Log → Option Snapshot × Log
specified interval (periodic stream now) log =
    if too_soon interval (last (log stream.id)) now
    then (none, log)
    else (some (compact stream now), record_in log stream.id (compact stream now))
specified interval (forced stream now) log =
    (some (compact stream now), record_in log stream.id (compact stream now))

unfoldable pub specified_run : ℕ → List Command → Log → List (Option Snapshot) × Log
specified_run interval [] log = ([], log)
specified_run interval (c ∷ cs) log =
    let (reply, next) = specified interval c log in
    let (replies, end_) = specified_run interval cs next in (reply ∷ replies, end_)

module _ {W : Type 0} (storage : Storage W) where
  unfoldable pub execute : Options → Command → W → Option Snapshot × W
  execute options (periodic stream now) w = checkpoint storage options stream now w
  execute options (forced stream now) w =
      let (s, next) = force_checkpoint storage options stream now w in (some s, next)

  unfoldable pub execute_all : Options → List Command → W → List (Option Snapshot) × W
  execute_all options [] w = ([], w)
  execute_all options (c ∷ cs) w =
      let (reply, next) = execute options c w in
      let (replies, end_) = execute_all options cs next in (reply ∷ replies, end_)

  -- The store holds of each stream the newest entries of the log.
  abbrev pub Represents : ℕ → Log → W → Type 0
  Represents limit log w = (id : String) → stored storage id w ≡ keep_last limit (log id)

  pub stored-save :
      IsStorage storage
      → (id other : String) (xs : List Snapshot) (w : W)
      → stored storage other (storage.save (key_of id) xs w)
        ≡ (if id == other then xs else stored storage other w)
  unfolding stored key_of
  stored-save laws id other xs w =
      let same = key_eq id other in
      let loaded = laws (key_of id) (key_of other) xs w in ground (arith, same, loaded)
