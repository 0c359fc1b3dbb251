-- ===== src/Services/Snapshot.antt =====
-- The checkpoints of services/snapshot/snapshotStore.js. The storage is an interface, and
-- `MemoryStorage` fills it. Times are unix seconds.
use Prim.Native.Nat.{ℕ, zero, suc, ◌+◌, ◌-◌}
use Prim.Native.String.{String}
use paystream_contracts.Prelude.{
  ◌≡◌, Bool, true, List, [], ◌∷◌, ◌++◌, Option, none, some, ltb, leb, if◌then◌else◌, ◌&&◌, length,
  keep, false,
}
use text.Mathlib.Text.{◌==◌}
use paystream_contracts.Prelude.Dict.{lookup, insert, lookup-insert}
use paystream_contracts.Js.{◌<>◌}
pub mod Recent
pub mod Refines
pub mod Queries

pub record Snapshot : Type 0 where
  pub ts : ℕ
  pub id : String
  pub status : String
  pub deposit : ℕ
  pub withdrawn : ℕ
  pub rate_per_second : ℕ
  pub last_withdraw_time : ℕ

pub record Stream : Type 0 where
  pub id : String
  pub status : String
  pub deposit : ℕ
  pub withdrawn : ℕ
  pub rate_per_second : ℕ
  pub last_withdraw_time : ℕ

-- A storage backend whose state is a `W`; `none` is `null`.
pub record Storage (W : Type 0) : Type 0 where
  pub save : String → List Snapshot → W → W
  pub load : String → W → Option (List Snapshot)

-- A backend loads what was saved last under a key.
abbrev pub IsStorage : {W : Type 0} → Storage W → Type 0
IsStorage {W} storage =
    (key other : String) (value : List Snapshot) (w : W)
    → storage.load other (storage.save key value w)
      ≡ (if key == other then some value else storage.load other w)

-- `MemoryStorage`
unfoldable pub memory_storage : Storage (List (String × List Snapshot))
memory_storage = record { save = insert; load = lookup }

pub memory_storage-IsStorage : IsStorage memory_storage
unfolding memory_storage
memory_storage-IsStorage key other value w = lookup-insert key other value w

-- `array[array.length - 1]`
unfoldable pub last : List Snapshot → Option Snapshot
last [] = none
last (s ∷ []) = some s
last (s ∷ t ∷ rest) = last (t ∷ rest)

unfoldable pub drop : ℕ → List Snapshot → List Snapshot
drop zero xs = xs
drop (suc n) [] = []
drop (suc n) (x ∷ xs) = drop n xs

-- `snapshots.slice(-limit)`, where `slice(-0)` is the whole array
unfoldable pub keep_last : ℕ → List Snapshot → List Snapshot
keep_last limit xs = if leb limit 0 then xs else drop (length xs - limit) xs

unfoldable pub compact : Stream → ℕ → Snapshot
compact stream ts = record {
  ts = ts;
  id = stream.id;
  status = stream.status;
  deposit = stream.deposit;
  withdrawn = stream.withdrawn;
  rate_per_second = stream.rate_per_second;
  last_withdraw_time = stream.last_withdraw_time;
}

unfoldable pub key_of : String → String
key_of id = "stream:" <> id

pub record Options : Type 0 where
  pub interval_secs : ℕ
  pub retention_limit : ℕ

-- The defaults of the constructor's arguments
unfoldable pub new_options : Option ℕ → Option ℕ → Options
new_options interval limit = record {
  interval_secs = elim interval [ none ↦ 3600 | some n ↦ n ];
  retention_limit = elim limit [ none ↦ 720 | some n ↦ n ];
}

-- `last && now - last.ts < interval`
unfoldable pub too_soon : ℕ → Option Snapshot → ℕ → Bool
too_soon interval none now = false
too_soon interval (some s) now = ltb now (s.ts + interval)

abbrev pub in_range : Option ℕ → Option ℕ → Snapshot → Bool
in_range from_ts to_ts s =
    elim from_ts [ none ↦ true | some t ↦ leb t s.ts ]
    && elim to_ts [ none ↦ true | some t ↦ leb s.ts t ]

module _ {W : Type 0} (storage : Storage W) where
  -- `await this.storage.load(key) || []`
  unfoldable pub stored : String → W → List Snapshot
  stored id w = elim (storage.load (key_of id) w) [ none ↦ [] | some snapshots ↦ snapshots ]

  -- `forceCheckpoint` at the time `now`
  unfoldable pub force_checkpoint : Options → Stream → ℕ → W → Snapshot × W
  force_checkpoint options stream now w =
      let snapshot = compact stream now in
      let trimmed = keep_last options.retention_limit (stored stream.id w ++ snapshot ∷ []) in
      (snapshot, storage.save (key_of stream.id) trimmed w)

  -- `checkpoint` at the time `now`, which goes on like a forced one
  unfoldable pub checkpoint : Options → Stream → ℕ → W → Option Snapshot × W
  checkpoint options stream now w =
      if too_soon options.interval_secs (last (stored stream.id w)) now
      then (none, w)
      else (let snapshot = compact stream now in
          let trimmed = keep_last options.retention_limit (stored stream.id w ++ snapshot ∷ []) in
          (some snapshot, storage.save (key_of stream.id) trimmed w))

  unfoldable pub query : String → Option ℕ → Option ℕ → W → List Snapshot
  query id from_ts to_ts w = keep (in_range from_ts to_ts) (stored id w)

  unfoldable pub query_at : String → ℕ → W → Option Snapshot
  query_at id at_ts w = last (query id none (some at_ts) w)

  unfoldable pub cleanup : String → ℕ → W → ℕ × W
  cleanup id older_than w =
      let kept = keep (λ s. leb older_than s.ts) (stored id w) in
      (length (stored id w) - length kept, storage.save (key_of id) kept w)
