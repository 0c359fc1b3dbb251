-- ===== src/Services/Migration/Runner.antt =====
-- `migrate` and `rollback` of services/migration/migrationRunner.js.
use Prim.Native.String.{String}
use paystream_contracts.Prelude.{
  Bool, List, [], ◌∷◌, ◌++◌, Option, none, some, ◌&&◌, not, length, keep, map,
}
use paystream_contracts.Prelude.Dict.{lookup}
use paystream_contracts.Js.{
  Error, new_error, Result, Io, ◌>>=◌, ◌>>◌, pure, throw, lift, modify, try_catch, ◌<>◌,
}
use paystream_contracts.Services.Migration.{
  Migration, State, Entry, Direction, Status, up, down, started, success, failed, rolled_back,
  Notice, migration_started, migration_failed, migration_success, rollback_started, rollback_failed,
  rollback_success, ensure_table, is_applied, audit, notify, sort, run_validate,
}

abbrev pub unknown : Error
unknown = record { name = "TypeError"; message = "Cannot read properties of undefined" }

unfoldable pub reverse : List String → List String
reverse [] = []
reverse (x ∷ xs) = reverse xs ++ x ∷ []

abbrev pub no_down : String → Error
no_down version = new_error ("Migration v" <> version <> " has no rollback (down) function")

module _ (S : Type 0) where
  -- What a runner holds: whether there is a database, and the registered migrations. `before` is
  -- the order of texts.
  pub record Runner : Type 0 where
    pub has_db : Bool
    pub migrations : List (String × Migration S)
    pub before : String → String → Bool

module _ {S : Type 0} where
  -- `_sortedVersions`
  unfoldable pub sorted_versions : Runner S → List String
  sorted_versions r = sort r.before (map (λ entry. entry.0) r.migrations)

  abbrev pub entry_of : Migration S → String → Direction → Status → Option String → Entry
  entry_of m version direction status error = record {
    version = version;
    description = some m.description;
    direction = direction;
    status = status;
    error = error;
  }

  -- What is left of a step that threw: the entry, the notice and the error.
  abbrev pub fail : Bool → Entry → Notice → Error → Io State (List S)
  fail has_db e n x = modify (audit has_db e) >> modify (notify n) >> throw x

  -- `await mig.up(current)` with its `catch`
  unfoldable pub try_up : Bool → String → Migration S → List S → Io State (List S)
  try_up has_db version m current = try_catch (lift (m.up current)) (λ x.
      fail has_db (entry_of m version up failed (some x.message))
        (migration_failed version x.message) x)

  -- One turn of the loop of `migrate`, up to the validation after the step
  unfoldable pub attempt : Bool → String → Migration S → List S → Io State (List S)
  attempt has_db version m current =
      run_validate has_db m current "before"
      >> modify (audit has_db (entry_of m version up started none))
      >> modify (notify (migration_started version m.description))
      >> try_up has_db version m current
      >>= λ migrated. run_validate has_db m migrated "after" >> pure migrated

  -- The end of the turn
  unfoldable pub succeed : Bool → String → Migration S → List S → Io State (List S)
  succeed has_db version m migrated =
      modify (audit has_db (entry_of m version up success none))
      >> modify (notify (migration_success version m.description (length migrated)))
      >> pure migrated

  unfoldable pub run_one : Runner S → String → List S → Io State (List S)
  run_one r version current = elim (lookup version r.migrations) [
    | none ↦ throw unknown
    | some m ↦ attempt r.has_db version m current >>= succeed r.has_db version m
  ]

  unfoldable pub run_all : Runner S → List String → List S → Io State (List S)
  run_all r [] current = pure current
  run_all r (version ∷ rest) current = run_one r version current >>= run_all r rest

  unfoldable pub pending : Runner S → State → List String
  pending r w = keep (λ v. not (is_applied r.has_db w v)) (sorted_versions r)

  -- `migrate`
  unfoldable pub migrate : Runner S → List S → Io State (List S)
  migrate r streams w =
      let ready = ensure_table r.has_db w in run_all r (pending r ready) streams ready

  -- The versions after `target` that count as applied, newest first
  unfoldable pub to_rollback : Runner S → String → State → List String
  to_rollback r target w =
      reverse (keep (λ v. is_applied r.has_db w v && r.before target v) (sorted_versions r))

  -- One turn of the loop of `rollback`, with the `down` of the migration
  unfoldable pub roll_down :
      Bool → String → Migration S → (List S → Result (List S)) → List S → Io State (List S)
  roll_down has_db version m step current =
      modify (audit has_db (entry_of m version down started none))
      >> modify (notify (rollback_started version))
      >> try_catch (lift (step current)) (λ x.
        fail has_db (entry_of m version down failed (some x.message))
          (rollback_failed version x.message) x)
      >>= λ back.
          modify (audit has_db (entry_of m version down rolled_back none))
          >> modify (notify (rollback_success version))
          >> pure back

  unfoldable pub roll_one : Runner S → String → List S → Io State (List S)
  roll_one r version current = elim (lookup version r.migrations) [
    | none ↦ throw unknown
    | some m ↦ elim m.down [
      | none ↦ throw (no_down version)
      | some step ↦ roll_down r.has_db version m step current
    ]
  ]

  unfoldable pub roll_all : Runner S → List String → List S → Io State (List S)
  roll_all r [] current = pure current
  roll_all r (version ∷ rest) current = roll_one r version current >>= roll_all r rest

  -- `rollback`
  unfoldable pub rollback : Runner S → List S → String → Io State (List S)
  rollback r streams target w =
      let ready = ensure_table r.has_db w in roll_all r (to_rollback r target ready) streams ready
