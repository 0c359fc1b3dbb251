-- ===== src/Services/Migration/Laws.antt =====
-- Proofs about `migrate` of services/migration/migrationRunner.js, with a database.
use Prim.Native.String.{String}
use paystream_contracts.Prelude.{
  ◌≡◌, arith, true, false, List, [], ◌∷◌, Option, none, some, inl, inr, Option-cases, length,
}
use paystream_contracts.Prelude.Dict.{lookup}
use paystream_contracts.Js.{Result, Io, lift, modify, pure, ◌>>=◌, ◌>>◌}
use paystream_contracts.Js.Laws.{Keeps, Keeps-bind, Keeps-then, Keeps-try_catch}
use paystream_contracts.Services.Migration.{
  Migration, State, Entry, Status, is_down_success, audit, up, started, failed, success, notify,
  Notice, run_validate, judge, migration_started, migration_failed, migration_success,
}
use paystream_contracts.Services.Migration.Runner.{
  Runner, entry_of, fail, try_up, attempt, succeed, run_one, run_all,
}

abbrev pub NotDown : Entry → Type 0
NotDown e = (v : String) → is_down_success v e ≡ false

-- A predicate that no entry of a migration and no notice makes false.
module _ {S : Type 0} (I : State → Type 0)
    (keep_audit : (e : Entry) → NotDown e → Keeps I (modify (audit true e)))
    (keep_notify : (n : Notice) → Keeps I (modify (notify n))) where
  judge-Keeps :
      (m : Migration S) (label : String) (o : Option String) → Keeps I (judge true m label o)
  unfolding judge is_down_success
  judge-Keeps m label none w h = h
  judge-Keeps m label (some reason) w h = keep_audit _ (λ v. ground arith) w h

  run_validate-Keeps :
      (m : Migration S) (streams : List S) (label : String)
      → Keeps I (run_validate true m streams label)
  unfolding run_validate
  run_validate-Keeps m streams label = go m.validate
    where
      go :
          (o : Option (List S → Result (Option String)))
          → Keeps I (elim o as (λ _. Io State (Unit {0})) [
            | none ↦ pure tt
            | some validate ↦ lift (validate streams) >>= judge true m label
          ])
      go none w h = h
      go (some validate) w h =
          Keeps-bind I (lift (validate streams)) (judge true m label) (λ w h. h)
            (λ o. judge-Keeps m label o) w h

  entry-Keeps :
      (m : Migration S) (version : String) (status : Status) (error : Option String)
      → Keeps I (modify (audit true (entry_of m version up status error)))
  unfolding is_down_success
  entry-Keeps m version status error =
      keep_audit (entry_of m version up status error) (λ v. ground arith)

  try_up-Keeps :
      (version : String) (m : Migration S) (current : List S)
      → Keeps I (try_up true version m current)
  unfolding try_up
  try_up-Keeps version m current =
      Keeps-try_catch I (lift (m.up current))
        (λ x.
          fail true (entry_of m version up failed (some x.message))
            (migration_failed version x.message) x)
        (λ w h. h)
        (λ x w h.
          keep_notify (migration_failed version x.message)
            (audit true (entry_of m version up failed (some x.message)) w)
            (entry-Keeps m version failed (some x.message) w h))

  pub attempt-Keeps :
      (version : String) (m : Migration S) (current : List S)
      → Keeps I (attempt true version m current)
  unfolding attempt
  attempt-Keeps version m current =
      Keeps-bind I
        (run_validate true m current "before"
          >> modify (audit true (entry_of m version up started none))
          >> modify (notify (migration_started version m.description))
          >> try_up true version m current)
        (λ migrated. run_validate true m migrated "after" >> pure migrated)
        (Keeps-then I
          (run_validate true m current "before"
            >> modify (audit true (entry_of m version up started none))
            >> modify (notify (migration_started version m.description)))
          (try_up true version m current)
          (Keeps-then I
            (run_validate true m current "before"
              >> modify (audit true (entry_of m version up started none)))
            (modify (notify (migration_started version m.description)))
            (Keeps-then I (run_validate true m current "before")
              (modify (audit true (entry_of m version up started none)))
              (run_validate-Keeps m current "before") (entry-Keeps m version started none))
            (keep_notify (migration_started version m.description)))
          (try_up-Keeps version m current))
        (λ migrated.
          Keeps-then I (run_validate true m migrated "after") (pure migrated)
            (run_validate-Keeps m migrated "after") (λ w h. h))

  succeed-Keeps :
      (version : String) (m : Migration S) (migrated : List S)
      → Keeps I (succeed true version m migrated)
  unfolding succeed
  succeed-Keeps version m migrated w h =
      keep_notify (migration_success version m.description (length migrated))
        (audit true (entry_of m version up success none) w) (entry-Keeps m version success none w h)

  pub run_one-Keeps :
      (r : Runner S) (version : String) (current : List S)
      → r.has_db ≡ true
      → Keeps I (run_one r version current)
  unfolding run_one
  run_one-Keeps r version current db w h = elim (Option-cases (lookup version r.migrations)) [
    | inl absent ↦ rw (absent, run_one) h
    | inr (m, found) ↦
        rw (found, db, run_one)
          (Keeps-bind I (attempt true version m current) (succeed true version m)
            (attempt-Keeps version m current) (succeed-Keeps version m) w h)
  ]

  pub run_all-Keeps :
      (r : Runner S) (versions : List String) (current : List S)
      → r.has_db ≡ true
      → Keeps I (run_all r versions current)
  unfolding run_all
  run_all-Keeps r [] current db w h = h
  run_all-Keeps r (version ∷ rest) current db w h =
      Keeps-bind I (run_one r version current) (run_all r rest) (run_one-Keeps r version current db)
        (λ next. run_all-Keeps r rest next db) w h
