-- ===== src/Services/Migration.antt =====
-- The migrations of services/migration/migrationRunner.js: the runner, its audit trail and the
-- table `migration_history`, whose queries are modelled by what their SQL says. The steps of a
-- migration are a parameter. A query of the database and a line for the log file always succeed.
use Prim.Native.Nat.{ℕ}
use Prim.Native.String.{String}
use text.Mathlib.Text.{◌==◌}
use paystream_contracts.Prelude.{
  Bool, true, false, List, [], ◌∷◌, ◌++◌, Option, none, some, if◌then◌else◌, ◌&&◌, ◌||◌, not,
  length, keep, any, map,
}
use paystream_contracts.Prelude.Dict.{lookup, insert}
use paystream_contracts.Js.{
  Error, new_error, Result, ok, err, Io, ◌>>=◌, ◌>>◌, pure, throw, lift, modify, try_catch, ◌<>◌,
}
pub mod Runner
pub mod Audit
pub mod Laws
pub mod Twice
pub mod Rollback

-- What a validation answers: `none` is `{ ok: true }`, and a reason is given otherwise.
abbrev pub Validation : Type 0
Validation = Option String

module _ (S : Type 0) where
  -- A migration of streams of the type `S`
  pub record Migration : Type 0 where
    pub version : String
    pub description : String
    pub up : List S → Result (List S)
    pub down : Option (List S → Result (List S))
    pub validate : Option (List S → Result Validation)

pub data Direction : Type 0 where
  up : Direction
  down : Direction
  validation : Direction

pub data Status : Type 0 where
  started : Status
  success : Status
  failed : Status
  rolled_back : Status

-- A row of the table and a line of the log file
pub record Entry : Type 0 where
  pub version : String
  pub description : Option String
  pub direction : Direction
  pub status : Status
  pub error : Option String

pub data Notice : Type 0 where
  migration_started : (version description : String) → Notice
  migration_failed : (version error : String) → Notice
  migration_success : (version description : String) → ℕ → Notice
  rollback_started : String → Notice
  rollback_failed : (version error : String) → Notice
  rollback_success : String → Notice

-- `table` is `none` before it is created. A notice is kept whether or not there is a notifier.
pub record State : Type 0 where
  pub table : Option (List Entry)
  pub lines : List Entry
  pub notices : List Notice

abbrev pub rows : State → List Entry
rows w = elim w.table [ none ↦ [] | some entries ↦ entries ]

-- `direction IN ('up','down')`, the check of the table that an entry can fail
abbrev pub is_accepted : Direction → Bool
is_accepted up = true
is_accepted down = true
is_accepted validation = false

abbrev pub is_success : Status → Bool
is_success success = true
is_success _ = false

-- `direction = 'up' AND status = 'success'`
unfoldable pub is_up_success : String → Entry → Bool
is_up_success version e =
    e.version == version && is_success e.status && elim e.direction [ up ↦ true | _ ↦ false ]

-- `direction = 'down' AND status = 'success'`
unfoldable pub is_down_success : String → Entry → Bool
is_down_success version e =
    e.version == version && is_success e.status && elim e.direction [ down ↦ true | _ ↦ false ]

-- `_ensureTable`, by `this.db`
unfoldable pub ensure_table : Bool → State → State
ensure_table has_db w = if has_db then record w { table = some (rows w) } else w

-- Whether a version is in the set of `_appliedVersions`
unfoldable pub is_applied : Bool → State → String → Bool
is_applied has_db w version =
    has_db && any (is_up_success version) (rows w) && not (any (is_down_success version) (rows w))

abbrev pub insert_row : Bool → Entry → Option (List Entry) → Option (List Entry)
insert_row has_db e none = none
insert_row has_db e (some entries) =
    some (if has_db && is_accepted e.direction then entries ++ e ∷ [] else entries)

-- `_audit`
unfoldable pub audit : Bool → Entry → State → State
audit has_db e w = record w { table = insert_row has_db e w.table; lines = w.lines ++ e ∷ [] }

-- `this.notifier?.notify`
abbrev pub notify : Notice → State → State
notify n w = record w { notices = w.notices ++ n ∷ [] }

-- The order of texts, as `sort` and `>` have it
module _ (before : String → String → Bool) where
  abbrev pub place : String → List String → List String
  place v [] = v ∷ []
  place v (x ∷ xs) = let later = place v xs in if before x v then x ∷ later else v ∷ x ∷ xs

  abbrev pub sort : List String → List String
  sort [] = []
  sort (x ∷ xs) = place x (sort xs)

module _ {S : Type 0} where
  -- `register`
  unfoldable pub register :
      Migration S → List (String × Migration S) → Result (List (String × Migration S))
  register m registered = elim (lookup m.version registered) [
    | some _ ↦ err (new_error ("Migration version " <> m.version <> " already registered"))
    | none ↦ ok (insert m.version m registered)
  ]

  -- The end of `_runValidate`
  unfoldable pub judge : Bool → Migration S → String → Validation → Io State (Unit {0})
  judge has_db m label none = pure tt
  judge has_db m label (some reason) =
      let msg = "Validation " <> label <> " failed for v" <> m.version <> ": " <> reason in
      modify (
        audit has_db (record {
          version = m.version;
          description = none;
          direction = validation;
          status = failed;
          error = some msg;
        }))
      >> throw (new_error msg)

  -- `_runValidate`
  unfoldable pub run_validate : Bool → Migration S → List S → String → Io State (Unit {0})
  run_validate has_db m streams label = elim m.validate [
    | none ↦ pure tt
    | some validate ↦ lift (validate streams) >>= judge has_db m label
  ]
