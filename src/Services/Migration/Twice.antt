-- ===== src/Services/Migration/Twice.antt =====
-- Proofs about `migrate` of services/migration/migrationRunner.js: what it has done it does not do
-- again.
use Prim.Native.String.{String}
use paystream_contracts.Prelude.{◌≡◌, true, false, List, Option, none, some, any}
use paystream_contracts.Services.Migration.{
  Migration, State, Entry, is_down_success, is_applied, rows,
}
use paystream_contracts.Services.Migration.Runner.{Runner}

abbrev HasTable : Option (List Entry) → Type 0
HasTable none = ⊥
HasTable (some entries) = Unit

-- No row says that a version was undone; none is ever written.
abbrev pub IsNeverUndone : State → Type 0
IsNeverUndone w = (v : String) → any (is_down_success v) (rows w) ≡ false

abbrev IsSound : State → Type 0
IsSound w = HasTable w.table × IsNeverUndone w

abbrev IsDone : String → State → Type 0
IsDone v w = IsSound w × (is_applied true w v ≡ true)
