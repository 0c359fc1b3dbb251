-- ===== src/Services/Migration/Audit.antt =====
-- Proofs about the audit trail of services/migration/migrationRunner.js.
use Prim.Native.String.{String}
use paystream_contracts.Prelude.{
  any-append, ◌≡◌, refl, arith, Bool, true, false, List, [], ◌∷◌, Option, none, some, keep,
}
use paystream_contracts.Services.Migration.{
  State, Entry, is_up_success, is_down_success, is_applied, audit, ensure_table, insert_row,
}

pub keep_ext :
    {A : Type 0} (p q : A → Bool) (xs : List A) → ((x : A) → p x ≡ q x) → keep p xs ≡ keep q xs
keep_ext p q [] same = refl
keep_ext p q (x ∷ xs) same = ground (arith, same x, keep_ext p q xs same)

-- An entry that records no success changes nothing of what counts as applied.
pub is_applied-audit :
    (has_db : Bool) (e : Entry) (w : State) (v : String)
    → is_up_success v e ≡ false
    → is_down_success v e ≡ false
    → is_applied has_db (audit has_db e w) v ≡ is_applied has_db w v
unfolding is_applied audit
is_applied-audit has_db e w v no_up no_down = go w.table
  where
    go :
        (t : Option (List Entry))
        → is_applied has_db (record { table = insert_row has_db e t; lines = []; notices = [] }) v
          ≡ is_applied has_db (record { table = t; lines = []; notices = [] }) v
    go none = refl
    go (some entries) = ground (
      arith,
      no_up,
      no_down,
      any-append (is_up_success v) entries e,
      any-append (is_down_success v) entries e,
    )

pub is_applied-ensure_table :
    (has_db : Bool) (w : State) (v : String)
    → is_applied has_db (ensure_table has_db w) v ≡ is_applied has_db w v
unfolding is_applied ensure_table
is_applied-ensure_table true w v = refl
is_applied-ensure_table false w v = refl
