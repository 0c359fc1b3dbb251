-- ===== src/Demo/History.antt =====
-- The history of transactions, page by page (demo/src/useTransactionHistory.ts). The server's JSON
-- is a record of the fields that are read; `none` is a field that is absent or `null`.
pub mod Laws
use Prim.Native.String.{String}
use text.Mathlib.Text.{◌==◌}
use paystream_contracts.Prelude.{
  ℕ, Bool, true, false, List, [], ◌∷◌, ◌++◌, map, Option, none, some, if◌then◌else◌, length,
}
use paystream_contracts.Prelude
use paystream_contracts.Js.{
  Error, Result, ok, err, Io, ◌>>=◌, ◌>>◌, pure, throw, lift, modify, try_catch, finally, new_error,
  error_text, ◌<>◌, present, Native, str, undefined,
}

pub record TxRecord : Type 0 where
  pub id : String
  pub timestamp : String
  pub type : String
  pub amount : Option String

-- An operation of the reply, with `String(op.id)`.
pub record Op : Type 0 where
  pub id : String
  pub created_at : Option String
  pub type : String
  pub amount : Native
  pub paging_token : Option String

-- A reply: `res.ok`, `res.status` as a text, and the records of `res.json()`, which may throw.
pub record Reply : Type 0 where
  pub accepted : Bool
  pub status : String
  pub ops : Result (List Op)

abbrev pub page_size : ℕ
page_size = 10

pub record History (World : Type 0) : Type 0 where
  pub records : List TxRecord
  pub loading : Bool
  pub error : Option String
  pub cursor : Option String
  pub has_more : Bool
  pub world : World

abbrev or_empty : Option String → String
or_empty none = ""
or_empty (some s) = s

-- The last element's paging token, `null` for no elements.
unfoldable pub last_token : List Op → Option String
last_token [] = none
last_token (op ∷ []) = some (or_empty op.paging_token)
last_token (op ∷ next ∷ rest) = last_token (next ∷ rest)

-- `replace(/_/g, " ")` is given.
module _ (spaced : String → String) where
  unfoldable pub op_type : Op → String
  op_type op =
      if op.type == "invoke_host_function"
      then "Contract Call"
      else if op.type == "payment"
      then "Payment"
      else if op.type == "create_account"
      then "Create Account"
      else spaced op.type

  unfoldable pub op_amount : Native → Option String
  op_amount (str s) = some (s <> " XLM")
  op_amount _ = none

  unfoldable pub to_record : Op → TxRecord
  to_record op = record {
    id = op.id;
    timestamp = or_empty op.created_at;
    type = op_type op;
    amount = op_amount op.amount;
  }

  -- `setRecords((prev) => nextCursor ? [...prev, ...newRecords] : newRecords)`
  abbrev pub merge : Option String → List TxRecord → List TxRecord → List TxRecord
  merge none prev fresh = fresh
  merge (some _) prev fresh = prev ++ fresh

  -- What a reply changes.
  unfoldable pub take_page :
      {World : Type 0} → Option String → List Op → History World → History World
  take_page next_cursor ops s = record s {
    records = merge (present next_cursor) s.records (map to_record ops);
    cursor = last_token ops;
    has_more = Prelude.◌==◌ (length ops) page_size;
  }

  abbrev pub begin_loading : {World : Type 0} → History World → History World
  begin_loading s = record s { loading = true; error = none }

  abbrev pub end_loading : {World : Type 0} → History World → History World
  end_loading s = record s { loading = false }

  abbrev set_error : {World : Type 0} → Error → Io (History World) (Unit {0})
  set_error e = modify (λ s. record s { error = some (error_text e) })

  abbrev outside : {World A : Type 0} → Io World A → Io (History World) A
  outside m s = let (r, w) = m s.world in (r, record s { world = w })

  -- `fetch` of the page at a cursor. The id of the stream is not in the URL.
  module _ {World : Type 0} (fetch : Option String → Io World Reply) where
    -- `if (!res.ok) throw …`, and `res.json()`
    unfoldable pub read_reply : Reply → Result (List Op)
    read_reply res =
        if res.accepted then res.ops else err (new_error ("Horizon error: " <> res.status))

    unfoldable pub try_fetch : Option String → Io (History World) (Unit {0})
    try_fetch next_cursor = do
      res ← outside (fetch (present next_cursor))
      ops ← lift (read_reply res)
      modify (take_page next_cursor ops)

    unfoldable pub fetch_history : Option String → Io (History World) (Unit {0})
    fetch_history next_cursor =
        modify begin_loading >> finally (try_catch (try_fetch next_cursor) set_error) end_loading

    unfoldable pub load_more : Io (History World) (Unit {0})
    load_more s = elim (present s.cursor) [ none ↦ (ok tt, s) | some c ↦ fetch_history (some c) s ]

    unfoldable pub reset : History World → History World
    reset s = record s { records = []; cursor = none; has_more = false; error = none }
