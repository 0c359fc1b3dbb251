-- ===== src/Demo/Csv.antt =====
-- CSV export of the history (demo/src/csvExport.ts). Texts are lists of code units.
pub mod Reader
pub mod Feed
pub mod RoundTrip
pub mod Pages
use paystream_contracts.Prelude.{
  ℕ, Bool, true, false, ◌||◌, List, [], ◌∷◌, ◌++◌, map, Option, none, some, if◌then◌else◌, ◌==◌,
  any,
}
use paystream_contracts.Prelude.Int.{ℤ, ltb_ℤ}
use paystream_contracts.Js.{Result, ok, err, Error, and_then}

abbrev pub Text : Type 0
Text = List ℕ

-- A record of demo/src/useTransactionHistory.ts; the id is not exported.
pub record TxRecord : Type 0 where
  pub timestamp : Text
  pub type : Text
  pub amount : Option Text

-- A `Date` by its time value.
pub record DateRange : Type 0 where
  pub from : Option ℤ
  pub to : Option ℤ

-- `new Date(s)` of the runtime: its time value (`none` if it is not valid), and `toISOString`.
pub record Dates : Type 0 where
  pub time : Text → Option ℤ
  pub to_iso_string : Text → Result Text

-- `value.includes(",") || value.includes('"') || value.includes("\n")`
unfoldable pub needs_quotes : Text → Bool
needs_quotes value =
    any (λ c. c == b',') value || any (λ c. c == b'"') value || any (λ c. c == b'\n') value

-- `value.replace(/"/g, '""')`
unfoldable pub double_quotes : Text → Text
double_quotes [] = []
double_quotes (c ∷ rest) =
    if c == b'"' then b'"' ∷ b'"' ∷ double_quotes rest else c ∷ double_quotes rest

unfoldable pub escape_cell : Text → Text
escape_cell value = if needs_quotes value then b'"' ∷ double_quotes value ++ b'"' ∷ [] else value

-- `parts.join(separator)`
unfoldable pub join : Text → List Text → Text
join separator [] = []
join separator (x ∷ []) = x
join separator (x ∷ y ∷ rest) = x ++ (separator ++ join separator (y ∷ rest))

-- `[…].join(",")` of the cells of a row, each escaped
unfoldable pub row_text : List Text → Text
row_text cells = join (b',' ∷ []) (map escape_cell cells)

-- The time of a record lies outside of the range. A time that is not valid is in no range's way.
before_start : Option ℤ → ℤ → Bool
before_start none ts = false
before_start (some from) ts = ltb_ℤ ts from

after_end : Option ℤ → ℤ → Bool
after_end none ts = false
after_end (some to) ts = ltb_ℤ to ts

excluded_time : DateRange → Option ℤ → Bool
unfolding before_start after_end
excluded_time range none = false
excluded_time range (some ts) = before_start range.from ts || after_end range.to ts

is_empty : Text → Bool
is_empty [] = true
is_empty (_ ∷ _) = false

module _ (dates : Dates) where
  open dates use {time, to_iso_string}

  -- A record with no timestamp is in every range.
  unfoldable pub excluded : Option DateRange → TxRecord → Bool
  unfolding excluded_time is_empty
  excluded none r = false
  excluded (some range) r =
      if is_empty r.timestamp then false else excluded_time range (time r.timestamp)

  unfoldable pub date_of : TxRecord → Result Text
  unfolding is_empty
  date_of r = if is_empty r.timestamp then ok [] else to_iso_string r.timestamp

  module _ (stream_id employee token : Text) where
    unfoldable pub cells : Text → TxRecord → List Text
    cells date r =
        date ∷ stream_id ∷ employee ∷ token ∷ r.type ∷ elim r.amount [ none ↦ [] | some a ↦ a ] ∷ []

    -- `rows.push(…)`, which the range may skip
    unfoldable pub push_row :
        Option DateRange → Text → TxRecord → List (List Text) → List (List Text)
    push_row range date r later = if excluded range r then later else cells date r ∷ later

    -- The cells of the rows that the loop pushes. The date is computed before the range is
    -- looked at, so a timestamp that is not valid throws in either case.
    unfoldable pub kept_cells : Option DateRange → List TxRecord → Result (List (List Text))
    kept_cells range [] = ok []
    kept_cells range (r ∷ rest) =
        and_then (date_of r)
          λ date. and_then (kept_cells range rest) λ later. ok (push_row range date r later)

-- `HEADERS`: date, stream_id, employee, token, type, amount
abbrev pub headers : List Text
headers =
    (b'd' ∷ b'a' ∷ b't' ∷ b'e' ∷ [])
    ∷ (b's' ∷ b't' ∷ b'r' ∷ b'e' ∷ b'a' ∷ b'm' ∷ b'_' ∷ b'i' ∷ b'd' ∷ [])
    ∷ (b'e' ∷ b'm' ∷ b'p' ∷ b'l' ∷ b'o' ∷ b'y' ∷ b'e' ∷ b'e' ∷ [])
    ∷ (b't' ∷ b'o' ∷ b'k' ∷ b'e' ∷ b'n' ∷ [])
    ∷ (b't' ∷ b'y' ∷ b'p' ∷ b'e' ∷ [])
    ∷ (b'a' ∷ b'm' ∷ b'o' ∷ b'u' ∷ b'n' ∷ b't' ∷ [])
    ∷ []

-- The header and the rows, with CRLF between them.
unfoldable pub document : List (List Text) → Text
document rows = join (b'\r' ∷ b'\n' ∷ []) (join (b',' ∷ []) headers ∷ map row_text rows)

unfoldable pub build_csv :
    Dates → List TxRecord → (stream_id employee token : Text) → Option DateRange → Result Text
build_csv dates records stream_id employee token range =
    and_then (kept_cells dates stream_id employee token range records) λ rows. ok (document rows)
