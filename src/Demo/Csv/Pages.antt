-- ===== src/Demo/Csv/Pages.antt =====
-- `exportAllHistory` (demo/src/csvExport.ts): all pages of a history, and the export of them. What
-- `downloadCsv` does with the text is the browser's.
use Prim.Native.String.{String}
use paystream_contracts.Prelude.{
  ℕ, zero, suc, ◌≤◌, ◌≡◌, arith, List, [], ◌∷◌, ◌++◌, append_assoc, append-nil, length, Option,
  none, some,
}
use paystream_contracts.Js.{ok, err, Error, Io, pure, lift, ◌>>=◌, present}
use paystream_contracts.Js.Laws.{bind_ok}
use paystream_contracts.Demo.Csv.{Text, Dates, DateRange, TxRecord, build_csv}

pub record Page : Type 0 where
  pub records : List TxRecord
  pub next_cursor : Option String

-- The loop ran out of the model's fuel; the code has no such error.
abbrev pub no_fuel : Error
no_fuel = record { name = "model"; message = "out of fuel" }

-- The records of all pages.
abbrev pub concat : List (List TxRecord) → List TxRecord
concat [] = []
concat (page ∷ pages) = page ++ concat pages

module _ {W : Type 0} (fetch_page : Option String → Io W Page) where
  -- The `do … while (cursor)` loop, in at most `fuel` rounds. An empty cursor ends it as `null`
  -- does.
  unfoldable pub fetch_all : ℕ → Option String → List TxRecord → Io W (List TxRecord)
  fetch_all zero cursor all = lift (err no_fuel)
  fetch_all (suc fuel) cursor all = fetch_page cursor >>= λ page. elim (present page.next_cursor) [
    | none ↦ pure (all ++ page.records)
    | some c ↦ fetch_all fuel (some c) (all ++ page.records)
  ]

  -- The text that `exportAllHistory` hands to `downloadCsv`.
  unfoldable pub export_all_history :
      Dates → ℕ → (stream_id employee token : Text) → Option DateRange → Io W Text
  export_all_history dates fuel stream_id employee token range =
      fetch_all fuel none [] >>= λ all. lift (build_csv dates all stream_id employee token range)

  -- The server's replies from a cursor on: a page with no further cursor is the last one.
  pub data Serves : Option String → W → List (List TxRecord) → W → Type 0 where
    last :
        {cursor : Option String} {w w' : W} (page : Page)
        → fetch_page cursor w ≡ (ok page, w')
        → present page.next_cursor ≡ none
        → Serves cursor w (page.records ∷ []) w'
    more :
        {cursor : Option String} {w w' w'' : W} {pages : List (List TxRecord)} (page : Page)
        (c : String)
        → fetch_page cursor w ≡ (ok page, w')
        → present page.next_cursor ≡ some c
        → Serves (some c) w' pages w''
        → Serves cursor w (page.records ∷ pages) w''

  fetch_all_lem :
      (fuel : ℕ) (all : List TxRecord) {cursor : Option String} {w w' : W}
      {pages : List (List TxRecord)}
      → Serves cursor w pages w'
      → length pages ≤ fuel
      → fetch_all fuel cursor all w ≡ (ok (all ++ concat pages), w')
  unfolding fetch_all
  fetch_all_lem zero all (last page e n) h = ground arith
  fetch_all_lem zero all (more page c e n s) h = ground arith
  fetch_all_lem (suc fuel) all (last page e n) h = ground (arith, append-nil page.records)
  fetch_all_lem (suc fuel) all (more {pages} page c e n s) h = ground (
    arith,
    fetch_all_lem fuel (all ++ page.records) s (ground arith),
    append_assoc all page.records (concat pages),
  )

  -- The loop ends with the last page: the text is the export of the records of all pages, in the
  -- order in which the server gives them.
  pub export_all_history_lem :
      {w w' : W} {pages : List (List TxRecord)} (dates : Dates) (fuel : ℕ)
      (stream_id employee token : Text) (range : Option DateRange)
      → Serves none w pages w'
      → length pages ≤ fuel
      → export_all_history dates fuel stream_id employee token range w
        ≡ (build_csv dates (concat pages) stream_id employee token range, w')
  unfolding export_all_history
  export_all_history_lem {w} {w'} {pages} dates fuel stream_id employee token range s h =
      bind_ok (fetch_all fuel none [])
        (λ all. lift (build_csv dates all stream_id employee token range)) w w' (concat pages)
        (fetch_all_lem fuel [] s h)
