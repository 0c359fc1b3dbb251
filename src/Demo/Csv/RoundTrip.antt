-- ===== src/Demo/Csv/RoundTrip.antt =====
-- Proofs that an export can be read back (demo/src/csvExport.ts).
use paystream_contracts.Prelude.{
  ◌≡◌, refl, ◌∙◌, ap, arith, List, [], ◌∷◌, ◌++◌, map, append_assoc, All, some,
}
use paystream_contracts.Demo.Csv.{
  Text, needs_quotes, escape_cell, join, row_text, document, headers, Dates, TxRecord, date_of,
}
use paystream_contracts.Js.{ok}
use paystream_contracts.Demo.Csv.Reader.{Mode, begin, Reader, feed, at, read, end_row}
use paystream_contracts.Demo.Csv.Feed.{
  feed-append, Settled, feed_cell, feed_comma, Settled-newline, IsExportable,
}

-- The reader has taken in a row, but for the end of its last cell.
record HasRow (s : Reader) (row : List Text) (rows : List (List Text)) : Type 0 where
  mode : Mode
  cell : Text
  front : List Text
  settled : Settled mode
  state : s ≡ at mode cell front rows
  whole : front ++ cell ∷ [] ≡ row

feed_row :
    (v : Text) (vs : List Text) (row : List Text) (rows : List (List Text))
    → All IsExportable (v ∷ vs)
    → HasRow (feed (at begin [] row rows) (row_text (v ∷ vs))) (row ++ v ∷ vs) rows
unfolding row_text join
feed_row v [] row rows (h, _) =
    let (m, s, q) = feed_cell v row rows h in
    record { mode = m; cell = v; front = row; settled = s; state = q; whole = refl }
feed_row v (w ∷ vs) row rows (h, hs) =
    let (m, s, q) = feed_cell v row rows h in
    let next = feed_row w vs (row ++ v ∷ []) rows hs in
    let step : feed (at begin [] row rows) (row_text (v ∷ w ∷ vs))
        ≡ feed (at begin [] (row ++ v ∷ []) rows) (row_text (w ∷ vs)) =
      feed-append (at begin [] row rows) (escape_cell v) (b',' ∷ row_text (w ∷ vs))
      ∙ ap (λ t. feed t (b',' ∷ row_text (w ∷ vs))) q
      ∙ feed_comma m v row rows (row_text (w ∷ vs)) s in
    record {
      mode = next.mode;
      cell = next.cell;
      front = next.front;
      settled = next.settled;
      state = step ∙ next.state;
      whole = next.whole ∙ append_assoc row (v ∷ []) (w ∷ vs);
    }

-- A row that has a cell, and whose cells can be exported.
abbrev pub IsRow : List Text → Type 0
IsRow [] = ⊥
IsRow (v ∷ vs) = All IsExportable (v ∷ vs)

feed_rows :
    (r : List Text) (rs rows : List (List Text))
    → All IsRow (r ∷ rs)
    → (end_row
        (feed (at begin [] [] rows) (join (b'\r' ∷ b'\n' ∷ []) (map row_text (r ∷ rs))))).rows
      ≡ rows ++ r ∷ rs
unfolding join
feed_rows [] rs rows h = elim h.0 [ ]
feed_rows (v ∷ vs) [] rows h =
    let row = feed_row v vs [] rows h.0 in
    ap (λ (t : Reader). (end_row t).rows) row.state
    ∙ ap (λ (t : List Text). rows ++ t ∷ []) row.whole
feed_rows (v ∷ vs) (r ∷ rs) rows h =
    let row = feed_row v vs [] rows h.0 in
    let rest = join (b'\r' ∷ b'\n' ∷ []) (map row_text (r ∷ rs)) in
    let moved : feed (at begin [] [] rows) (row_text (v ∷ vs) ++ b'\r' ∷ b'\n' ∷ rest)
        ≡ feed (at begin [] [] (rows ++ (v ∷ vs) ∷ [])) rest =
      feed-append (at begin [] [] rows) (row_text (v ∷ vs)) (b'\r' ∷ b'\n' ∷ rest)
      ∙ ap (λ t. feed t (b'\r' ∷ b'\n' ∷ rest)) row.state
      ∙ Settled-newline row.mode row.cell row.front rows rest row.settled
      ∙ ap (λ t. feed (at begin [] [] (rows ++ t ∷ [])) rest) row.whole in
    ap (λ (t : Reader). (end_row t).rows) moved
    ∙ feed_rows r rs (rows ++ (v ∷ vs) ∷ []) h.1
    ∙ append_assoc rows ((v ∷ vs) ∷ []) (r ∷ rs)

headers-IsRow : IsRow headers
unfolding needs_quotes
headers-IsRow = ground arith

-- None of the headers needs quotes.
headers_text : join (b',' ∷ []) headers ≡ row_text headers
unfolding row_text join escape_cell needs_quotes
headers_text = refl

-- A document reads back as the header and its rows.
pub read-document :
    (rows : List (List Text)) → All IsRow rows → read (document rows) ≡ headers ∷ rows
unfolding read document
read-document rows h =
    ap (λ t. read (join (b'\r' ∷ b'\n' ∷ []) (t ∷ map row_text rows))) headers_text
    ∙ feed_rows headers rows [] (headers-IsRow, h)

module _ (dates : Dates) (stream_id employee token : Text) where
  -- The cells of a record can be exported: so can the texts that stand in each row.
  pub record IsExportableRecord (r : TxRecord) : Type 0 where
    pub date : (d : Text) → date_of dates r ≡ ok d → IsExportable d
    pub type : IsExportable r.type
    pub amount : (a : Text) → r.amount ≡ some a → IsExportable a
