-- ===== src/Demo/Csv/Reader.antt =====
-- A reader of CSV as RFC 4180 describes it, one code unit at a time: the independent description
-- by which the export is judged.
use paystream_contracts.Prelude.{ℕ, List, [], ◌∷◌, ◌++◌, if◌then◌else◌, ◌==◌}

-- `closing` is after a quote inside of quotes, `cr` after a carriage return.
pub data Mode : Type 0 where
  begin plain quoted closing cr : Mode

pub record Reader : Type 0 where
  pub mode : Mode
  pub cell : List ℕ
  pub row : List (List ℕ)
  pub rows : List (List (List ℕ))

abbrev pub push : Mode → ℕ → Reader → Reader
push m c s = record s { mode = m; cell = s.cell ++ c ∷ [] }

abbrev pub end_cell : Reader → Reader
end_cell s = record s { mode = begin; cell = []; row = s.row ++ s.cell ∷ [] }

abbrev pub end_row : Reader → Reader
end_row s = record {
  mode = begin;
  cell = [];
  row = [];
  rows = s.rows ++ (s.row ++ s.cell ∷ []) ∷ [];
}

-- Outside of quotes.
abbrev pub unquoted : ℕ → Reader → Reader
unquoted c s =
    if c == b',' then end_cell s else if c == b'\r' then record s { mode = cr } else push plain c s

abbrev pub read_as : Mode → ℕ → Reader → Reader
read_as begin c s = if c == b'"' then record s { mode = quoted } else unquoted c s
read_as plain c s = unquoted c s
read_as quoted c s = if c == b'"' then record s { mode = closing } else push quoted c s
read_as closing c s = if c == b'"' then push quoted c s else unquoted c s
read_as cr c s = if c == b'\n' then end_row s else push plain c (push plain b'\r' s)

unfoldable pub advance : Reader → ℕ → Reader
advance s c = read_as s.mode c s

unfoldable pub feed : Reader → List ℕ → Reader
feed s [] = s
feed s (c ∷ rest) = feed (advance s c) rest

abbrev pub at : Mode → List ℕ → List (List ℕ) → List (List (List ℕ)) → Reader
at m cell row rows = record { mode = m; cell = cell; row = row; rows = rows }

unfoldable pub read : List ℕ → List (List (List ℕ))
read text = (end_row (feed (at begin [] [] []) text)).rows
