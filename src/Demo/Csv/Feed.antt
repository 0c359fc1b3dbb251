-- ===== src/Demo/Csv/Feed.antt =====
-- How the reader of CSV takes in a cell that an export has written (demo/src/csvExport.ts).
use paystream_contracts.Prelude.{
  ◌≡◌, ◌≢◌, refl, ◌∙◌, arith, false, List, [], ◌∷◌, ◌++◌, append_assoc, append-nil, ◌==◌, inl, inr,
  Bool-cases, All, any,
}
use paystream_contracts.Demo.Csv.{Text, needs_quotes, double_quotes, escape_cell}
use paystream_contracts.Demo.Csv.Reader.{
  Mode, begin, plain, quoted, closing, cr, Reader, advance, feed, at,
}

pub feed-append : (s : Reader) (xs ys : Text) → feed s (xs ++ ys) ≡ feed (feed s xs) ys
unfolding feed
feed-append s [] ys = refl
feed-append s (x ∷ xs) ys = feed-append (advance s x) xs ys

-- Code units that stand for themselves outside of quotes.
abbrev IsBare : Text → Type 0
IsBare v = All (λ c. (c ≢ b',') × (c ≢ b'"') × (c ≢ b'\r')) v

feed-plain :
    (v cell : Text) (row : List Text) (rows : List (List Text))
    → IsBare v
    → feed (at plain cell row rows) v ≡ at plain (cell ++ v) row rows
unfolding feed advance
feed-plain [] cell row rows h = ground (arith, append-nil cell)
feed-plain (c ∷ v) cell row rows h =
    ground (arith, feed-plain v (cell ++ c ∷ []) row rows h.1, append_assoc cell (c ∷ []) v)

feed_quoted :
    (v cell : Text) (row : List Text) (rows : List (List Text))
    → feed (at quoted cell row rows) (double_quotes v) ≡ at quoted (cell ++ v) row rows
unfolding feed advance double_quotes
feed_quoted [] cell row rows = ground (arith, append-nil cell)
feed_quoted (c ∷ v) cell row rows =
    ground (arith, feed_quoted v (cell ++ c ∷ []) row rows, append_assoc cell (c ∷ []) v)

-- A text that is not quoted holds no carriage return.
abbrev pub IsExportable : Text → Type 0
IsExportable v = needs_quotes v ≡ false → All (λ c. c ≢ b'\r') v

IsBare-of_unquoted :
    (v : Text)
    → any (λ c. c == b',') v ≡ false
    → any (λ c. c == b'"') v ≡ false
    → All (λ c. c ≢ b'\r') v
    → IsBare v
IsBare-of_unquoted [] h k l = tt
IsBare-of_unquoted (c ∷ v) h k l =
    (ground arith, IsBare-of_unquoted v (ground arith) (ground arith) l.1)

-- The modes in which a separator ends the cell.
abbrev pub Settled : Mode → Type 0
Settled begin = Unit
Settled plain = Unit
Settled closing = Unit
Settled quoted = ⊥
Settled cr = ⊥

feed_bare :
    (v : Text) (row : List Text) (rows : List (List Text))
    → IsBare v
    → (m : Mode) × Settled m × (feed (at begin [] row rows) v ≡ at m v row rows)
unfolding feed advance
feed_bare [] row rows h = (begin, tt, refl)
feed_bare (c ∷ v) row rows h = (plain, tt, ground (arith, feed-plain v (c ∷ []) row rows h.1))

feed_in_quotes :
    (v : Text) (row : List Text) (rows : List (List Text))
    → feed (at begin [] row rows) (b'"' ∷ double_quotes v ++ b'"' ∷ []) ≡ at closing v row rows
unfolding feed advance
feed_in_quotes v row rows =
    feed-append (at quoted [] row rows) (double_quotes v) (b'"' ∷ [])
    ∙ rw (feed_quoted v [] row rows)

pub feed_cell :
    (v : Text) (row : List Text) (rows : List (List Text))
    → IsExportable v
    → (m : Mode) × Settled m × (feed (at begin [] row rows) (escape_cell v) ≡ at m v row rows)
unfolding escape_cell
feed_cell v row rows h = elim (Bool-cases (needs_quotes v)) [
  | inl e ↦ (closing, tt, rw e (feed_in_quotes v row rows))
  | inr e ↦
      let (m, s, q) =
        feed_bare v row rows
          (unfold needs_quotes in IsBare-of_unquoted v (ground arith) (ground arith) (h e)) in
      (m, s, rw e q)
]

Settled-comma :
    (m : Mode) (cell : Text) (row : List Text) (rows : List (List Text))
    → Settled m
    → advance (at m cell row rows) b',' ≡ at begin [] (row ++ cell ∷ []) rows
unfolding advance
Settled-comma begin cell row rows h = refl
Settled-comma plain cell row rows h = refl
Settled-comma closing cell row rows h = refl
Settled-comma quoted cell row rows h = elim h [ ]
Settled-comma cr cell row rows h = elim h [ ]

pub feed_comma :
    (m : Mode) (cell : Text) (row : List Text) (rows : List (List Text)) (rest : Text)
    → Settled m
    → feed (at m cell row rows) (b',' ∷ rest) ≡ feed (at begin [] (row ++ cell ∷ []) rows) rest
unfolding feed
feed_comma m cell row rows rest h = rw (Settled-comma m cell row rows h)

pub Settled-newline :
    (m : Mode) (cell : Text) (row : List Text) (rows : List (List Text)) (rest : Text)
    → Settled m
    → feed (at m cell row rows) (b'\r' ∷ b'\n' ∷ rest)
      ≡ feed (at begin [] [] (rows ++ (row ++ cell ∷ []) ∷ [])) rest
unfolding feed advance
Settled-newline begin cell row rows rest h = refl
Settled-newline plain cell row rows rest h = refl
Settled-newline closing cell row rows rest h = refl
Settled-newline quoted cell row rows rest h = elim h [ ]
Settled-newline cr cell row rows rest h = elim h [ ]
