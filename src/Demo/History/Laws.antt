-- ===== src/Demo/History/Laws.antt =====
-- Proofs about the history of transactions (demo/src/useTransactionHistory.ts).
use Prim.Native.String.{String}
use paystream_contracts.Prelude.{
  ◌≡◌, refl, arith, false, List, [], ◌∷◌, ◌++◌, Option, none, some, inl, inr,
}
use paystream_contracts.Js.{Error, Result, ok, err, Io, error_text, present}
use paystream_contracts.Js.Laws.{Result-cases}
use paystream_contracts.Demo.History.{
  History, Op, Reply, last_token, take_page, read_reply, try_fetch, fetch_history, load_more,
}

module _ (spaced : String → String) {World : Type 0} (fetch : Option String → Io World Reply) where
  -- How a fetch ends: with the page, or with an error and the records as they were.
  pub data IsFetched (next_cursor : Option String) (s : History World)
      : History World → Type 0 where
    fetched :
        (res : Reply) (ops : List Op) (w : World)
        → fetch (present next_cursor) s.world ≡ (ok res, w)
        → read_reply spaced fetch res ≡ ok ops
        → IsFetched next_cursor s (
            take_page spaced next_cursor ops
              (record s { loading = false; error = none; world = w }))
    not_fetched :
        (e : Error) (w : World)
        → IsFetched next_cursor s
            (record s { loading = false; error = some (error_text e); world = w })

  fetch_returns :
      (next_cursor : Option String) (s : History World) (res : Reply) (ops : List Op) (w : World)
      → fetch (present next_cursor) s.world ≡ (ok res, w)
      → read_reply spaced fetch res ≡ ok ops
      → fetch_history spaced fetch next_cursor s ≡ (
        ok tt,
        take_page spaced next_cursor ops (record s { loading = false; error = none; world = w }),
      )
  unfolding fetch_history try_fetch take_page
  fetch_returns next_cursor s res ops w e r = ground (arith, e, r)

  fetch_rejected :
      (next_cursor : Option String) (s : History World) (res : Reply) (x : Error) (w : World)
      → fetch (present next_cursor) s.world ≡ (ok res, w)
      → read_reply spaced fetch res ≡ err x
      → fetch_history spaced fetch next_cursor s
        ≡ (ok tt, record s { loading = false; error = some (error_text x); world = w })
  unfolding fetch_history try_fetch
  fetch_rejected next_cursor s res x w e r = ground (arith, e, r)

  fetch_throws :
      (next_cursor : Option String) (s : History World) (x : Error) (w : World)
      → fetch (present next_cursor) s.world ≡ (err x, w)
      → fetch_history spaced fetch next_cursor s
        ≡ (ok tt, record s { loading = false; error = some (error_text x); world = w })
  unfolding fetch_history try_fetch
  fetch_throws next_cursor s x w e = ground (arith, e)

  -- A fetch never throws. It leaves the page that the server replied, or the error and the records
  -- as they were, and it is no longer loading.
  pub fetch_history-IsFetched :
      (next_cursor : Option String) (s : History World)
      → ((fetch_history spaced fetch next_cursor s).0 ≡ ok tt)
        × IsFetched next_cursor s (fetch_history spaced fetch next_cursor s).1
  fetch_history-IsFetched next_cursor s = go (fetch (present next_cursor) s.world) refl
    where
      go :
          (q : Result Reply × World)
          → fetch (present next_cursor) s.world ≡ q
          → ((fetch_history spaced fetch next_cursor s).0 ≡ ok tt)
            × IsFetched next_cursor s (fetch_history spaced fetch next_cursor s).1
      go (err x, w) e = rw (fetch_throws next_cursor s x w e) (refl, not_fetched x w)
      go (ok res, w) e = elim (Result-cases (read_reply spaced fetch res)) [
        | inl (ops, r) ↦
            rw (fetch_returns next_cursor s res ops w e r) (refl, fetched res ops w e r)
        | inr (x, r) ↦ rw (fetch_rejected next_cursor s res x w e r) (refl, not_fetched x w)
      ]

  -- The clicks on "load more", one for each page.
  unfoldable pub more : List (List Op) → History World → History World
  more [] s = s
  more (_ ∷ rest) s = more rest (load_more spaced fetch s).1

  -- The server's replies from a cursor on, each at the last paging token of the one before.
  pub data Serves : Option String → World → List (List Op) → World → Type 0 where
    stop : {cursor : Option String} {w : World} → Serves cursor w [] w
    another :
        {cursor : Option String} {w w' w'' : World} {pages : List (List Op)} (c : String)
        (res : Reply) (ops : List Op)
        → present cursor ≡ some c
        → fetch (present (some c)) w ≡ (ok res, w')
        → read_reply spaced fetch res ≡ ok ops
        → Serves (last_token ops) w' pages w''
        → Serves cursor w (ops ∷ pages) w''

  abbrev pub concat : List (List Op) → List Op
  concat [] = []
  concat (ops ∷ pages) = ops ++ concat pages
