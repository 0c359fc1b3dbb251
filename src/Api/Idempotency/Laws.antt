-- ===== src/Api/Idempotency/Laws.antt =====
-- Proofs about api/middleware/idempotency.js, for requests and responses in any order.
use Prim.Native.Nat.{◌≤◌}
use Prim.Native.String.{String}
use text.Mathlib.Text.{◌==◌}
use paystream_contracts.Prelude.{
  ◌≡◌, refl, arith, true, false, List, [], ◌∷◌, ◌++◌, none, some, All, if◌then◌else◌, ◌&&◌, ◌⊎◌,
}
use paystream_contracts.Js.{present}
use paystream_contracts.Api.Idempotency.{
  Row, Request, wrapped, is_write, find, insert_row, stored, store, answer, ask,
  idempotency_middleware,
}

module _ (B : Type 0) where
  -- A request comes in, or the handler of a wrapped response answers.
  pub data Event : Type 0 where
    arrived : Request B → Event
    answered : Row B → Event

module _ {B : Type 0} where
  -- The rows after the events; a request does not change them.
  unfoldable pub run : (B → B) → List (Event B) → List (Row B) → List (Row B)
  run jsonb [] rows = rows
  run jsonb (arrived req ∷ es) rows = run jsonb es rows
  run jsonb (answered row ∷ es) rows = run jsonb es (store jsonb true row rows)

  -- The request is a write with the key, for the address.
  abbrev pub IsKeyed : String → String → Request B → Type 0
  IsKeyed key address req =
      (present req.key ≡ some key)
      × (is_write req.method ≡ true)
      × (present req.stellar_address ≡ some address)

  find-append :
      (key address : String) (rows : List (Row B)) (row : Row B)
      → find key address (rows ++ row ∷ []) ≡ elim (find key address rows) [
        | some found ↦ some found
        | none ↦ if row.key == key && row.address == address then some row else none
      ]
  unfolding find
  find-append key address [] row = refl
  find-append key address (x ∷ rows) row = ground (arith, find-append key address rows row)

  -- No response is stored for the key and the address.
  abbrev pub IsUnanswered : String → String → Event B → Type 0
  IsUnanswered key address (arrived req) = Unit
  IsUnanswered key address (answered row) =
      ((row.key == key && row.address == address) ≡ false) ⊎ (500 ≤ row.response_status)

  find-store_unanswered :
      (jsonb : B → B) (key address : String) (row : Row B) (rows : List (Row B))
      → find key address rows ≡ none
      → IsUnanswered key address (answered row)
      → find key address (store jsonb true row rows) ≡ none
  unfolding store insert_row
  find-store_unanswered jsonb key address row rows absent unanswered =
      ground (arith, absent, unanswered, find-append key address rows (stored jsonb row))

  find-run_unanswered :
      (jsonb : B → B) (key address : String) (rows : List (Row B)) (es : List (Event B))
      → find key address rows ≡ none
      → All (IsUnanswered key address) es
      → find key address (run jsonb es rows) ≡ none
  unfolding run
  find-run_unanswered jsonb key address rows [] absent unanswered = absent
  find-run_unanswered jsonb key address rows (arrived req ∷ es) absent (_, others) =
      find-run_unanswered jsonb key address rows es absent others
  find-run_unanswered jsonb key address rows (answered row ∷ es) absent (one, others) =
      find-run_unanswered jsonb key address (store jsonb true row rows) es
        (find-store_unanswered jsonb key address row rows absent one) others

module _ {B : Type 0} (jsonb : B → B) (hash_body : B → String) where
  keyed_lem :
      (key address : String) (req : Request B) (rows : List (Row B))
      → IsKeyed key address req
      → idempotency_middleware hash_body true req rows ≡ elim (find key address rows) [
        | none ↦ wrapped key address
        | some cached ↦ answer hash_body cached req.body
      ]
  unfolding idempotency_middleware ask
  keyed_lem key address req rows (k, w, a) = rw (k, idempotency_middleware) (rw (w, a) refl)

  -- Until a response below 500 is stored for it, each of the writes with one key for one address
  -- reaches its handler, also while the handler of another one is at work.
  pub run_unguarded :
      (key address : String) (rows : List (Row B)) (es : List (Event B)) (req : Request B)
      → find key address rows ≡ none
      → All (IsUnanswered key address) es
      → IsKeyed key address req
      → idempotency_middleware hash_body true req (run jsonb es rows) ≡ wrapped key address
  run_unguarded key address rows es req absent unanswered keyed =
      let still = find-run_unanswered jsonb key address rows es absent unanswered in
      rw (keyed_lem key address req (run jsonb es rows) keyed, still) refl
