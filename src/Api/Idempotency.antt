-- ===== src/Api/Idempotency.antt =====
-- The idempotency keys of api/middleware/idempotency.js, with the table `idempotency_keys` by what
-- the queries say and its UNIQUE (key, address) of services/indexer/src/migrate.js. A body is of any
-- type; its hash is a parameter, and so is what a JSONB column makes of it, which reorders the keys of
-- an object. The queries themselves do not fail.
use Prim.Native.Nat.{ℕ}
use Prim.Native.String.{String}
use text.Mathlib.Text.{◌==◌}
use paystream_contracts.Prelude.{
  Bool, true, false, List, [], ◌∷◌, ◌++◌, Option, none, some, if◌then◌else◌, ◌&&◌, ◌||◌, ltb,
}
use paystream_contracts.Js.{present}
pub mod Laws

module _ (B : Type 0) where
  pub record Row : Type 0 where
    pub key : String
    pub address : String
    pub request_body : B
    pub response_status : ℕ
    pub response_body : B

  -- What the middleware reads of a request: its header, its method, the address that the
  -- authentication has left, and the body
  pub record Request : Type 0 where
    pub key : Option String
    pub method : String
    pub stellar_address : Option String
    pub body : B

  pub data Outcome : Type 0 where
    -- `next()` with the response as it is
    passed : Outcome
    -- `next()` with a response that is stored under the key and the address
    wrapped : (key address : String) → Outcome
    -- 422
    mismatched : Outcome
    replayed : (status : ℕ) → B → Outcome

abbrev pub is_write : String → Bool
is_write m = m == "POST" || m == "PUT" || m == "PATCH" || m == "DELETE"

module _ {B : Type 0} where
  -- The query by key and address
  unfoldable pub find : String → String → List (Row B) → Option (Row B)
  find key address [] = none
  find key address (row ∷ rest) =
      let later = find key address rest in
      if row.key == key && row.address == address then some row else later

  -- `INSERT ... ON CONFLICT DO NOTHING`
  unfoldable pub insert_row : Row B → List (Row B) → List (Row B)
  insert_row row rows = elim (find row.key row.address rows) [
    | none ↦ rows ++ row ∷ []
    | some _ ↦ rows
  ]

  -- The row as it is read back: its bodies are JSONB.
  abbrev pub stored : (B → B) → Row B → Row B
  stored jsonb row = record row {
    request_body = jsonb row.request_body;
    response_body = jsonb row.response_body;
  }

  -- What `res.json` does beside answering, where the response is wrapped
  unfoldable pub store : (B → B) → Bool → Row B → List (Row B) → List (Row B)
  store jsonb has_pool row rows =
      if has_pool && ltb row.response_status 500 then insert_row (stored jsonb row) rows else rows

module _ {B : Type 0} (hash_body : B → String) where
  -- A row that was found, against the body of the request
  unfoldable pub answer : Row B → B → Outcome B
  answer cached body =
      if hash_body body == hash_body cached.request_body
      then replayed cached.response_status cached.response_body
      else mismatched

  unfoldable pub ask : Bool → String → String → B → List (Row B) → Outcome B
  ask has_pool key address body rows =
      if has_pool
      then elim (find key address rows) [
        | none ↦ wrapped key address
        | some cached ↦ answer cached body
      ]
      else wrapped key address

  -- `idempotencyMiddleware`
  unfoldable pub idempotency_middleware : Bool → Request B → List (Row B) → Outcome B
  idempotency_middleware has_pool req rows = elim (present req.key) [
    | none ↦ passed
    | some key ↦
        if is_write req.method
        then elim (present req.stellar_address) [
          | none ↦ passed
          | some address ↦ ask has_pool key address req.body rows
        ]
        else passed
  ]
