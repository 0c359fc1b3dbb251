-- ===== src/Api/Auth.antt =====
-- The authentication of api/middleware/auth.js, in front of the routes. The JWT library, with its
-- secret, is a parameter.
use Prim.Native.Nat.{ℕ}
use Prim.Native.String as Native
use Prim.Native.String.{String}
use text.Mathlib.Text.{starts_with}
use paystream_contracts.Prelude.{Bool, true, false, Option, none, some, if◌then◌else◌}
use paystream_contracts.Js.{present}
use paystream_contracts.Api.ApiKeys.{Meta, State, validate_key, check_rate_limit}
pub mod Laws

pub data Rejection : Type 0 where
  invalid_jwt : Rejection
  invalid_api_key : Rejection
  rate_limit_exceeded : Rejection
  missing_auth : Rejection

-- What `next()` finds in the request: `payload.sub`, or the key and its entry
pub data Outcome : Type 0 where
  as_account : (stellar_address : Option String) → Outcome
  as_key : (api_key : String) → Meta → Outcome
  rejected : Rejection → Outcome

abbrev pub status : Rejection → ℕ
status rate_limit_exceeded = 429
status _ = 401

-- `authHeader.slice(7)` for a header that starts with `Bearer `
unfoldable pub bearer : Option String → Option String
bearer none = none
bearer (some header) =
    if starts_with header "Bearer " then some (Native.slice header 7 (Native.len header)) else none

module _ (hash_key : String → String) where
  -- The part about the header `X-API-Key`
  unfoldable pub with_key : String → ℕ → State → Outcome × State
  with_key raw now s =
      let (meta, checked) = validate_key hash_key raw now s in
      elim meta [
        | none ↦ (rejected invalid_api_key, checked)
        | some m ↦
            let (allowed, counted) = check_rate_limit (hash_key raw) now checked in
            if allowed then (as_key raw m, counted) else (rejected rate_limit_exceeded, counted)
      ]

-- `verify token` is `none` where `jwt.verify` throws, and else its `sub`, if there is one.
module _ (verify : String → Option (Option String)) (hash_key : String → String) where
  -- `authMiddleware`, by the two headers
  unfoldable pub auth_middleware : Option String → Option String → ℕ → State → Outcome × State
  auth_middleware authorization api_key now s = elim (bearer authorization) [
    | some token ↦ elim (verify token) [
      | none ↦ (rejected invalid_jwt, s)
      | some sub ↦ (as_account sub, s)
    ]
    | none ↦ elim (present api_key) [
      | some raw ↦ with_key hash_key raw now s
      | none ↦ (rejected missing_auth, s)
    ]
  ]
