-- ===== src/Api/ApiKeys.antt =====
-- The API keys of api/services/apiKeyService.js and the middleware that asks for one,
-- api/middleware/auth.js. The hash function, the random parts and the JWT library are parameters.
use Prim.Native.Nat.{ℕ, suc, ◌+◌, ◌*◌}
use Prim.Native.String.{String}
use text.Mathlib.Text.{◌==◌, starts_with}
use paystream_contracts.Prelude.{
  Bool, true, false, List, [], ◌∷◌, Option, none, some, ltb, leb, if◌then◌else◌, ◌||◌, ◌&&◌, not,
  keep, map,
}
use paystream_contracts.Prelude.Dict.{lookup, insert}
use paystream_contracts.Js.{Error, new_error, Result, ok, err, ◌<>◌}
pub mod Lifetime
pub mod Rate

pub record RateLimit : Type 0 where
  pub window_ms : ℕ
  pub max : ℕ

-- `DEFAULT_RATE_LIMIT`
abbrev pub default_rate_limit : RateLimit
default_rate_limit = record { window_ms = 15 * 60 * 1000; max = 1000 }

-- What is kept of a key; times are milliseconds.
pub record Meta : Type 0 where
  pub id : String
  pub name : String
  pub owner_id : String
  pub hash : String
  pub rate_limit : RateLimit
  pub revoked : Bool
  pub created_at : ℕ
  pub last_used_at : Option ℕ
  pub rotated_from : Option String
  pub revoked_at : Option ℕ

pub record Usage : Type 0 where
  pub count : ℕ
  pub window_start : ℕ

-- `keys` and `usage`, by the hash of the key
pub record State : Type 0 where
  pub keys : List (String × Meta)
  pub usage : List (String × Usage)

abbrev pub key_prefix : String
key_prefix = "psk_"

-- `{ name, ownerId, rateLimit? }`
pub record KeyOptions : Type 0 where
  pub name : String
  pub owner_id : String
  pub rate_limit : Option RateLimit

-- What `crypto` and the clock give to an operation that makes a key
pub record Fresh : Type 0 where
  pub random : String
  pub id : String
  pub now : ℕ

abbrev pub limit_or_default : Option RateLimit → RateLimit
limit_or_default none = default_rate_limit
limit_or_default (some limit) = limit

abbrev pub new_meta : String → String → RateLimit → String → Fresh → Option String → Meta
new_meta name owner_id rate_limit hash fresh rotated_from = record {
  id = fresh.id;
  name = name;
  owner_id = owner_id;
  hash = hash;
  rate_limit = rate_limit;
  revoked = false;
  created_at = fresh.now;
  last_used_at = none;
  rotated_from = rotated_from;
  revoked_at = none;
}

-- The key, which is shown once, and its id
abbrev pub Created : Type 0
Created = String × String

-- `raw` is a text that is not empty and starts with the prefix.
unfoldable pub is_well_formed : String → Bool
is_well_formed raw = not (raw == "") && starts_with raw key_prefix

unfoldable pub revoke : ℕ → Meta → Meta
revoke now meta = record meta { revoked = true; revoked_at = some now }

-- The loop of `revokeById` over the keys
unfoldable pub revoke_first : String → ℕ → List (String × Meta) → Bool × List (String × Meta)
revoke_first id now [] = (false, [])
revoke_first id now (entry ∷ rest) =
    let (found, later) = revoke_first id now rest in
    if entry.1.id == id
    then (true, (entry.0, revoke now entry.1) ∷ rest)
    else (found, entry ∷ later)

unfoldable pub revoke_by_id : String → ℕ → State → Bool × State
revoke_by_id id now s =
    let (found, keys) = revoke_first id now s.keys in (found, record s { keys = keys })

-- The window that a call counts in
unfoldable pub current_usage : RateLimit → ℕ → Option Usage → Usage
current_usage limit now none = record { count = 0; window_start = now }
current_usage limit now (some u) =
    if ltb (u.window_start + limit.window_ms) now
    then record { count = 0; window_start = now }
    else u

unfoldable pub check_rate_limit : String → ℕ → State → Bool × State
check_rate_limit hash now s = elim (lookup hash s.keys) [
  | none ↦ (false, s)
  | some meta ↦
      let old = current_usage meta.rate_limit now (lookup hash s.usage) in
      let u : Usage = record old { count = suc old.count } in
      (leb u.count meta.rate_limit.max, record s { usage = insert hash u s.usage })
]

-- The key's entry, if it is there and not revoked
unfoldable pub live : String → State → Option Meta
live hash s = elim (lookup hash s.keys) [
  | none ↦ none
  | some meta ↦ if meta.revoked then none else some meta
]

module _ (hash_key : String → String) where
  unfoldable pub create_key : KeyOptions → Fresh → State → Created × State
  create_key opts fresh s =
      let raw = key_prefix <> fresh.random in
      let limit = limit_or_default opts.rate_limit in
      let meta = new_meta opts.name opts.owner_id limit (hash_key raw) fresh none in
      ((raw, fresh.id), record s { keys = insert (hash_key raw) meta s.keys })

  unfoldable pub validate_key : String → ℕ → State → Option Meta × State
  validate_key raw now s =
      if is_well_formed raw
      then elim (live (hash_key raw) s) [
        | none ↦ (none, s)
        | some meta ↦
            let used : Meta = record meta { last_used_at = some now } in
            (some used, record s { keys = insert (hash_key raw) used s.keys })
      ]
      else (none, s)

  unfoldable pub rotate_key : String → Fresh → State → Result Created × State
  rotate_key raw_old fresh s = elim (live (hash_key raw_old) s) [
    | none ↦ (err (new_error "Key not found or already revoked"), s)
    | some meta ↦
        let raw = key_prefix <> fresh.random in
        let replacement =
          new_meta meta.name meta.owner_id meta.rate_limit (hash_key raw) fresh (some meta.id) in
        let without = insert (hash_key raw_old) (revoke fresh.now meta) s.keys in
        (ok (raw, fresh.id), record s { keys = insert (hash_key raw) replacement without })
  ]

-- An entry without its hash
pub record SafeMeta : Type 0 where
  pub id : String
  pub name : String
  pub owner_id : String
  pub rate_limit : RateLimit
  pub revoked : Bool
  pub created_at : ℕ
  pub last_used_at : Option ℕ
  pub rotated_from : Option String
  pub revoked_at : Option ℕ

abbrev pub strip_hash : Meta → SafeMeta
strip_hash meta = record {
  id = meta.id;
  name = meta.name;
  owner_id = meta.owner_id;
  rate_limit = meta.rate_limit;
  revoked = meta.revoked;
  created_at = meta.created_at;
  last_used_at = meta.last_used_at;
  rotated_from = meta.rotated_from;
  revoked_at = meta.revoked_at;
}

unfoldable pub list_keys : String → State → List SafeMeta
list_keys owner_id s =
    map (λ entry. strip_hash entry.1) (keep (λ entry. entry.1.owner_id == owner_id) s.keys)

pub record KeyUsage : Type 0 where
  pub id : String
  pub count : ℕ
  pub window_start : Option ℕ
  pub last_used_at : Option ℕ

-- The answer for a key that was found
abbrev pub usage_of : String → Meta → Option Usage → KeyUsage
usage_of id meta none = record {
  id = id;
  count = 0;
  window_start = none;
  last_used_at = meta.last_used_at;
}
usage_of id meta (some u) = record {
  id = id;
  count = u.count;
  window_start = some u.window_start;
  last_used_at = meta.last_used_at;
}

-- `getUsage`, looking through `keys`
unfoldable pub get_usage : String → List (String × Meta) → State → Option KeyUsage
get_usage id [] s = none
get_usage id (entry ∷ rest) s =
    let later = get_usage id rest s in
    if entry.1.id == id then some (usage_of id entry.1 (lookup entry.0 s.usage)) else later
