-- ===== src/Api/Auth/Laws.antt =====
-- Proofs about api/middleware/auth.js, with the keys and their limits behind it.
use Prim.Native.Nat.{ℕ, suc}
use Prim.Native.String.{String}
use paystream_contracts.Prelude.{
  Bool, true, false, List, [], ◌∷◌, Option, none, some, if◌then◌else◌,
}
use paystream_contracts.Prelude.Dict.{insert}
use paystream_contracts.Api.ApiKeys.{Meta, Usage, State}
use paystream_contracts.Api.Auth.{Outcome, as_key, rejected, rate_limit_exceeded, auth_middleware}

-- `next()` is called.
abbrev pub is_admitted : Outcome → Bool
is_admitted (rejected _) = false
is_admitted _ = true

module _ (verify : String → Option (Option String)) (hash_key : String → String) where
  -- How many are admitted, of requests with one API key and no token at the given times
  unfoldable pub admitted : String → List ℕ → State → ℕ
  admitted raw [] s = 0
  admitted raw (now ∷ times) s =
      let (outcome, next) = auth_middleware verify hash_key none (some raw) now s in
      let rest = admitted raw times next in if is_admitted outcome then suc rest else rest

-- The state after a request with a good key that counts in the usage `u`
abbrev counted_state : String → Meta → ℕ → Usage → State → State
counted_state hash m now u s = record {
  keys = insert hash (record m { last_used_at = some now }) s.keys;
  usage = insert hash (record u { count = suc u.count }) s.usage;
}

abbrev either : Bool → String → Meta → State → Outcome × State
either b raw m s = if b then (as_key raw m, s) else (rejected rate_limit_exceeded, s)
