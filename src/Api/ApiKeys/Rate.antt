-- ===== src/Api/ApiKeys/Rate.antt =====
-- Proofs about the rate limit of api/services/apiKeyService.js.
use Prim.Native.Nat.{ℕ, suc, ◌+◌, ◌≤◌}
use Prim.Native.String.{String}
use paystream_contracts.Prelude.{◌≡◌, refl, arith, false, some, leb, ltb}
use paystream_contracts.Prelude.Dict.{lookup, insert}
use paystream_contracts.Api.ApiKeys.{RateLimit, Meta, Usage, State, current_usage, check_rate_limit}

-- The time is within the window that begins at `start`.
abbrev pub IsWithin : ℕ → ℕ → ℕ → Type 0
IsWithin start window now = now ≤ start + window

-- What one call does, with the usage `u` that it counts in.
pub check_lem :
    (hash : String) (m : Meta) (u : Usage) (now : ℕ) (s : State)
    → lookup hash s.keys ≡ some m
    → current_usage m.rate_limit now (lookup hash s.usage) ≡ u
    → check_rate_limit hash now s ≡ (
      leb (suc u.count) m.rate_limit.max,
      record s { usage = insert hash (record u { count = suc u.count }) s.usage },
    )
unfolding check_rate_limit
check_lem hash m u now s found current = rw (found, current, check_rate_limit) refl

pub current_within :
    (limit : RateLimit) (now : ℕ) (u : Usage)
    → IsWithin u.window_start limit.window_ms now
    → current_usage limit now (some u) ≡ u
unfolding current_usage
current_within limit now u within =
    let lasts : ltb (u.window_start + limit.window_ms) now ≡ false = ground (arith, within) in
    rw lasts refl
