-- ===== src/Api/Tests.antt =====
-- Tests of the server's model, and the theorems at concrete inputs.
use Prim.Native.Nat.{ℕ, ◌+◌, ◌*◌, ◌-◌, ◌≤◌, ◌<◌}
use Prim.Native.String.{String}
use paystream_contracts.Prelude.{
  ◌≡◌, refl, Bool, true, List, [], ◌∷◌, Option, none, some, inl, inr, arith,
}
use paystream_contracts.Prelude.Dict.{lookup, insert}
use paystream_contracts.Js.{Result, ok, err, ◌<>◌, new_error}
use paystream_contracts.Api.AuthLimiter as Limiter
use paystream_contracts.Api.AuthLimiter.{
  auth_rate_limiter, defaults, request, failure, passed, get_failure_entry,
}
use paystream_contracts.Api.AuthLimiter.Laws.{run-IsLimited, IsLimited}
use paystream_contracts.Api.AuthLimiter.Free.{run_passes}
use paystream_contracts.Api.ApiKeys as Keys
use paystream_contracts.Api.ApiKeys.{
  Meta, RateLimit, Fresh, validate_key, rotate_key, key_prefix, new_meta,
}
use paystream_contracts.Api.ApiKeys.Lifetime.{check, validate, run-IsRevoked, rotate_key_lem}
mod Records

-- Five failures, the last one at 400 ms, and a day of other events
abbrev locked : Limiter.State
locked = record {
  failures = ("1.2.3.4:GA", record { count = 5; last_failure_at = 400 }) ∷ [];
  lockouts = [];
}

abbrev quiet_day : List Limiter.Event
quiet_day =
    request defaults "1.2.3.4:GA" 900401
    ∷ failure "5.6.7.8:GB" 1000000
    ∷ request defaults "5.6.7.8:GB" 2000000
    ∷ []

run-IsLimited_example :
    IsLimited (auth_rate_limiter defaults "1.2.3.4:GA" 86400000 (Limiter.run quiet_day locked)).0
unfolding get_failure_entry lookup
run-IsLimited_example =
    run-IsLimited defaults "1.2.3.4:GA" 86400000 quiet_day locked (omega arith) (tt, (tt, (tt, tt)))

run_passes_example :
    (auth_rate_limiter defaults "5.6.7.8:GB" 3000000 (Limiter.run quiet_day locked)).0
    ≡ passed "5.6.7.8:GB" (get_failure_entry "5.6.7.8:GB" (Limiter.run quiet_day locked))
unfolding get_failure_entry lookup
run_passes_example =
    run_passes 5 defaults "5.6.7.8:GB" 3000000 quiet_day locked (omega arith) (omega arith)
      (omega arith, (tt, (omega arith, tt))) refl (omega arith)

-- A hash that keeps the text
abbrev plain : String → String
plain s = "h" <> s

abbrev fresh : Fresh
fresh = record { random = "new"; id = "id2"; now = 50 }

abbrev key_meta : Bool → Meta
key_meta revoked = record {
  id = "id1";
  name = "ci";
  owner_id = "GA";
  hash = "hpsk_old";
  rate_limit = record { window_ms = 1000; max = 2 };
  revoked = revoked;
  created_at = 0;
  last_used_at = none;
  rotated_from = none;
  revoked_at = none;
}

abbrev with_entry : Bool → Keys.State
with_entry revoked = record { keys = ("hpsk_old", key_meta revoked) ∷ []; usage = [] }

run-IsRevoked_example :
    ((validate_key plain "psk_old" 90 (
        Keys.Lifetime.run plain
          (check "hpsk_old" 60 ∷ validate "psk_old" 70 ∷ [])
          (with_entry true))).0
      ≡ none)
    × ((rotate_key plain "psk_old" fresh (
          Keys.Lifetime.run plain
            (check "hpsk_old" 60 ∷ validate "psk_old" 70 ∷ [])
            (with_entry true))).0
        ≡ err (new_error "Key not found or already revoked"))
unfolding lookup
run-IsRevoked_example =
    run-IsRevoked plain "psk_old" 90 fresh (check "hpsk_old" 60 ∷ validate "psk_old" 70 ∷ [])
      (with_entry true) (key_meta true, refl, refl) (tt, (tt, tt))
