-- ===== src/Api/ApiKeys/Lifetime.antt =====
-- Proofs about api/services/apiKeyService.js: how long a key is good.
use Prim.Native.Nat.{ℕ}
use Prim.Native.String.{String}
use text.Mathlib.Text.{◌==◌}
use paystream_contracts.Prelude.{
  ◌≡◌, refl, arith, eq_iff, Bool, true, false, List, [], ◌∷◌, Option, none, some, All, Option-cases,
  ◌⊎◌, inl, inr, Bool-cases,
}
use paystream_contracts.Prelude.Dict.{lookup, insert, lookup-insert, lookup-insert_self}
use paystream_contracts.Js.{ok, err, new_error, ◌<>◌}
use paystream_contracts.Api.ApiKeys.{
  Meta, State, KeyOptions, Fresh, key_prefix, is_well_formed, revoke, revoke_first, revoke_by_id,
  live, create_key, validate_key, rotate_key, check_rate_limit, new_meta,
}

-- The operations, with what they are given
pub data Operation : Type 0 where
  create : KeyOptions → Fresh → Operation
  validate : String → ℕ → Operation
  check : String → ℕ → Operation
  rotate : String → Fresh → Operation
  revoke_id : String → ℕ → Operation

-- The entry of the hash is there and revoked.
abbrev pub IsRevoked : String → State → Type 0
IsRevoked hash s = (meta : Meta) × (lookup hash s.keys ≡ some meta) × (meta.revoked ≡ true)

module _ (hash_key : String → String) where
  unfoldable pub step : Operation → State → State
  step (create opts fresh) s = (create_key hash_key opts fresh s).1
  step (validate raw now) s = (validate_key hash_key raw now s).1
  step (check hash now) s = (check_rate_limit hash now s).1
  step (rotate raw fresh) s = (rotate_key hash_key raw fresh s).1
  step (revoke_id id now) s = (revoke_by_id id now s).1

  unfoldable pub run : List Operation → State → State
  run [] s = s
  run (o ∷ os) s = run os (step o s)

  -- The operation makes no key with the hash.
  abbrev pub IsOther : String → Operation → Type 0
  IsOther hash (create opts fresh) = (hash_key (key_prefix <> fresh.random) == hash) ≡ false
  IsOther hash (rotate raw fresh) = (hash_key (key_prefix <> fresh.random) == hash) ≡ false
  IsOther hash _ = Unit

abbrev revoked_in : Option Meta → Bool
revoked_in none = false
revoked_in (some meta) = meta.revoked

revoked_first :
    (hash id : String) (now : ℕ) (keys : List (String × Meta))
    → revoked_in (lookup hash keys) ≡ true
    → revoked_in (lookup hash (revoke_first id now keys).1) ≡ true
unfolding revoke_first lookup revoke
revoked_first hash id now [] h = h
revoked_first hash id now (entry ∷ rest) h = ground (arith, h, revoked_first hash id now rest)

-- Putting in an entry that is not that of the hash, or a revoked one
revoked_insert :
    (hash other : String) (m : Meta) (keys : List (String × Meta))
    → revoked_in (lookup hash keys) ≡ true
    → ((other == hash) ≡ false) ⊎ (m.revoked ≡ true)
    → revoked_in (lookup hash (insert other m keys)) ≡ true
revoked_insert hash other m keys h k = ground (arith, h, k, lookup-insert other hash m keys)

live_other :
    (hash key : String) (m : Meta) (s : State)
    → revoked_in (lookup hash s.keys) ≡ true
    → live key s ≡ some m
    → (key == hash) ≡ false
unfolding live
live_other hash key m s h alive = ground (arith, h, alive, eq_iff key hash)

validate_revoked :
    (hash_key : String → String) (hash raw : String) (now : ℕ) (s : State)
    → revoked_in (lookup hash s.keys) ≡ true
    → revoked_in (lookup hash (validate_key hash_key raw now s).1.keys) ≡ true
unfolding validate_key
validate_revoked f hash raw now s h = elim (Bool-cases (is_well_formed raw)) [
  | inl formed ↦ elim (Option-cases (live (f raw) s)) [
    | inl dead ↦ rw (formed, dead, validate_key) h
    | inr (m, alive) ↦
        rw (formed, alive, validate_key)
          (revoked_insert hash (f raw) (record m { last_used_at = some now }) s.keys h
            (inl (live_other hash (f raw) m s h alive)))
  ]
  | inr malformed ↦ rw (malformed, validate_key) h
]

rotate_revoked :
    (hash_key : String → String) (hash raw : String) (fresh : Fresh) (s : State)
    → (hash_key (key_prefix <> fresh.random) == hash) ≡ false
    → revoked_in (lookup hash s.keys) ≡ true
    → revoked_in (lookup hash (rotate_key hash_key raw fresh s).1.keys) ≡ true
unfolding rotate_key revoke
rotate_revoked f hash raw fresh s other h = elim (Option-cases (live (f raw) s)) [
  | inl dead ↦ rw (dead, rotate_key) h
  | inr (m, alive) ↦
      let old = revoked_insert hash (f raw) (revoke fresh.now m) s.keys h (inr refl) in
      rw (alive, rotate_key)
        (revoked_insert hash (f (key_prefix <> fresh.random)) _
          (insert (f raw) (revoke fresh.now m) s.keys) old (inl other))
]

step-revoked :
    (hash_key : String → String) (hash : String) (o : Operation) (s : State)
    → IsOther hash_key hash o
    → revoked_in (lookup hash s.keys) ≡ true
    → revoked_in (lookup hash (step hash_key o s).keys) ≡ true
unfolding step create_key check_rate_limit revoke_by_id
step-revoked f hash (create opts fresh) s other h =
    revoked_insert hash (f (key_prefix <> fresh.random)) _ s.keys h (inl other)
step-revoked f hash (validate raw now) s other h = validate_revoked f hash raw now s h
step-revoked f hash (check key now) s other h = ground (arith, h)
step-revoked f hash (rotate raw fresh) s other h = rotate_revoked f hash raw fresh s other h
step-revoked f hash (revoke_id id now) s other h = revoked_first hash id now s.keys h

revoked_dead :
    (hash : String) (s : State) → revoked_in (lookup hash s.keys) ≡ true → live hash s ≡ none
unfolding live
revoked_dead hash s h = ground (arith, h)

run-revoked :
    (hash_key : String → String) (hash : String) (os : List Operation) (s : State)
    → All (IsOther hash_key hash) os
    → revoked_in (lookup hash s.keys) ≡ true
    → revoked_in (lookup hash (run hash_key os s).keys) ≡ true
unfolding run
run-revoked f hash [] s others h = h
run-revoked f hash (o ∷ os) s (other, others) h =
    run-revoked f hash os (step f o s) others (step-revoked f hash o s other h)

-- A key whose entry is revoked is never accepted again: neither validated nor rotated, after any
-- operations that do not by chance make a key with the same hash.
pub run-IsRevoked :
    (hash_key : String → String) (raw : String) (now : ℕ) (fresh : Fresh) (os : List Operation)
    (s : State)
    → IsRevoked (hash_key raw) s
    → All (IsOther hash_key (hash_key raw)) os
    → ((validate_key hash_key raw now (run hash_key os s)).0 ≡ none)
      × ((rotate_key hash_key raw fresh (run hash_key os s)).0
          ≡ err (new_error "Key not found or already revoked"))
unfolding validate_key rotate_key
run-IsRevoked f raw now fresh os s (m, found, revoked) others =
    let kept = run-revoked f (f raw) os s others (ground (arith, found, revoked)) in
    let dead = revoked_dead (f raw) (run f os s) kept in
    (ground (arith, dead), ground (arith, dead))

-- Rotating a key that is there and not revoked, when the new key has another hash, returns the new
-- key and its id; the old key is refused from then on, the new one is good for the same owner, name
-- and limit, and a key with a third hash is as good as it was.
pub rotate_key_lem :
    (hash_key : String → String) (raw_old : String) (fresh : Fresh) (meta : Meta) (s : State)
    (other : String)
    → live (hash_key raw_old) s ≡ some meta
    → (hash_key (key_prefix <> fresh.random) == hash_key raw_old) ≡ false
    → (hash_key raw_old == other) ≡ false
    → (hash_key (key_prefix <> fresh.random) == other) ≡ false
    → let after = (rotate_key hash_key raw_old fresh s).1 in
      let raw = key_prefix <> fresh.random in
      ((rotate_key hash_key raw_old fresh s).0 ≡ ok (raw, fresh.id))
      × (live (hash_key raw_old) after ≡ none)
      × (live (hash_key raw) after
          ≡ some (
              new_meta meta.name meta.owner_id meta.rate_limit (hash_key raw) fresh (some meta.id)))
      × (live other after ≡ live other s)
unfolding rotate_key revoke live
rotate_key_lem f raw_old fresh meta s other alive different third fourth =
    let raw = key_prefix <> fresh.random in
    let made = new_meta meta.name meta.owner_id meta.rate_limit (f raw) fresh (some meta.id) in
    let dead = revoke fresh.now meta in
    let before = insert (f raw_old) dead s.keys in
    let old_in = lookup-insert (f raw) (f raw_old) made before in
    let old_out = lookup-insert_self (f raw_old) dead s.keys in
    let new_in = lookup-insert_self (f raw) made before in
    let other_in = lookup-insert (f raw) other made before in
    let other_out = lookup-insert (f raw_old) other dead s.keys in
    rw (alive, rotate_key)
      (
        refl,
        ground (arith, old_in, old_out, different),
        ground (arith, new_in),
        ground (arith, other_in, other_out, third, fourth),
      )
