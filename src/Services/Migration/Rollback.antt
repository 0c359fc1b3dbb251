-- ===== src/Services/Migration/Rollback.antt =====
-- Proofs about `rollback` of services/migration/migrationRunner.js: what it does is not seen by
-- the question which versions are applied.
use Prim.Native.String.{String}
use paystream_contracts.Prelude.{
  ◌≡◌, refl, ◌∙◌, ap, arith, Bool, false, List, [], ◌∷◌, Option, none, some, not, ◌&&◌, inl, inr,
  Option-cases,
}
use paystream_contracts.Prelude.Dict.{lookup}
use paystream_contracts.Js.{Result, ok, err}
use paystream_contracts.Js.Laws.{Keeps, Keeps-bind}
use paystream_contracts.Services.Migration.{
  Migration, State, Entry, is_success, Status, rollback_started, rollback_success, is_up_success,
  is_down_success, is_applied, audit, ensure_table, down, started, failed, rolled_back,
  rollback_failed, notify, Notice,
}
use paystream_contracts.Services.Migration.Runner.{
  Runner, entry_of, roll_down, roll_one, roll_all, rollback, pending, to_rollback, reverse,
  sorted_versions,
}
use paystream_contracts.Services.Migration.Audit.{
  is_applied-audit, is_applied-ensure_table, keep_ext,
}

-- The entry records no success.
abbrev IsSilent : Entry → Type 0
IsSilent e = (v : String) → (is_up_success v e ≡ false) × (is_down_success v e ≡ false)

silent_twice :
    (has_db : Bool) (e f : Entry) (n k : Notice) (w : State) (v : String)
    → IsSilent e
    → IsSilent f
    → is_applied has_db (notify n (audit has_db e (notify k (audit has_db f w)))) v
      ≡ is_applied has_db w v
unfolding is_applied
silent_twice has_db e f n k w v silent_e silent_f =
    is_applied-audit has_db e (notify k (audit has_db f w)) v (silent_e v).0 (silent_e v).1
    ∙ is_applied-audit has_db f w v (silent_f v).0 (silent_f v).1

down-IsSilent :
    (version : String) (description error : Option String) (status : Status)
    → is_success status ≡ false
    → IsSilent (record {
      version = version;
      description = description;
      direction = down;
      status = status;
      error = error;
    })
unfolding is_up_success is_down_success
down-IsSilent version description error status h v = (ground (arith, h), ground (arith, h))

module _ {S : Type 0} where
  roll_down-is_applied :
      (has_db : Bool) (version : String) (m : Migration S) (step : List S → Result (List S))
      (current : List S) (w : State) (v : String)
      → is_applied has_db (roll_down has_db version m step current w).1 v ≡ is_applied has_db w v
  unfolding roll_down
  roll_down-is_applied has_db version m step current w v = go (step current)
    where
      begun : IsSilent (entry_of m version down started none)
      begun = down-IsSilent version (some m.description) none started refl

      go :
          (q : Result (List S))
          → is_applied has_db (roll_down has_db version m (λ _. q) current w).1 v
            ≡ is_applied has_db w v
      go (ok back) =
          silent_twice has_db (entry_of m version down rolled_back none)
            (entry_of m version down started none) (rollback_success version)
            (rollback_started version) w v
            (down-IsSilent version (some m.description) none rolled_back refl) begun
      go (err x) =
          silent_twice has_db (entry_of m version down failed (some x.message))
            (entry_of m version down started none) (rollback_failed version x.message)
            (rollback_started version) w v
            (down-IsSilent version (some m.description) (some x.message) failed refl) begun

  roll_one-is_applied :
      (r : Runner S) (version : String) (current : List S) (w : State) (v : String)
      → is_applied r.has_db (roll_one r version current w).1 v ≡ is_applied r.has_db w v
  unfolding roll_one
  roll_one-is_applied r version current w v = elim (Option-cases (lookup version r.migrations)) [
    | inl absent ↦ rw (absent, roll_one) refl
    | inr (m, found) ↦ elim (Option-cases m.down) [
      | inl one_way ↦ rw (found, one_way, roll_one) refl
      | inr (step, two_ways) ↦
          rw (found, two_ways, roll_one) (roll_down-is_applied r.has_db version m step current w v)
    ]
  ]

  -- The version counts as it did, or as it did not.
  abbrev Counts : Runner S → String → Bool → State → Type 0
  Counts r v b w = is_applied r.has_db w v ≡ b

  roll_all-Counts :
      (r : Runner S) (v : String) (b : Bool) (versions : List String) (current : List S)
      → Keeps (Counts r v b) (roll_all r versions current)
  unfolding roll_all
  roll_all-Counts r v b [] current w h = h
  roll_all-Counts r v b (version ∷ rest) current w h =
      Keeps-bind (Counts r v b) (roll_one r version current) (roll_all r rest)
        (λ w h. roll_one-is_applied r version current w v ∙ h)
        (λ next. roll_all-Counts r v b rest next) w h

  -- Whatever a rollback does, with or without an error, the same versions count as applied after
  -- it: those that were rolled back still do.
  pub rollback-is_applied :
      (r : Runner S) (streams : List S) (target : String) (w : State) (v : String)
      → is_applied r.has_db (rollback r streams target w).1 v ≡ is_applied r.has_db w v
  unfolding rollback
  rollback-is_applied r streams target w v =
      roll_all-Counts r v (is_applied r.has_db w v) (to_rollback r target (ensure_table r.has_db w))
        streams (ensure_table r.has_db w) (is_applied-ensure_table r.has_db w v)

  -- After a rollback a migration finds the same versions pending, so it does not run again those
  -- that were rolled back, and another rollback undoes the same versions once more.
  pub pending-rollback :
      (r : Runner S) (streams : List S) (target : String) (w : State)
      → (pending r (rollback r streams target w).1 ≡ pending r w)
        × (to_rollback r target (rollback r streams target w).1 ≡ to_rollback r target w)
  unfolding pending to_rollback
  pending-rollback r streams target w =
      let after = (rollback r streams target w).1 in
      (
        keep_ext (λ v. not (is_applied r.has_db after v)) (λ v. not (is_applied r.has_db w v))
            (sorted_versions r) (λ v. ap not (rollback-is_applied r streams target w v)),
        ap reverse (
            keep_ext (λ v. is_applied r.has_db after v && r.before target v)
              (λ v. is_applied r.has_db w v && r.before target v) (sorted_versions r)
              (λ v. ap (λ b. b && r.before target v) (rollback-is_applied r streams target w v))),
      )
