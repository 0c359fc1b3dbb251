-- ===== src/Api/Templates/Laws.antt =====
-- Proofs about api/services/templateService.js: who can change what.
use Prim.Native.String.{String}
use text.Mathlib.Text.{◌==◌}
use paystream_contracts.Prelude.{
  ◌≡◌, arith, eq_iff, Bool, true, false, List, [], ◌∷◌, Option, none, some, All, if◌then◌else◌,
  Bool-cases, Option-cases, inl, inr, ◌⊎◌,
}
use paystream_contracts.Prelude.Dict.{lookup, lookup-insert, lookup-remove, lookup-insert_self}
use paystream_contracts.Api.Templates.{
  Template, Patch, Store, create, update, share, remove_template, change, patched, is_locked, get,
}

module _ (P : Type 0) where
  -- The calls that change the store, each with the id it is about and its caller
  pub data Call : Type 0 where
    creating : (id caller : String) → String → P → Option Bool → String → Call
    updating : (id caller : String) → Patch P → String → Call
    sharing : (id caller : String) → Bool → String → Call
    removing : (id caller : String) → Call

module _ {P : Type 0} where
  unfoldable pub step : Call P → Store P → Store P
  step (creating id caller name params shared now) s = (create caller name params shared id now s).1
  step (updating id caller patch now) s = (update id caller patch now s).1
  step (sharing id caller shared now) s = (share id caller shared now s).1
  step (removing id caller) s = (remove_template id caller s).1

  unfoldable pub run : List (Call P) → Store P → Store P
  run [] s = s
  run (c ∷ cs) s = run cs (step c s)

  -- The caller does not own the template, or the template is built in.
  abbrev pub IsBarred : String → Template P → Type 0
  IsBarred caller t = ((t.owner_id == caller) ≡ false) ⊎ (t.is_default ≡ true)

  -- The call does not create the id anew, and if it is to change or remove a template, its caller is
  -- barred from doing so with this one.
  abbrev pub IsForeign : String → Template P → Call P → Type 0
  IsForeign id t (creating other caller name params shared now) = (other == id) ≡ false
  IsForeign id t (updating other caller patch now) = IsBarred caller t
  IsForeign id t (sharing other caller shared now) = IsBarred caller t
  IsForeign id t (removing other caller) = IsBarred caller t

  barred_locked : (caller : String) (t : Template P) → IsBarred caller t → is_locked caller t ≡ true
  barred_locked caller t (inl foreign) = ground (arith, foreign)
  barred_locked caller t (inr built_in) = ground (arith, built_in)

  change_foreign :
      (id other caller : String) (f : Template P → Template P) (t : Template P) (s : Store P)
      → is_locked caller t ≡ true
      → lookup id s ≡ some t
      → lookup id (change other caller f s).1 ≡ some t
  unfolding change
  change_foreign id other caller f t s locked found = elim (Option-cases (lookup other s)) [
    | inl absent ↦ rw (absent, change) found
    | inr (u, there) ↦ elim (Bool-cases (is_locked caller u)) [
      | inl closed ↦ rw (there, closed, change) found
      | inr free ↦
          rw (there, free, change)
            (ground
              (arith, found, there, free, locked, eq_iff other id, lookup-insert other id (f u) s))
    ]
  ]

  remove_foreign :
      (id other caller : String) (t : Template P) (s : Store P)
      → is_locked caller t ≡ true
      → lookup id s ≡ some t
      → lookup id (remove_template other caller s).1 ≡ some t
  unfolding remove_template
  remove_foreign id other caller t s locked found = elim (Option-cases (lookup other s)) [
    | inl absent ↦ rw (absent, remove_template) found
    | inr (u, there) ↦ elim (Bool-cases (is_locked caller u)) [
      | inl closed ↦ rw (there, closed, remove_template) found
      | inr free ↦
          rw (there, free, remove_template)
            (ground (arith, found, there, free, locked, eq_iff other id, lookup-remove other id s))
    ]
  ]

  -- A template stays as it is, whatever is called, as long as no call creates its id anew and each
  -- call to change or remove a template is by somebody who does not own it, or it is built in.
  pub run_foreign :
      (id : String) (t : Template P) (cs : List (Call P)) (s : Store P)
      → lookup id s ≡ some t
      → All (IsForeign id t) cs
      → lookup id (run cs s) ≡ some t
  unfolding run step create update share
  run_foreign id t [] s found foreign = found
  run_foreign id t (creating other caller name params shared now ∷ cs) s found (one, others) =
      run_foreign id t cs _
        (ground (
          arith,
          found,
          one,
          lookup-insert other id (create caller name params shared other now s).0 s,
        ))
        others
  run_foreign id t (updating other caller patch now ∷ cs) s found (one, others) =
      run_foreign id t cs _
        (change_foreign id other caller (patched patch now) t s (barred_locked caller t one) found)
        others
  run_foreign id t (sharing other caller shared now ∷ cs) s found (one, others) =
      run_foreign id t cs _
        (change_foreign id other caller _ t s (barred_locked caller t one) found) others
  run_foreign id t (removing other caller ∷ cs) s found (one, others) =
      run_foreign id t cs _ (remove_foreign id other caller t s (barred_locked caller t one) found)
        others

  -- After its owner has shared a template that is not built in, or has stopped sharing it, anybody
  -- else gets it as it now is, or does not get it.
  pub get-share :
      (id owner other : String) (b : Bool) (now : String) (t : Template P) (s : Store P)
      → lookup id s ≡ some t
      → is_locked owner t ≡ false
      → (owner == other) ≡ false
      → get id other (share id owner b now s).1
        ≡ (if b then some (record t { shared = b; updated_at = now }) else none)
  unfolding get share change
  get-share id owner other b now t s found free different =
      let changed : Template P = record t { shared = b; updated_at = now } in
      let stored = lookup-insert_self id changed s in
      rw (found, free, change, get)
        (ground (
          arith,
          stored,
          different,
          free,
          eq_iff t.owner_id owner,
          eq_iff t.owner_id other,
          eq_iff owner other,
        ))
