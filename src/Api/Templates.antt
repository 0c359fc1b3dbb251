-- ===== src/Api/Templates.antt =====
-- The stream templates of api/services/templateService.js. The configuration `params` of a
-- template is of any type; ids and times are arguments.
use Prim.Native.String.{String}
use text.Mathlib.Text.{◌==◌}
use paystream_contracts.Prelude.{
  Bool, true, false, List, [], ◌∷◌, Option, none, some, if◌then◌else◌, ◌||◌, not, keep, map,
}
use paystream_contracts.Prelude.Dict.{lookup, insert, remove}
pub mod Laws

module _ (P : Type 0) where
  pub record Template : Type 0 where
    pub id : String
    pub owner_id : String
    pub name : String
    pub params : P
    pub shared : Bool
    pub is_default : Bool
    pub created_at : String
    pub updated_at : String

  -- What an update is given; `none` is a field left out.
  pub record Patch : Type 0 where
    pub name : Option String
    pub params : Option P
    pub shared : Option Bool

  abbrev pub Store : Type 0
  Store = List (String × Template)

abbrev pub or_old {ℓ} : {A : Type ℓ} → Option A → A → A
or_old none old = old
or_old (some new) old = new

module _ {P : Type 0} where
  -- One of the built-in templates, seeded when the module is loaded
  unfoldable pub seed : String → String → P → String → Store P → Store P
  seed id name params now s =
      insert id
        (record {
          id = id;
          owner_id = "system";
          name = name;
          params = params;
          shared = true;
          is_default = true;
          created_at = now;
          updated_at = now;
        })
        s

  unfoldable pub create :
      String → String → P → Option Bool → String → String → Store P → Template P × Store P
  create owner_id name params shared id now s =
      let tmpl : Template P = record {
        id = id;
        owner_id = owner_id;
        name = name;
        params = params;
        shared = or_old shared false;
        is_default = false;
        created_at = now;
        updated_at = now;
      } in
      (tmpl, insert id tmpl s)

  -- `createFromStream`, where `strip` leaves out the employer and the employee
  unfoldable pub create_from_stream :
      (strip : P → P) → String → String → P → String → String → Store P → Template P × Store P
  create_from_stream strip owner_id name stream_params id now s =
      create owner_id name (strip stream_params) none id now s

  -- `t.ownerId === ownerId || t.shared`
  abbrev pub is_visible : String → Template P → Bool
  is_visible owner_id t = t.owner_id == owner_id || t.shared

  unfoldable pub list : String → Store P → List (Template P)
  list owner_id s = keep (is_visible owner_id) (map (λ entry. entry.1) s)

  unfoldable pub get : String → String → Store P → Option (Template P)
  get id owner_id s = elim (lookup id s) [
    | none ↦ none
    | some t ↦ if is_visible owner_id t then some t else none
  ]

  -- `t.ownerId !== ownerId || t.isDefault`
  abbrev pub is_locked : String → Template P → Bool
  is_locked owner_id t = not (t.owner_id == owner_id) || t.is_default

  unfoldable pub patched : Patch P → String → Template P → Template P
  patched patch now t = record t {
    name = or_old patch.name t.name;
    params = or_old patch.params t.params;
    shared = or_old patch.shared t.shared;
    updated_at = now;
  }

  -- The template is changed where it is, unless it is not there or locked.
  unfoldable pub change :
      String → String → (Template P → Template P) → Store P → Option (Template P) × Store P
  change id owner_id f s = elim (lookup id s) [
    | none ↦ (none, s)
    | some t ↦ if is_locked owner_id t then (none, s) else (some (f t), insert id (f t) s)
  ]

  unfoldable pub update :
      String → String → Patch P → String → Store P → Option (Template P) × Store P
  update id owner_id patch now s = change id owner_id (patched patch now) s

  unfoldable pub share : String → String → Bool → String → Store P → Option (Template P) × Store P
  share id owner_id shared now s =
      change id owner_id (λ t. record t { shared = shared; updated_at = now }) s

  unfoldable pub remove_template : String → String → Store P → Bool × Store P
  remove_template id owner_id s = elim (lookup id s) [
    | none ↦ (false, s)
    | some t ↦ if is_locked owner_id t then (false, s) else (true, remove id s)
  ]
