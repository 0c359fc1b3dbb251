-- ===== src/Demo/Templates.antt =====
-- Stream templates (demo/src/useStreamTemplates.ts). `JSON.stringify` and `JSON.parse` of a list of
-- templates are given; `none` is a text that does not parse.
pub mod Laws
use Prim.Native.String.{String}
use text.Mathlib.Text.{◌==◌}
use paystream_contracts.Prelude.{
  ℕ, List, [], ◌∷◌, ◌++◌, Option, none, some, if◌then◌else◌, keep, not, map,
}
use paystream_contracts.Prelude.Dict.{lookup, insert}

pub record StreamTemplate : Type 0 where
  pub id : String
  pub name : String
  pub token : String
  pub deposit : String
  pub rate : String
  pub stop_time : String
  pub created_at : ℕ

-- A template without `id` and `createdAt`; in a patch, each field may be absent.
pub record Draft : Type 0 where
  pub name : String
  pub token : String
  pub deposit : String
  pub rate : String
  pub stop_time : String

pub record Patch : Type 0 where
  pub name : Option String
  pub token : Option String
  pub deposit : Option String
  pub rate : Option String
  pub stop_time : Option String

abbrev pub storage_key : String
storage_key = "paystream-templates"

-- The state of the hook, and the browser's local storage.
pub record Templates : Type 0 where
  pub templates : List StreamTemplate
  pub local_storage : List (String × String)

abbrev or_old : Option String → String → String
or_old none old = old
or_old (some new) old = new

-- `{ ...t, ...patch }`
unfoldable pub patched : Patch → StreamTemplate → StreamTemplate
patched q t = record t {
  name = or_old q.name t.name;
  token = or_old q.token t.token;
  deposit = or_old q.deposit t.deposit;
  rate = or_old q.rate t.rate;
  stop_time = or_old q.stop_time t.stop_time;
}

module _ (stringify : List StreamTemplate → String)
    (parse : String → Option (List StreamTemplate)) where
  -- `JSON.parse(localStorage.getItem(STORAGE_KEY) ?? "[]")`, and `[]` if it throws
  unfoldable pub load : List (String × String) → List StreamTemplate
  load storage = elim (lookup storage_key storage) [
    | none ↦ elim (parse "[]") [ none ↦ [] | some ts ↦ ts ]
    | some text ↦ elim (parse text) [ none ↦ [] | some ts ↦ ts ]
  ]

  unfoldable pub persist : List StreamTemplate → List (String × String) → List (String × String)
  persist templates storage = insert storage_key (stringify templates) storage

  -- `setTemplates` with a new list, which is persisted.
  set_templates : List StreamTemplate → Templates → Templates
  unfolding persist
  set_templates updated s = record {
    templates = updated;
    local_storage = persist updated s.local_storage;
  }

  -- The effect after mount
  unfoldable pub mount : Templates → Templates
  unfolding load
  mount s = record s { templates = load s.local_storage }

  -- `save`, with the id and the time that it takes from the browser
  unfoldable pub save : String → ℕ → Draft → Templates → Templates
  unfolding set_templates
  save id now draft s =
      set_templates
        (s.templates
          ++ record {
            id = id;
            name = draft.name;
            token = draft.token;
            deposit = draft.deposit;
            rate = draft.rate;
            stop_time = draft.stop_time;
            created_at = now;
          }
            ∷ [])
        s

  unfoldable pub remove : String → Templates → Templates
  unfolding set_templates
  remove id s = set_templates (keep (λ t. not (t.id == id)) s.templates) s

  unfoldable pub update : String → Patch → Templates → Templates
  unfolding set_templates
  update id patch s =
      set_templates (map (λ t. if t.id == id then patched patch t else t) s.templates) s
