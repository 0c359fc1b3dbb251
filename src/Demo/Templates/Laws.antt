-- ===== src/Demo/Templates/Laws.antt =====
-- Proofs about stream templates (demo/src/useStreamTemplates.ts).
use Prim.Native.String.{String}
use text.Mathlib.Text.{◌==◌}
use paystream_contracts.Prelude.{
  ℕ, ◌≡◌, refl, arith, not, List, [], ◌∷◌, Option, some, if◌then◌else◌, keep, map,
}
use paystream_contracts.Prelude.Dict.{lookup-insert_self}
use paystream_contracts.Demo.Templates.{
  StreamTemplate, Draft, Patch, Templates, storage_key, load, persist, mount, save, remove, update,
  patched, set_templates,
}

module _ (stringify : List StreamTemplate → String)
    (parse : String → Option (List StreamTemplate)) where
  -- The text of a list of templates parses to the list.
  abbrev pub ReadsBack : List StreamTemplate → Type 0
  ReadsBack ts = parse (stringify ts) ≡ some ts

  load-persist :
      (ts : List StreamTemplate) (storage : List (String × String))
      → ReadsBack ts
      → load stringify parse (persist stringify parse ts storage) ≡ ts
  unfolding load persist
  load-persist ts storage h =
      ground (arith, lookup-insert_self storage_key (stringify ts) storage, h)

  -- What a page that is opened later shows after its effect.
  abbrev pub reopened : Templates → List StreamTemplate
  reopened s =
      (mount stringify parse (record { templates = []; local_storage = s.local_storage })).templates

  -- Each of the three changes survives: a page that is opened later shows the templates as the
  -- change has left them, if `JSON.parse` reads what `JSON.stringify` writes for them.
  pub reopened_lem :
      (id : String) (now : ℕ) (draft : Draft) (patch : Patch) (s : Templates)
      → ReadsBack (save stringify parse id now draft s).templates
      → ReadsBack (remove stringify parse id s).templates
      → ReadsBack (update stringify parse id patch s).templates
      → (reopened (save stringify parse id now draft s)
          ≡ (save stringify parse id now draft s).templates)
        × (reopened (remove stringify parse id s) ≡ (remove stringify parse id s).templates)
        × (reopened (update stringify parse id patch s)
            ≡ (update stringify parse id patch s).templates)
  unfolding mount save remove update set_templates
  reopened_lem id now draft patch s saved removed updated = (
    load-persist _ s.local_storage saved,
    load-persist _ s.local_storage removed,
    load-persist _ s.local_storage updated,
  )

  update_ids :
      (id : String) (patch : Patch) (ts : List StreamTemplate)
      → map (λ t. t.id) (map (λ t. if t.id == id then patched patch t else t) ts)
        ≡ map (λ t. t.id) ts
  unfolding patched
  update_ids id patch [] = refl
  update_ids id patch (t ∷ rest) = ground (arith, update_ids id patch rest)

  update_others :
      (id : String) (patch : Patch) (ts : List StreamTemplate)
      → keep (λ t. not (t.id == id)) (map (λ t. if t.id == id then patched patch t else t) ts)
        ≡ keep (λ t. not (t.id == id)) ts
  unfolding patched
  update_others id patch [] = refl
  update_others id patch (t ∷ rest) = ground (arith, update_others id patch rest)

  -- An update keeps the ids and their order, and removing the template afterwards leaves the same
  -- as removing it without the update: no other template has changed.
  pub update-remove :
      (id : String) (patch : Patch) (s : Templates)
      → (map (λ t. t.id) (update stringify parse id patch s).templates
          ≡ map (λ t. t.id) s.templates)
        × ((remove stringify parse id (update stringify parse id patch s)).templates
            ≡ (remove stringify parse id s).templates)
  unfolding update remove set_templates
  update-remove id patch s = (update_ids id patch s.templates, update_others id patch s.templates)
