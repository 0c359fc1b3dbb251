-- ===== src/Demo/Toasts/Laws.antt =====
-- Proofs about toasts and their timers (demo/src/Toast.tsx).
use Prim.Native.String.{String}
use text.Mathlib.Text.{◌==◌}
use paystream_contracts.Prelude.{
  ℕ, ◌+◌, ◌≡◌, ◌≢◌, ◌∙◌, arith, Bool, true, false, not, List, [], ◌∷◌, ◌++◌, none, some,
  if◌then◌else◌, any, keep, eq_iff, Bool-cases, Option-cases, inl, inr,
}
use paystream_contracts.Prelude.Dict.{lookup, lookup-remove, lookup-insert}
use paystream_contracts.Demo.Toasts.{
  Toast, ToastType, Provider, toast_reducer, add_toast, remove_toast,
}

-- Whether a toast with this id is shown.
abbrev pub shows : String → List Toast → Bool
shows id toasts = any (λ t. t.id == id) toasts

-- Every timer that is set is for a toast that is shown.
abbrev pub IsTidy : Provider → Type 0
IsTidy s = (id : String) → lookup id s.timers ≢ none → shows id s.toasts ≡ true

shows-append :
    (id : String) (toasts : List Toast) (t : Toast)
    → shows id toasts ≡ true
    → shows id (toasts ++ t ∷ []) ≡ true
shows-append id [] t h = cc
shows-append id (u ∷ rest) t h = ground (arith, shows-append id rest t)

shows-append_self : (toasts : List Toast) (t : Toast) → shows t.id (toasts ++ t ∷ []) ≡ true
shows-append_self [] t = ground (arith, eq_iff t.id t.id)
shows-append_self (u ∷ rest) t = ground (arith, shows-append_self rest t)

shows-keep :
    (id j : String) (toasts : List Toast)
    → shows j (keep (λ t. not (t.id == id)) toasts) ≡ (if id == j then false else shows j toasts)
shows-keep id j [] = ground arith
shows-keep id j (t ∷ rest) =
    ground (arith, shows-keep id j rest, eq_iff t.id id, eq_iff t.id j, eq_iff id j)

-- The timers after `removeToast`: none for this id, and the others as they were.
lookup-remove_toast :
    (id j : String) (s : Provider)
    → lookup j (remove_toast id s).timers ≡ (if id == j then none else lookup j s.timers)
unfolding remove_toast
lookup-remove_toast id j s = elim (Option-cases (lookup id s.timers)) [
  | inl e ↦ ground (arith, eq_iff id j)
  | inr (t, e) ↦ ground (arith, lookup-remove id j s.timers)
]

shows-remove_toast :
    (id j : String) (s : Provider)
    → shows j (remove_toast id s).toasts ≡ (if id == j then false else shows j s.toasts)
unfolding remove_toast toast_reducer
shows-remove_toast id j s = shows-keep id j s.toasts

-- Removing a toast keeps it so that every timer is for a toast that is shown.
pub remove_toast-IsTidy : (id : String) (s : Provider) → IsTidy s → IsTidy (remove_toast id s)
unfolding toast_reducer
remove_toast-IsTidy id s tidy j h =
    let gone = lookup-remove_toast id j s in
    let stays = shows-remove_toast id j s in
    elim (Bool-cases (id == j)) [
      | inl e ↦ absurd (h (gone ∙ rw e))
      | inr e ↦ stays ∙ rw e (tidy j (λ q. h (gone ∙ rw e q)))
    ]

-- Showing a toast keeps it so that every timer is for a toast that is shown.
pub add_toast-IsTidy :
    (id : String) (now : ℕ) (message : String) (type : ToastType) (duration : ℕ) (s : Provider)
    → IsTidy s
    → IsTidy (add_toast id now message type duration s)
unfolding add_toast toast_reducer
add_toast-IsTidy id now message type duration s tidy j h =
    let toast : Toast = record {
      id = id;
      type = type;
      message = message;
      duration = some duration;
    } in
    elim (Bool-cases (id == j)) [
      | inl e ↦ ground (arith, eq_iff id j, shows-append_self s.toasts toast)
      | inr e ↦ ground (
        arith,
        lookup-insert id j (now + duration) s.timers,
        shows-append j s.toasts toast,
        tidy j,
      )
    ]
