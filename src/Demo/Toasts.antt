-- ===== src/Demo/Toasts.antt =====
-- Toasts (demo/src/Toast.tsx): the reducer, and `addToast` and `removeToast` with their timers.
pub mod Laws
use Prim.Native.String.{String}
use text.Mathlib.Text.{◌==◌}
use paystream_contracts.Prelude.{
  ℕ, ◌+◌, List, [], ◌∷◌, ◌++◌, Option, none, some, if◌then◌else◌, ltb, keep, not,
}
use paystream_contracts.Prelude.Dict.{lookup, insert, remove}

pub data ToastType : Type 0 where
  success error warning info : ToastType

pub record Toast : Type 0 where
  pub id : String
  pub type : ToastType
  pub message : String
  pub duration : Option ℕ

pub data ToastAction : Type 0 where
  add_action : Toast → ToastAction
  remove_action : String → ToastAction

unfoldable pub toast_reducer : List Toast → ToastAction → List Toast
toast_reducer toasts (add_action toast) = toasts ++ toast ∷ []
toast_reducer toasts (remove_action id) = keep (λ t. not (t.id == id)) toasts

-- The state of the provider: the toasts, and the map from the id of a toast to its timer, by the
-- time at which the timer fires.
pub record Provider : Type 0 where
  pub toasts : List Toast
  pub timers : List (String × ℕ)

-- `removeToast`: a timer that is in the map is cleared and taken out of it.
unfoldable pub remove_toast : String → Provider → Provider
remove_toast id s = record s {
  toasts = toast_reducer s.toasts (remove_action id);
  timers = elim (lookup id s.timers) [ none ↦ s.timers | some _ ↦ remove id s.timers ];
}

-- `addToast`, with the id that it makes up and the current time.
unfoldable pub add_toast : String → ℕ → String → ToastType → ℕ → Provider → Provider
add_toast id now message type duration s =
    let toast : Toast = record {
      id = id;
      type = type;
      message = message;
      duration = some duration;
    } in
    record s {
      toasts = toast_reducer s.toasts (add_action toast);
      timers = if ltb 0 duration then insert id (now + duration) s.timers else s.timers;
    }
