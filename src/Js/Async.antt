-- ===== src/Js/Async.antt =====
-- Thrown errors, and `async` functions as state passing with a result that may be an error.
use Prim.Native.String
use Prim.Native.String.{String}

-- An `Error`, by its `name` and its `message`.
pub record Error : Type 0 where
  pub name : String
  pub message : String

-- `new Error(message)`
abbrev pub new_error : String → Error
new_error m = record { name = "Error"; message = m }

infixr 65 ◌<>◌
abbrev pub ◌<>◌ : String → String → String
s <> t = String.◌++◌ s t

-- `String(e)`
abbrev pub error_text : Error → String
error_text e = e.name <> ": " <> e.message

pub data Result (A : Type 0) : Type 0 where
  ok : A → Result A
  err : Error → Result A

-- A computation over the state `W`; the state comes back after a throw too.
abbrev pub Io : Type 0 → Type 0 → Type 0
Io W A = W → Result A × W

infixl 5 ◌>>=◌ ◌>>◌
abbrev pub ◌>>=◌ : {W A B : Type 0} → Io W A → (A → Io W B) → Io W B
◌>>=◌ m f w = let (r, w') = m w in elim r [ ok a ↦ f a w' | err e ↦ (err e, w') ]

abbrev pub ◌>>◌ : {W A B : Type 0} → Io W A → Io W B → Io W B
m >> k = m >>= λ _. k

abbrev pub pure : {W A : Type 0} → A → Io W A
pure a w = (ok a, w)

abbrev pub throw : {W A : Type 0} → Error → Io W A
throw e w = (err e, w)

-- A result that was computed without the state.
abbrev pub lift : {W A : Type 0} → Result A → Io W A
lift r w = (r, w)

abbrev pub modify : {W : Type 0} → (W → W) → Io W (Unit {0})
modify f w = (ok tt, f w)

-- `try { m } catch (e) { h }`
abbrev pub try_catch : {W A : Type 0} → Io W A → (Error → Io W A) → Io W A
try_catch m h w = let (r, w') = m w in elim r [ ok a ↦ (ok a, w') | err e ↦ h e w' ]

-- `try { m } finally { f }`, where `f` only updates the state
abbrev pub finally : {W A : Type 0} → Io W A → (W → W) → Io W A
finally m f w = let (r, w') = m w in (r, f w')

-- The steps of a computation that only returns or throws.
abbrev pub and_then : {A B : Type 0} → Result A → (A → Result B) → Result B
and_then (ok a) f = f a
and_then (err e) f = err e
