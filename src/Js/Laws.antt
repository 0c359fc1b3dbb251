-- ===== src/Js/Laws.antt =====
-- How a sequence of asynchronous steps ends, by how its steps end.
use paystream_contracts.Prelude.{◌≡◌, refl, arith, ◌⊎◌, inl, inr}
use paystream_contracts.Js.{Io, Result, Error, ok, err, ◌>>=◌, ◌>>◌, and_then, try_catch}

module _ {W A B : Type 0} where
  pub bind_ok :
      (m : Io W A) (f : A → Io W B) (w w' : W) (a : A) → m w ≡ (ok a, w') → (m >>= f) w ≡ f a w'
  bind_ok m f w w' a e = ground arith

  -- The same, where the end state of the first step is not named.
  pub bind_returned :
      (m : Io W A) (f : A → Io W B) (w : W) (a : A) → (m w).0 ≡ ok a → (m >>= f) w ≡ f a (m w).1
  bind_returned m f w a e = ground arith

  pub bind_thrown :
      (m : Io W A) (f : A → Io W B) (w : W) (x : Error)
      → (m w).0 ≡ err x
      → (m >>= f) w ≡ (err x, (m w).1)
  bind_thrown m f w x e = ground arith

  pub bind_err :
      (m : Io W A) (f : A → Io W B) (w w' : W) (x : Error)
      → m w ≡ (err x, w')
      → (m >>= f) w ≡ (err x, w')
  bind_err m f w w' x e = ground arith

  -- A sequence that returns has returned at each step.
  pub bind_inv :
      (m : Io W A) (f : A → Io W B) (w : W) (b : B)
      → ((m >>= f) w).0 ≡ ok b
      → (a : A) × (w' : W) × (m w ≡ (ok a, w')) × ((f a w').0 ≡ ok b)
  bind_inv m f w b e = go (m w) refl
    where
      go :
          (q : Result A × W)
          → m w ≡ q
          → (a : A) × (w' : W) × (m w ≡ (ok a, w')) × ((f a w').0 ≡ ok b)
      go (ok a, w') s = (a, w', s, ground (arith, bind_ok m f w w' a s))
      go (err x, w') s = cc (bind_err m f w w' x s)

module _ {W : Type 0} (I : W → Type 0) where
  -- The computation keeps `I`, whether it returns or throws.
  abbrev pub Keeps : {A : Type 0} → Io W A → Type 0
  Keeps m = (w : W) → I w → I (m w).1

  pub Keeps-bind :
      {A B : Type 0} (m : Io W A) (f : A → Io W B)
      → Keeps m
      → ((a : A) → Keeps (f a))
      → Keeps (m >>= f)
  Keeps-bind {A} {B} m f keep_m keep_f w h = go (m w) (keep_m w h)
    where
      go :
          (q : Result A × W)
          → I q.1
          → I (elim q.0 as (λ _. Result B × W) [ ok a ↦ f a q.1 | err e ↦ (err e, q.1) ]).1
      go (ok a, w') k = keep_f a w' k
      go (err x, w') k = k

  pub Keeps-then : {A B : Type 0} (m : Io W A) (k : Io W B) → Keeps m → Keeps k → Keeps (m >> k)
  Keeps-then m k keep_m keep_k = Keeps-bind m (λ _. k) keep_m (λ _. keep_k)

  pub Keeps-try_catch :
      {A : Type 0} (m : Io W A) (h : Error → Io W A)
      → Keeps m
      → ((e : Error) → Keeps (h e))
      → Keeps (try_catch m h)
  Keeps-try_catch {A} m h keep_m keep_h w i = go (m w) (keep_m w i)
    where
      go :
          (q : Result A × W)
          → I q.1
          → I (elim q.0 as (λ _. Result A × W) [ ok a ↦ (ok a, q.1) | err e ↦ h e q.1 ]).1
      go (ok a, w') k = k
      go (err x, w') k = keep_h x w' k

pub and_then_inv :
    {A B : Type 0} (r : Result A) (f : A → Result B) (b : B)
    → and_then r f ≡ ok b
    → (a : A) × (r ≡ ok a) × (f a ≡ ok b)
and_then_inv (ok a) f b e = (a, refl, e)
and_then_inv (err x) f b e = cc

pub Result-cases :
    {A : Type 0} (r : Result A) → ((a : A) × (r ≡ ok a)) ⊎ ((e : Error) × (r ≡ err e))
Result-cases (ok a) = inl (a, refl)
Result-cases (err e) = inr (e, refl)
