-- ===== src/Services/Balance/Seconds.antt =====
-- Counting the seconds of a stretch of time that have a property.
use Prim.Native.Nat.{ℕ, zero, suc, ◌+◌, ◌≤◌, ◌<◌}
use paystream_contracts.Prelude.{◌≡◌, refl, arith, Bool, true, false, if◌then◌else◌, not}

-- The number of seconds among `n` from `a` on at which `p` holds.
abbrev pub seconds : (ℕ → Bool) → ℕ → ℕ → ℕ
seconds p a zero = 0
seconds p a (suc n) = let rest = seconds p (suc a) n in if p a then suc rest else rest

pub seconds-plus :
    (p : ℕ → Bool) (a m n : ℕ) → seconds p a (m + n) ≡ seconds p a m + seconds p (a + m) n
seconds-plus p a zero n = ground arith
seconds-plus p a (suc m) n =
    let sum : suc m + n ≡ suc (m + n) = omega arith in
    let border : a + suc m ≡ suc a + m = omega arith in
    rw (sum, border) (ground (arith, seconds-plus p (suc a) m n))

pub seconds_ext :
    (p q : ℕ → Bool) (a n : ℕ)
    → ((x : ℕ) → a ≤ x → x < a + n → p x ≡ q x)
    → seconds p a n ≡ seconds q a n
seconds_ext p q a zero same = refl
seconds_ext p q a (suc n) same =
    let same_here = same a (omega arith) (omega arith) in
    let same_later =
      seconds_ext p q (suc a) n (λ x low high. same x (omega (arith, low)) (omega (arith, high))) in
    ground (arith, same_here, same_later)

pub seconds_all :
    (p : ℕ → Bool) (a n : ℕ) → ((x : ℕ) → a ≤ x → x < a + n → p x ≡ true) → seconds p a n ≡ n
seconds_all p a zero all = refl
seconds_all p a (suc n) all =
    let here = all a (omega arith) (omega arith) in
    let later =
      seconds_all p (suc a) n (λ x low high. all x (omega (arith, low)) (omega (arith, high))) in
    ground (arith, here, later)

pub seconds_none :
    (p : ℕ → Bool) (a n : ℕ) → ((x : ℕ) → a ≤ x → x < a + n → p x ≡ false) → seconds p a n ≡ 0
seconds_none p a zero never = refl
seconds_none p a (suc n) never =
    let here = never a (omega arith) (omega arith) in
    let later =
      seconds_none p (suc a) n (λ x low high. never x (omega (arith, low)) (omega (arith, high))) in
    ground (arith, here, later)

pub seconds-not : (p : ℕ → Bool) (a n : ℕ) → seconds p a n + seconds (λ x. not (p x)) a n ≡ n
seconds-not p a zero = refl
seconds-not p a (suc n) = ground (arith, seconds-not p (suc a) n)
