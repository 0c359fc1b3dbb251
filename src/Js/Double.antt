-- ===== src/Js/Double.antt =====
-- `Number(n)` of an integer: the nearest double, and the even one of two that are as near.
-- (Of magnitudes below 2^1024; beyond that, `Number` gives an infinity.)
use paystream_contracts.Prelude.{
  ℕ, zero, suc, ◌+◌, ◌*◌, ◌/◌, ◌%◌, ◌^◌, ◌<◌, ◌≡◌, refl, arith, ltb, if◌then◌else◌,
}
use paystream_contracts.Prelude.Int.{ℤ, pos, negsuc, sub_ℕ}

-- 2 ^ 53: integers up to here are doubles.
abbrev pub exact_limit : ℕ
exact_limit = 9007199254740992

-- How often `n` must be halved to come below the limit.
excess : ℕ → ℕ → ℕ
excess zero n = 0
excess (suc fuel) n = let rest = suc (excess fuel (n / 2)) in if ltb n exact_limit then 0 else rest

-- `n` rounded to a multiple of `unit`.
to_multiple : ℕ → ℕ → ℕ
to_multiple unit n =
    let q = n / unit in
    let twice = 2 * (n % unit) in
    if ltb twice unit
    then q * unit
    else if ltb unit twice
    then (q + 1) * unit
    else (q + q % 2) * unit

-- 971 halvings are enough below 2^1024.
pub round_large : ℕ → ℕ
unfolding excess to_multiple
round_large n = to_multiple (2 ^ excess 971 n) n

unfoldable pub round_double : ℕ → ℕ
round_double n = if ltb n exact_limit then n else round_large n

unfoldable pub to_number : ℤ → ℤ
to_number (pos n) = pos (round_double n)
to_number (negsuc n) = sub_ℕ 0 (round_double (suc n))

pub to_number_exact : (n : ℕ) → n < exact_limit → to_number (pos n) ≡ pos n
unfolding to_number round_double
to_number_exact n h = ground arith

pub to_number_inexact : to_number (pos 9007199254740993) ≡ pos 9007199254740992
unfolding to_number round_double round_large
to_number_inexact = refl
