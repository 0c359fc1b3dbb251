-- ===== src/Services/Snapshot/Recent.antt =====
-- Proofs about the pruning of services/snapshot/snapshotStore.js.
use Prim.Native.Nat.{ℕ, zero, suc, ◌+◌, ◌-◌, ◌≤◌, ◌<◌}
use paystream_contracts.Prelude.{
  ◌≡◌, refl, arith, List, [], ◌∷◌, ◌++◌, length, length-append, ap, sym, ◌∙◌, Bool-cases, inl, inr,
  leb,
}
use paystream_contracts.Services.Snapshot.{Snapshot, drop, keep_last, last}

length-drop : (n : ℕ) (xs : List Snapshot) → length (drop n xs) ≡ length xs - n
unfolding drop
length-drop zero xs = omega arith
length-drop (suc n) [] = omega arith
length-drop (suc n) (x ∷ xs) = omega (arith, length-drop n xs)

pub length-keep_last : (n : ℕ) (xs : List Snapshot) → 0 < n → length (keep_last n xs) ≤ n
unfolding keep_last
length-keep_last n xs positive = ground (arith, length-drop (length xs - n) xs, positive)

drop-append : (n : ℕ) (xs ys : List Snapshot) → n ≤ length xs → drop n (xs ++ ys) ≡ drop n xs ++ ys
unfolding drop
drop-append zero xs ys h = refl
drop-append (suc n) [] ys h = ground (arith, h)
drop-append (suc n) (x ∷ xs) ys h = drop-append n xs ys (omega (arith, h))

drop-nil : (n : ℕ) → drop n [] ≡ []
unfolding drop
drop-nil zero = refl
drop-nil (suc n) = refl

drop-drop : (m n : ℕ) (xs : List Snapshot) → drop m (drop n xs) ≡ drop (n + m) xs
unfolding drop
drop-drop m zero xs = let same : m ≡ 0 + m = omega arith in ap (λ k. drop k xs) same
drop-drop m (suc n) [] = drop-nil m ∙ sym (drop-nil (suc n + m))
drop-drop m (suc n) (x ∷ xs) =
    let shift : suc n + m ≡ suc (n + m) = omega arith in rw shift (drop-drop m n xs)

last-drop : (n : ℕ) (xs : List Snapshot) → n < length xs → last (drop n xs) ≡ last xs
unfolding drop last
last-drop zero xs h = refl
last-drop (suc n) [] h = ground (arith, h)
last-drop (suc n) (x ∷ []) h = ground (arith, h)
last-drop (suc n) (x ∷ y ∷ xs) h = last-drop n (y ∷ xs) (omega (arith, h))

-- Pruning before and after an entry is added keeps what pruning after it keeps.
pub keep_last-append :
    (n : ℕ) (xs : List Snapshot) (x : Snapshot)
    → keep_last n (keep_last n xs ++ x ∷ []) ≡ keep_last n (xs ++ x ∷ [])
unfolding keep_last
keep_last-append n xs x = elim (Bool-cases (leb n 0)) [
  | inl none_kept ↦ rw none_kept refl
  | inr some_kept ↦
      let old = drop (length xs - n) xs in
      let old_length = length-drop (length xs - n) xs in
      let all_length = length-append xs (x ∷ []) in
      let new_length = length-append old (x ∷ []) in
      let joined = drop-append (length xs - n) xs (x ∷ []) (omega arith) in
      let twice = drop-drop (length (old ++ x ∷ []) - n) (length xs - n) (xs ++ x ∷ []) in
      let sum : length xs - n + (length (old ++ x ∷ []) - n) ≡ length (xs ++ x ∷ []) - n =
        ground (arith, old_length, all_length, new_length, some_kept) in
      ground (arith, some_kept, joined, twice, sum)
]

last_of_positive : (n : ℕ) (xs : List Snapshot) → 0 < n → last (drop (length xs - n) xs) ≡ last xs
unfolding drop
last_of_positive n [] h = ap last (drop-nil (length {A = Snapshot} [] - n))
last_of_positive n (x ∷ xs) h = last-drop (length (x ∷ xs) - n) (x ∷ xs) (omega (arith, h))

pub last-keep_last : (n : ℕ) (xs : List Snapshot) → last (keep_last n xs) ≡ last xs
unfolding keep_last
last-keep_last n xs = elim (Bool-cases (leb n 0)) [
  | inl none_kept ↦ rw none_kept refl
  | inr some_kept ↦ rw some_kept (last_of_positive n xs (ground (arith, some_kept)))
]
