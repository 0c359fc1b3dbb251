-- ===== src/Sdk/Client/Submission.antt =====
-- Proofs about `submitTransaction` (sdk/src/client.ts): when a submission is confirmed, and how
-- often the server is asked.
use Prim.Native.String.{String}
use text.Mathlib.Text.{◌==◌}
use paystream_contracts.Prelude.{
  ℕ, zero, suc, ◌<◌, ◌≤◌, ◌≡◌, refl, ◌∙◌, ◌≢◌, ◌↔◌, ◌⊎◌, inl, inr, arith, eq_iff, Bool-cases,
}
use paystream_contracts.Js.{Error, Result, ok, err, Io, lift, ◌>>=◌, new_error, ◌<>◌}
use paystream_contracts.Js.Laws.{bind_ok, bind_inv}
use paystream_contracts.Sdk.Platform.{
  Platform, SendResult, TransactionStatus, success, failed, not_found,
}
use paystream_contracts.Sdk.Client.{Client, poll, confirm, submit_transaction}

module _ (p : Platform) (c : Client p) (hash : String) where
  open p use {World, get_transaction, sleep}

  -- One round: a delay and a question to the server.
  unfoldable pub ask : World → Result TransactionStatus × World
  ask w = get_transaction c.rpc hash (sleep 1500 w)

  -- The state of the world after `k` rounds, and the answer in the round that follows them.
  unfoldable pub after : ℕ → World → World
  after zero w = w
  after (suc k) w = after k (ask w).1

  unfoldable pub answer : ℕ → World → Result TransactionStatus
  answer zero w = (ask w).0
  answer (suc k) w = answer k (ask w).1

  -- One of the next `n` rounds answers "success", and all rounds before it "not found".
  abbrev pub Confirmed : ℕ → World → Type 0
  Confirmed n w =
      (k : ℕ) × (k < n) × (answer k w ≡ ok success) × ((j : ℕ) → j < k → answer j w ≡ ok not_found)

  Confirmed-later :
      (n : ℕ) (w : World) → (ask w).0 ≡ ok not_found → Confirmed n (ask w).1 → Confirmed (suc n) w
  unfolding answer
  Confirmed-later n w e (k, h, s, before) = (suc k, omega arith, s, earlier)
    where
      earlier : (j : ℕ) → j < suc k → answer j w ≡ ok not_found
      earlier zero _ = e
      earlier (suc j) l = before j (omega arith)

  Confirmed-now : (n : ℕ) (w : World) → (ask w).0 ≡ ok success → Confirmed (suc n) w
  unfolding answer
  Confirmed-now n w e = (0, omega arith, e, λ j l. absurd (omega arith))

  -- How one round ends.
  Answer-cases :
      (r : Result TransactionStatus)
      → (r ≡ ok success) ⊎ (r ≡ ok not_found) ⊎ ((r ≡ ok failed) ⊎ ((e : Error) × (r ≡ err e)))
  Answer-cases (ok success) = inl refl
  Answer-cases (ok not_found) = inr (inl refl)
  Answer-cases (ok failed) = inr (inr (inl refl))
  Answer-cases (err e) = inr (inr (inr (e, refl)))

  poll_success :
      (n : ℕ) (w : World) → (ask w).0 ≡ ok success → poll p c hash (suc n) w ≡ (ok hash, (ask w).1)
  unfolding poll ask
  poll_success n w e = ground arith

  poll_pending :
      (n : ℕ) (w : World)
      → (ask w).0 ≡ ok not_found
      → poll p c hash (suc n) w ≡ poll p c hash n (ask w).1
  unfolding poll ask
  poll_pending n w e = ground arith

  poll_failed :
      (n : ℕ) (w : World)
      → (ask w).0 ≡ ok failed
      → poll p c hash (suc n) w ≡ (err (new_error ("Transaction failed: " <> hash)), (ask w).1)
  unfolding poll ask
  poll_failed n w e = ground arith

  poll_thrown :
      (n : ℕ) (w : World) (e : Error)
      → (ask w).0 ≡ err e
      → poll p c hash (suc n) w ≡ (err e, (ask w).1)
  unfolding poll ask
  poll_thrown n w x e = ground arith

  poll_sound :
      (n : ℕ) (w : World) (h : String) → (poll p c hash n w).0 ≡ ok h → (h ≡ hash) × Confirmed n w
  unfolding poll
  poll_sound zero w h e = cc
  poll_sound (suc n) w h e = elim (Answer-cases (ask w).0) [
    | inl s ↦ (cc (poll_success n w s), Confirmed-now n w s)
    | inr (inl s) ↦
        let (same, later) = poll_sound n (ask w).1 h (rw (poll_pending n w s) at e) in
        (same, Confirmed-later n w s later)
    | inr (inr (inl s)) ↦ cc (poll_failed n w s)
    | inr (inr (inr (x, s))) ↦ cc (poll_thrown n w x s)
  ]

  poll_complete : (n : ℕ) (w : World) → Confirmed n w → (poll p c hash n w).0 ≡ ok hash
  unfolding answer
  poll_complete zero w (k, l, s, before) = absurd (omega arith)
  poll_complete (suc n) w (zero, l, s, before) = rw (poll_success n w s)
  poll_complete (suc n) w (suc k, l, s, before) =
      rw (poll_pending n w (before 0 (omega arith)))
        (poll_complete n (ask w).1 (k, omega arith, s, λ j m. before (suc j) (omega arith)))

  -- The loop asks at most `n` times, whatever the server answers.
  pub poll_rounds : (n : ℕ) (w : World) → (k : ℕ) × (k ≤ n) × ((poll p c hash n w).1 ≡ after k w)
  unfolding poll after
  poll_rounds zero w = (0, omega arith, refl)
  poll_rounds (suc n) w = elim (Answer-cases (ask w).0) [
    | inl s ↦ (1, omega arith, cc (poll_success n w s))
    | inr (inl s) ↦
        let (k, l, e) = poll_rounds n (ask w).1 in (suc k, omega arith, rw (poll_pending n w s) e)
    | inr (inr (inl s)) ↦ (1, omega arith, cc (poll_failed n w s))
    | inr (inr (inr (x, s))) ↦ (1, omega arith, cc (poll_thrown n w x s))
  ]

  -- If no answer within `n` rounds is decisive, the loop throws after exactly `n` rounds.
  pub poll_gives_up :
      (n : ℕ) (w : World)
      → ((j : ℕ) → j < n → answer j w ≡ ok not_found)
      → poll p c hash n w
        ≡ (err (new_error ("Transaction not confirmed after timeout: " <> hash)), after n w)
  unfolding poll after answer
  poll_gives_up zero w before = refl
  poll_gives_up (suc n) w before =
      rw (poll_pending n w (before 0 (omega arith)))
        (poll_gives_up n (ask w).1 (λ j l. before (suc j) (omega arith)))

module _ (p : Platform) (c : Client p) (signed_xdr : String) (w : p.World) where
  open p use {World, Transaction, from_xdr, send_transaction}

  -- The server takes the transaction that the text holds, and `sent` is its reply.
  abbrev pub Accepted : Transaction → SendResult → World → Type 0
  Accepted tx sent w' =
      (from_xdr signed_xdr c.network_passphrase ≡ ok tx)
      × (send_transaction c.rpc tx w ≡ (ok sent, w'))
      × (sent.status ≢ "ERROR")

  -- The rest of the method, once the text is decoded.
  abbrev rest : Transaction → Io World String
  rest tx = send_transaction c.rpc tx >>= confirm p c

  submit_decoded :
      (tx : Transaction)
      → from_xdr signed_xdr c.network_passphrase ≡ ok tx
      → submit_transaction p c signed_xdr w ≡ rest tx w
  unfolding submit_transaction
  submit_decoded tx e = rw e

  confirm_accepted :
      (sent : SendResult) (w' : World)
      → sent.status ≢ "ERROR"
      → confirm p c sent w' ≡ poll p c sent.hash 20 w'
  unfolding confirm
  confirm_accepted sent w' fine = ground (arith, eq_iff sent.status "ERROR")

  confirm_refused :
      (sent : SendResult) (w' : World)
      → sent.status ≡ "ERROR"
      → confirm p c sent w' ≡ (err (new_error ("Submit failed: " <> sent.error_result)), w')
  unfolding confirm
  confirm_refused sent w' e = ground (arith, eq_iff sent.status "ERROR")

  submit-Accepted :
      (tx : Transaction) (sent : SendResult) (w' : World)
      → Accepted tx sent w'
      → submit_transaction p c signed_xdr w ≡ poll p c sent.hash 20 w'
  submit-Accepted tx sent w' (e, s, fine) =
      submit_decoded tx e
      ∙ bind_ok (send_transaction c.rpc tx) (confirm p c) w w' sent s
      ∙ confirm_accepted sent w' fine

  submit_sound :
      (h : String)
      → (submit_transaction p c signed_xdr w).0 ≡ ok h
      → (tx : Transaction) × (sent : SendResult) × (w' : World) × Accepted tx sent w'
        × ((h ≡ sent.hash) × Confirmed p c sent.hash 20 w')
  unfolding submit_transaction
  submit_sound h e =
      let (tx, w0, decoded, e1) =
        bind_inv (lift (from_xdr signed_xdr c.network_passphrase)) rest w h e in
      let (sent, w', taken, e2) = bind_inv (send_transaction c.rpc tx) (confirm p c) w0 h e1 in
      let same : w0 ≡ w = cc decoded in
      elim (Bool-cases (sent.status == "ERROR")) [
        | inl bad ↦ cc (confirm_refused sent w' ((eq_iff _ _).0 bad))
        | inr good ↦
            let fine : sent.status ≢ "ERROR" = ground (arith, eq_iff sent.status "ERROR") in
            (
              tx,
              sent,
              w',
              (cc decoded, rw (← same) taken, fine),
              poll_sound p c sent.hash 20 w' h (rw (← confirm_accepted sent w' fine) e2),
            )
      ]

  -- `submitTransaction` returns a hash exactly when the text decodes to a transaction, the server
  -- accepts it under that hash, and one of the next 20 rounds confirms it with only "not found"
  -- before.
  pub submit_confirms_iff :
      (h : String)
      → ((submit_transaction p c signed_xdr w).0 ≡ ok h) ↔ (
          (tx : Transaction) × (sent : SendResult) × (w' : World) × Accepted tx sent w'
          × ((h ≡ sent.hash) × Confirmed p c sent.hash 20 w'))
  submit_confirms_iff h = (submit_sound h, back)
    where
      back :
          (tx : Transaction) × (sent : SendResult) × (w' : World) × Accepted tx sent w'
            × ((h ≡ sent.hash) × Confirmed p c sent.hash 20 w')
          → (submit_transaction p c signed_xdr w).0 ≡ ok h
      back (tx, sent, w', a, (same, conf)) =
          rw (submit-Accepted tx sent w' a, same) (poll_complete p c sent.hash 20 w' conf)
