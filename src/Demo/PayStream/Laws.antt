-- ===== src/Demo/PayStream/Laws.antt =====
-- Proofs about `usePayStream` (demo/src/usePayStream.ts).
use Prim.Native.String.{String}
use paystream_contracts.Prelude.{
  ◌≡◌, ◌↔◌, ◌||◌, ap, sym, ◌∙◌, refl, arith, Bool, true, false, List, [], ◌∷◌, any, keep, not,
  Option, none, some, inl, inr, Bool-cases,
}
use paystream_contracts.Prelude.Int.{ℤ, pos, negsuc, eqb_ℤ}
use paystream_contracts.Js.{Result, ok, err, Io, ◌>>=◌, ◌>>◌, pure, try_catch, finally, present}
use paystream_contracts.Sdk.Types.{Stream}
use paystream_contracts.Sdk.Platform.{Platform}
use paystream_contracts.Sdk.Requests
use paystream_contracts.Sdk.Client
use paystream_contracts.Sdk.Client.{Client}
use paystream_contracts.Sdk.Freighter.{Wallet, freighter_sign_transaction}
use paystream_contracts.Js.Laws.{bind_inv}
use paystream_contracts.Demo.PayStream.{
  PayStream, outside, begin_loading, end_loading, set_error, upsert, perform, sign_and_submit,
  create_stream, withdraw, with_key, load_stream, load_newest,
}

abbrev pub has_id : ℤ → Stream → Bool
has_id i s = eqb_ℤ s.id i

-- At most one stream of the list has each id.
abbrev pub IsUnique : List Stream → Type 0
IsUnique [] = Unit
IsUnique (s ∷ rest) = (any (has_id s.id) rest ≡ false) × IsUnique rest

eqb_iff : (a b : ℤ) → (eqb_ℤ a b ≡ true) ↔ (a ≡ b)
eqb_iff (pos a) (pos b) = (λ h. ground arith, λ h. ground arith)
eqb_iff (pos a) (negsuc b) = (λ h. ground arith, λ h. ground arith)
eqb_iff (negsuc a) (pos b) = (λ h. ground arith, λ h. ground arith)
eqb_iff (negsuc a) (negsuc b) = (λ h. ground arith, λ h. ground arith)

any-upsert :
    (i j : ℤ) (u : Stream) (xs : List Stream)
    → u.id ≡ i
    → any (has_id j) (upsert i u xs) ≡ (eqb_ℤ i j || any (has_id j) xs)
unfolding upsert
any-upsert i j u [] h = ground arith
any-upsert i j u (s ∷ rest) h = ground (arith, any-upsert i j u rest h, eqb_iff s.id i)

keep_none : (i : ℤ) (xs : List Stream) → any (has_id i) xs ≡ false → keep (has_id i) xs ≡ []
keep_none i [] h = refl
keep_none i (s ∷ rest) h = ground (arith, keep_none i rest)

-- Loading a stream shows it once: the ids stay different, the stream is among those shown, and the
-- streams with other ids are as they were. (The stream that is read has the id that was asked for.)
pub upsert-IsUnique :
    (i : ℤ) (u : Stream) (xs : List Stream)
    → u.id ≡ i
    → IsUnique xs
    → IsUnique (upsert i u xs)
      × (keep (has_id i) (upsert i u xs) ≡ u ∷ [])
      × (keep (λ s. not (has_id i s)) (upsert i u xs) ≡ keep (λ s. not (has_id i s)) xs)
unfolding upsert
upsert-IsUnique i u [] h k = ground (arith, (eqb_iff i i).1 refl)
upsert-IsUnique i u (s ∷ rest) h (fresh, k) =
    let (unique, one, others) = upsert-IsUnique i u rest h k in
    elim (Bool-cases (eqb_ℤ s.id i)) [
      | inl e ↦
          let same : s.id ≡ i = (eqb_iff s.id i).0 e in
          let gone : any (has_id i) rest ≡ false = rw (← same) fresh in
          let self : eqb_ℤ u.id i ≡ true = (eqb_iff u.id i).1 h in
          let new : any (has_id u.id) rest ≡ false = rw h gone in
          (rw e (new, k), ground (arith, keep_none i rest gone), ground arith)
      | inr e ↦
          let new : any (has_id s.id) (upsert i u rest) ≡ false =
            ground (arith, any-upsert i s.id u rest h, eqb_iff i s.id) in
          (rw e (new, unique), ground arith, ground arith)
    ]

module _ (p : Platform) (c : Client p) (api : Wallet p.World) (to_string : ℤ → String)
    (passphrase : String) where
  open p use {World}

  -- The transaction that `tx` builds was signed and submitted, under this hash.
  pub record IsSubmitted (tx : Io World String) (w : World) (hash : String) : Type 0 where
    xdr : String
    signed : String
    w1 : World
    w2 : World
    w3 : World
    built : tx w ≡ (ok xdr, w1)
    by_wallet : freighter_sign_transaction api xdr passphrase w1 ≡ (ok signed, w2)
    confirmed : Client.submit_transaction p c signed w2 ≡ (ok hash, w3)

  outside_inv :
      {A : Type 0} (m : Io World A) (s t : PayStream World) (a : A)
      → outside m s ≡ (ok a, t)
      → m s.world ≡ (ok a, t.world)
  outside_inv m s t a e = ground arith

  -- What `catch` and `finally` make of the result of the `try` block.
  abbrev caught : Result (Option String) → Result (Option String)
  caught (ok h) = ok h
  caught (err _) = ok none

  perform-caught :
      (tx : Io World String) (next : Io (PayStream World) (Unit {0})) (s : PayStream World)
      → (perform p c api to_string passphrase tx next s).0
        ≡ caught
            ((outside tx >>= sign_and_submit p c api to_string passphrase next) (begin_loading s)).0
  unfolding perform
  perform-caught tx next s =
      go ((outside tx >>= sign_and_submit p c api to_string passphrase next) (begin_loading s))
    where
      go :
          (q : Result (Option String) × PayStream World)
          → (finally (try_catch (λ _. q) (set_error none)) end_loading s).0 ≡ caught q.0
      go (ok h, t) = refl
      go (err e, t) = refl

  -- What follows a submission, and a signature.
  abbrev after_submit :
      Io (PayStream World) (Unit {0}) → String → Io (PayStream World) (Option String)
  after_submit next hash = next >> pure (some hash)

  abbrev after_sign :
      Io (PayStream World) (Unit {0}) → String → Io (PayStream World) (Option String)
  after_sign next signed = outside (Client.submit_transaction p c signed) >>= after_submit next

  sign_lem :
      (next : Io (PayStream World) (Unit {0})) (xdr : String) (s : PayStream World)
      → sign_and_submit p c api to_string passphrase next xdr s
        ≡ (outside (freighter_sign_transaction api xdr passphrase) >>= after_sign next) s
  unfolding sign_and_submit
  sign_lem next xdr s = refl

  caught_inv : (r : Result (Option String)) (h : String) → caught r ≡ ok (some h) → r ≡ ok (some h)
  caught_inv (ok (some x)) h e = e
  caught_inv (ok none) h e = cc
  caught_inv (err x) h e = cc

  perform_sound :
      (tx : Io World String) (next : Io (PayStream World) (Unit {0})) (s : PayStream World)
      (hash : String)
      → (perform p c api to_string passphrase tx next s).0 ≡ ok (some hash)
      → IsSubmitted tx s.world hash
  perform_sound tx next s hash e =
      let start : PayStream World = begin_loading s in
      let tried = caught_inv _ hash (sym (perform-caught tx next s) ∙ e) in
      let (xdr, s1, built, e1) =
        bind_inv (outside tx) (sign_and_submit p c api to_string passphrase next) start (some hash)
          tried in
      let (signed, s2, by, e2) =
        bind_inv (outside (freighter_sign_transaction api xdr passphrase)) (after_sign next) s1
          (some hash)
          (ap (λ (q : Result (Option String) × PayStream World). q.0) (sym (sign_lem next xdr s1))
            ∙ e1) in
      let (h, s3, confirmed, e3) =
        bind_inv (outside (Client.submit_transaction p c signed)) (after_submit next) s2 (some hash)
          e2 in
      let (u, s4, went, e4) = bind_inv next (λ _. pure (some h)) s3 (some hash) e3 in
      let same : h ≡ hash = some_inj h hash e4 in
      record {
        xdr = xdr;
        signed = signed;
        w1 = s1.world;
        w2 = s2.world;
        w3 = s3.world;
        built = outside_inv tx start s1 xdr built;
        by_wallet = outside_inv (freighter_sign_transaction api xdr passphrase) s1 s2 signed by;
        confirmed =
            outside_inv (Client.submit_transaction p c signed) s2 s3 h confirmed
            ∙ ap (λ (x : String). (ok x, s3.world)) same;
      }
    where
      some_inj :
          (x y : String) → ◌≡◌ {A = Result (Option String)} (ok (some x)) (ok (some y)) → x ≡ y
      some_inj x y q = cc

  with_key_lem :
      (f : String → Io (PayStream World) (Option String)) (s : PayStream World) (pk : String)
      → present s.public_key ≡ some pk
      → with_key p c api to_string passphrase f s ≡ f pk s
  unfolding with_key
  with_key_lem f s pk h = ground arith

  -- The transactions that the two actions build for a key.
  abbrev pub create_tx :
      (employee token_address : String) (deposit rate stop_time : ℤ) → String → Io World String
  create_tx employee token_address deposit rate stop_time pk =
      Client.build_tx p c
        (Requests.create_stream pk employee token_address deposit rate stop_time (pos 0) (pos 0))

  abbrev pub withdraw_tx : ℤ → String → Io World String
  withdraw_tx stream_id pk = Client.build_tx p c (Requests.withdraw pk stream_id none)

  abbrev then_newest : Io (PayStream World) (Unit {0})
  then_newest = outside (Client.stream_count p c) >>= load_newest p c api to_string passphrase

  -- A hash that `createStream` returns is that of a transaction which was built for the connected
  -- key, which the wallet signed, and which was submitted and confirmed.
  pub create_stream-IsSubmitted :
      (employee token_address : String) (deposit rate stop_time : ℤ) (s : PayStream World)
      (pk hash : String)
      → present s.public_key ≡ some pk
      → (create_stream p c api to_string passphrase employee token_address deposit rate stop_time
          s).0
        ≡ ok (some hash)
      → IsSubmitted (create_tx employee token_address deposit rate stop_time pk) s.world hash
  unfolding create_stream
  create_stream-IsSubmitted employee token_address deposit rate stop_time s pk hash h e =
      perform_sound (create_tx employee token_address deposit rate stop_time pk) then_newest s hash
        (ap (λ (q : Result (Option String) × PayStream World). q.0)
            (sym (
              with_key_lem
                (λ k.
                  perform p c api to_string passphrase
                    (create_tx employee token_address deposit rate stop_time k) then_newest)
                s pk h))
          ∙ e)

  -- The same for `withdraw`.
  pub withdraw-IsSubmitted :
      (stream_id : ℤ) (s : PayStream World) (pk hash : String)
      → present s.public_key ≡ some pk
      → (withdraw p c api to_string passphrase stream_id s).0 ≡ ok (some hash)
      → IsSubmitted (withdraw_tx stream_id pk) s.world hash
  unfolding withdraw
  withdraw-IsSubmitted stream_id s pk hash h e =
      perform_sound (withdraw_tx stream_id pk) (load_stream p c api to_string passphrase stream_id)
        s hash
        (ap (λ (q : Result (Option String) × PayStream World). q.0)
            (sym (
              with_key_lem
                (λ k.
                  perform p c api to_string passphrase (withdraw_tx stream_id k)
                    (load_stream p c api to_string passphrase stream_id))
                s pk h))
          ∙ e)
