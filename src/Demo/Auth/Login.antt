-- ===== src/Demo/Auth/Login.antt =====
-- Proofs about the steps of a login and how it ends (demo/src/useAuth.ts).
use Prim.Native.String.{String}
use paystream_contracts.Prelude.{
  ◌≡◌, refl, ap, sym, ◌∙◌, arith, Bool, true, false, Option, none, some,
}
use paystream_contracts.Prelude.Int.{pos}
use paystream_contracts.Js.{Error, Result, Io, ok, err, error_text, present, ◌>>=◌}
use paystream_contracts.Js.Laws.{bind_inv, Result-cases}
use paystream_contracts.Js.Float.{Float}
use paystream_contracts.Sdk.Freighter.{Wallet, freighter_sign_transaction}
use paystream_contracts.Demo.Auth.{
  Service, Auth, persist_session, set_session, exchange, do_login, try_login, login, remember_of,
  Challenge, Verdict, take_nonce, take_token, hours_of,
}

module _ (f : Float) {World : Type 0} (api : Wallet World) (service : Service World)
    (clock : World → f.F) (passphrase : String) where
  open f use {F, add, mul, lt, of_int}

  -- How a login ends: with a session in the state and in the storage, or with an error that is
  -- shown and thrown, where the session is what it was.
  pub data IsLogin (pk : String) (remember : Bool) (s : Auth f World)
      : Result (Unit {0}) × Auth f World → Type 0 where
    signed_in :
        (jwt : String) (expiry : F) (w : World)
        → exchange f api service clock passphrase pk s.world ≡ (ok (jwt, expiry), w)
        → IsLogin pk remember s (
          ok tt,
          record s {
            token = some jwt;
            token_expiry = some expiry;
            storage = persist_session f jwt expiry remember s.storage;
            remember_me = remember;
            loading = false;
            error = none;
            world = w;
          },
        )
    refused :
        (e : Error) (w : World)
        → exchange f api service clock passphrase pk s.world ≡ (err e, w)
        → IsLogin pk remember s (
          err e,
          record s {
            remember_me = remember;
            loading = false;
            error = some (error_text e);
            world = w;
          },
        )

  login_returns :
      (opts : Option Bool) (s : Auth f World) (pk jwt : String) (expiry : F) (w : World)
      → present s.public_key ≡ some pk
      → exchange f api service clock passphrase pk s.world ≡ (ok (jwt, expiry), w)
      → login f api service clock passphrase opts s ≡ (
        ok tt,
        record s {
          token = some jwt;
          token_expiry = some expiry;
          storage = persist_session f jwt expiry (remember_of opts s.remember_me) s.storage;
          remember_me = remember_of opts s.remember_me;
          loading = false;
          error = none;
          world = w;
        },
      )
  unfolding login try_login do_login set_session
  login_returns opts s pk jwt expiry w h e = ground (arith, h, e)

  login_throws :
      (opts : Option Bool) (s : Auth f World) (pk : String) (x : Error) (w : World)
      → present s.public_key ≡ some pk
      → exchange f api service clock passphrase pk s.world ≡ (err x, w)
      → login f api service clock passphrase opts s ≡ (
        err x,
        record s {
          remember_me = remember_of opts s.remember_me;
          loading = false;
          error = some (error_text x);
          world = w;
        },
      )
  unfolding login try_login do_login
  login_throws opts s pk x w h e = ground (arith, h, e)

  -- A login ends in one of the two ways, once a wallet is connected.
  pub login-IsLogin :
      (opts : Option Bool) (s : Auth f World) (pk : String)
      → present s.public_key ≡ some pk
      → IsLogin pk (remember_of opts s.remember_me) s (login f api service clock passphrase opts s)
  login-IsLogin opts s pk h = go (exchange f api service clock passphrase pk s.world) refl
    where
      go :
          (q : Result (String × F) × World)
          → exchange f api service clock passphrase pk s.world ≡ q
          → IsLogin pk
              (remember_of opts s.remember_me)
              s
              (login f api service clock passphrase opts s)
      go (ok (jwt, expiry), w) e =
          rw (login_returns opts s pk jwt expiry w h e) (signed_in jwt expiry w e)
      go (err x, w) e = rw (login_throws opts s pk x w h e) (refused x w e)

  -- How the token `jwt` was issued, step by step.
  pub record IsIssued (pk : String) (w : World) (jwt : String) (expiry : F) : Type 0 where
    challenge : Challenge
    verdict : Verdict
    nonce : String
    signature : String
    expires_in : String
    w1 : World
    w2 : World
    w3 : World
    challenged : service.challenge pk w ≡ (ok challenge, w1)
    challenge_ok : challenge.accepted ≡ true
    given : challenge.nonce ≡ ok nonce
    signed : freighter_sign_transaction api nonce passphrase w1 ≡ (ok signature, w2)
    verified : service.verify pk signature w2 ≡ (ok verdict, w3)
    verified_ok : verdict.accepted ≡ true
    issued : verdict.issued ≡ ok (jwt, expires_in)
    expires : expiry ≡ add (clock w3) (mul (hours_of f expires_in) (of_int (pos 3600000)))

  take_nonce_inv :
      (res : Challenge) (w : World) (nonce : String) (w' : World)
      → take_nonce res w ≡ (ok nonce, w')
      → (res.accepted ≡ true) × (res.nonce ≡ ok nonce) × (w' ≡ w)
  unfolding take_nonce
  take_nonce_inv res w nonce w' e = ground arith

  take_token_inv :
      (res : Verdict) (w : World) (x : String × String) (w' : World)
      → take_token res w ≡ (ok x, w')
      → (res.accepted ≡ true) × (res.issued ≡ ok x) × (w' ≡ w)
  unfolding take_token
  take_token_inv res w x w' e = ground (arith, Result-cases res.error)

  -- The rest of `_doLogin` after each of its steps.
  abbrev issue : String × String → Io World (String × F)
  issue x w = (ok (x.0, add (clock w) (mul (hours_of f x.1) (of_int (pos 3600000)))), w)

  issue_inv :
      (res : Verdict) (w : World) (jwt : String) (expiry : F)
      → ((take_token res >>= issue) w).0 ≡ ok (jwt, expiry)
      → (expires_in : String) × (res.accepted ≡ true)
        × (res.issued ≡ ok (jwt, expires_in))
        × (expiry ≡ add (clock w) (mul (hours_of f expires_in) (of_int (pos 3600000))))
  issue_inv res w jwt expiry e =
      let (x, w', t, e') = bind_inv (take_token res) issue w (jwt, expiry) e in
      let (accepted, issued, same) = take_token_inv res w x w' t in (x.1, accepted, cc, cc)

  abbrev after_sign : String → String → Io World (String × F)
  after_sign pk signature = service.verify pk signature >>= λ res. take_token res >>= issue

  abbrev after_nonce : String → String → Io World (String × F)
  after_nonce pk nonce = freighter_sign_transaction api nonce passphrase >>= after_sign pk

  abbrev after_challenge : String → Challenge → Io World (String × F)
  after_challenge pk res = take_nonce res >>= after_nonce pk

  exchange_lem :
      (pk : String) (w : World)
      → exchange f api service clock passphrase pk w
        ≡ (service.challenge pk >>= after_challenge pk) w
  unfolding exchange
  exchange_lem pk w = refl

  -- A token is issued only for the wallet's signature of the service's nonce: the service accepted
  -- the key, the wallet signed the nonce that it gave, and the service accepted the signature. The
  -- session then ends after the hours that the reply names, counted from that instant.
  pub exchange-IsIssued :
      (pk jwt : String) (expiry : F) (w : World)
      → (exchange f api service clock passphrase pk w).0 ≡ ok (jwt, expiry)
      → IsIssued pk w jwt expiry
  exchange-IsIssued pk jwt expiry w e =
      let (challenge, w1, c, e1) =
        bind_inv (service.challenge pk) (after_challenge pk) w (jwt, expiry)
          (sym (ap (λ (q : Result (String × F) × World). q.0) (exchange_lem pk w)) ∙ e) in
      let (nonce, w1', n, e2) =
        bind_inv (take_nonce challenge) (after_nonce pk) w1 (jwt, expiry) e1 in
      let (signature, w2, s, e3) =
        bind_inv (freighter_sign_transaction api nonce passphrase) (after_sign pk) w1' (jwt, expiry)
          e2 in
      let (verdict, w3, v, e4) =
        bind_inv (service.verify pk signature) (λ res. take_token res >>= issue) w2 (jwt, expiry)
          e3 in
      let (accepted, given, same) = take_nonce_inv challenge w1 nonce w1' n in
      let (expires_in, verified, issued, expires) = issue_inv verdict w3 jwt expiry e4 in
      record {
        challenge = challenge;
        verdict = verdict;
        nonce = nonce;
        signature = signature;
        expires_in = expires_in;
        w1 = w1;
        w2 = w2;
        w3 = w3;
        challenged = c;
        challenge_ok = accepted;
        given = given;
        signed = ap (freighter_sign_transaction api nonce passphrase) (sym same) ∙ s;
        verified = v;
        verified_ok = verified;
        issued = issued;
        expires = expires;
      }
