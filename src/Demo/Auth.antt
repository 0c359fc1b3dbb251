-- ===== src/Demo/Auth.antt =====
-- Signing in with a wallet (demo/src/useAuth.ts). The service that issues tokens, the wallet and
-- the clock are parameters; times are doubles, by their operations.
pub mod Laws
pub mod Login
use Prim.Native.String.{String}
use text.Mathlib.Text.{◌==◌}
use paystream_contracts.Prelude.{
  Bool, true, false, ◌&&◌, ◌||◌, not, List, Option, none, some, if◌then◌else◌,
}
use paystream_contracts.Prelude.Int.{pos}
use paystream_contracts.Prelude.Dict.{lookup, insert, remove}
use paystream_contracts.Js.{
  Error, Result, ok, err, Io, ◌>>=◌, ◌>>◌, pure, throw, lift, modify, try_catch, finally, new_error,
  error_text, ◌<>◌, present,
}
use paystream_contracts.Js.Float.{Float}
use paystream_contracts.Sdk.Freighter.{
  Wallet, truthy, is_freighter_connected, connect_freighter, freighter_sign_transaction,
}

pub data WalletType : Type 0 where
  freighter walletconnect ledger : WalletType

abbrev pub wallet_name : WalletType → String
wallet_name freighter = "freighter"
wallet_name walletconnect = "walletconnect"
wallet_name ledger = "ledger"

-- The reply to `/auth/challenge`: `res.ok` and the nonce of `res.json()`, which may throw.
pub record Challenge : Type 0 where
  pub accepted : Bool
  pub nonce : Result String

-- The reply to `/auth/verify`: its JSON is read for an error, or for a token.
pub record Verdict : Type 0 where
  pub accepted : Bool
  pub error : Result (Option String)
  pub issued : Result (String × String)

-- `localStorage` and `sessionStorage`
pub record Storage : Type 0 where
  pub local_storage : List (String × String)
  pub session_storage : List (String × String)

pub record Service (World : Type 0) : Type 0 where
  pub challenge : String → Io World Challenge
  pub verify : (address signature : String) → Io World Verdict

abbrev pub token_key : String
token_key = "paystream_auth_token"

abbrev pub expiry_key : String
expiry_key = "paystream_auth_expiry"

abbrev pub remember_key : String
remember_key = "paystream_remember_me"

abbrev pub bool_text : Bool → String
bool_text true = "true"
bool_text false = "false"

-- `s.getItem(k) === "true"`
abbrev pub is_true : Option String → Bool
is_true none = false
is_true (some s) = s == "true"

-- `rememberMe ? localStorage : sessionStorage`
abbrev pub chosen : Bool → Storage → List (String × String)
chosen true st = st.local_storage
chosen false st = st.session_storage

-- `removeItem` of both keys
unfoldable pub forget : List (String × String) → List (String × String)
forget m = remove expiry_key (remove token_key m)

unfoldable pub clear_session : Storage → Storage
clear_session st = record {
  local_storage = forget st.local_storage;
  session_storage = forget st.session_storage;
}

-- `body.error ?? "Verification failed"`
abbrev or_default : Option String → String
or_default none = "Verification failed"
or_default (some s) = s

unfoldable pub take_nonce : {World : Type 0} → Challenge → Io World String
take_nonce res =
    if res.accepted then lift res.nonce else throw (new_error "Failed to fetch challenge")

unfoldable pub take_token : {World : Type 0} → Verdict → Io World (String × String)
take_token res =
    if res.accepted
    then lift res.issued
    else (lift res.error >>= λ e. throw (new_error (or_default e)))

-- `opts.remember ?? rememberMe`
abbrev pub remember_of : Option Bool → Bool → Bool
remember_of none remember_me = remember_me
remember_of (some b) remember_me = b

module _ (f : Float) where
  open f use {F, of_int, add, sub, mul, lt, le, is_nan, number, parse_int, show}

  -- `Pick<AuthState, "token" | "tokenExpiry" | "rememberMe">`
  pub record Session : Type 0 where
    pub token : Option String
    pub token_expiry : Option F
    pub remember_me : Bool

  -- `!x`
  unfoldable pub falsy : F → Bool
  falsy x = is_nan x || (le x (of_int (pos 0)) && le (of_int (pos 0)) x)

  -- `expiry ? Number(expiry) : null`
  unfoldable pub read_expiry : Option String → Option F
  read_expiry e = elim (present e) [ none ↦ none | some s ↦ some (number s) ]

  -- `token && tokenExpiry && Date.now() < tokenExpiry`
  unfoldable pub is_valid : F → Option String → Option F → Bool
  is_valid now token none = false
  is_valid now token (some expiry) = truthy token && (not (falsy expiry) && lt now expiry)

  unfoldable pub read_persisted_session : F → Storage → Session
  read_persisted_session now st =
      let remember_me = is_true (lookup remember_key st.local_storage) in
      let token = lookup token_key (chosen remember_me st) in
      let token_expiry = read_expiry (lookup expiry_key (chosen remember_me st)) in
      if is_valid now token token_expiry
      then record { token = token; token_expiry = token_expiry; remember_me = remember_me }
      else record { token = none; token_expiry = none; remember_me = remember_me }

  -- `store.setItem` of both keys
  unfoldable pub store_items : String → F → List (String × String) → List (String × String)
  store_items token expiry_ms m = insert expiry_key (show expiry_ms) (insert token_key token m)

  abbrev pub store_in : Bool → String → F → Storage → Storage
  store_in true token expiry_ms st = record st {
    local_storage = store_items token expiry_ms st.local_storage;
  }
  store_in false token expiry_ms st = record st {
    session_storage = store_items token expiry_ms st.session_storage;
  }

  unfoldable pub persist_session : String → F → Bool → Storage → Storage
  persist_session token expiry_ms remember_me st =
      store_in remember_me token expiry_ms
        record st { local_storage = insert remember_key (bool_text remember_me) st.local_storage }

  -- The hook's state, with the storage and all that lies outside.
  pub record Auth (World : Type 0) : Type 0 where
    pub public_key : Option String
    pub token : Option String
    pub token_expiry : Option F
    pub remember_me : Bool
    pub loading : Bool
    pub error : Option String
    pub storage : Storage
    pub world : World

  abbrev pub outside : {World A : Type 0} → Io World A → Io (Auth World) A
  outside m s = let (r, w) = m s.world in (r, record s { world = w })

  unfoldable pub is_authenticated : {World : Type 0} → F → Auth World → Bool
  is_authenticated now s = is_valid now s.token s.token_expiry

  unfoldable pub logout : {World : Type 0} → Auth World → Auth World
  logout s = record s {
    public_key = none;
    token = none;
    token_expiry = none;
    storage = clear_session s.storage;
  }

  -- `setToken`, `setTokenExpiry` and `persistSession`: the end of `_doLogin`
  unfoldable pub set_session : {World : Type 0} → String → F → Bool → Auth World → Auth World
  set_session jwt expiry remember s = record s {
    token = some jwt;
    token_expiry = some expiry;
    storage = persist_session jwt expiry remember s.storage;
  }

  -- `tokenExpiry - Date.now() - 5 * 60 * 1000`, where a refresh is due later
  unfoldable pub refresh_delay : {World : Type 0} → F → Auth World → Option F
  refresh_delay now s = elim s.token_expiry [
    | none ↦ none
    | some expiry ↦
        let delay = sub (sub expiry now) (of_int (pos 300000)) in
        if not (truthy s.token) || (falsy expiry || le delay (of_int (pos 0)))
        then none
        else some delay
  ]

  abbrev pub begin_loading : {World : Type 0} → Auth World → Auth World
  begin_loading s = record s { loading = true; error = none }

  abbrev pub end_loading : {World : Type 0} → Auth World → Auth World
  end_loading s = record s { loading = false }

  -- `setError(String(e)); throw e;`
  abbrev pub fail : {World A : Type 0} → Error → Io (Auth World) A
  fail e = modify (λ s. record s { error = some (error_text e) }) >> throw e

  -- `parseInt(expiresIn, 10) || 24`
  unfoldable pub hours_of : String → F
  hours_of expires_in =
      let hours = parse_int expires_in in if falsy hours then of_int (pos 24) else hours

  module _ {World : Type 0} (api : Wallet World) (service : Service World) (clock : World → F)
      (passphrase : String) where
    -- `_doLogin` up to the reply: the token and the time at which it expires.
    unfoldable pub exchange : String → Io World (String × F)
    exchange pk = do
      challenge_res ← service.challenge pk
      nonce ← take_nonce challenge_res
      signature ← freighter_sign_transaction api nonce passphrase
      verify_res ← service.verify pk signature
      (jwt, expires_in) ← take_token verify_res
      (λ w. (ok (jwt, add (clock w) (mul (hours_of expires_in) (of_int (pos 3600000)))), w))

    unfoldable pub do_login : String → Bool → Io (Auth World) (Unit {0})
    do_login pk remember = outside (exchange pk) >>= λ x. modify (set_session x.0 x.1 remember)

    -- The `try` block of `login`.
    unfoldable pub try_login : String → Bool → Io (Auth World) (Unit {0})
    try_login pk remember = do
      modify (λ s. record s { remember_me = remember })
      do_login pk remember

    unfoldable pub login : Option Bool → Io (Auth World) (Unit {0})
    login opts s = elim (present s.public_key) [
      | none ↦ throw (new_error "Connect a wallet first") s
      | some pk ↦
          (modify begin_loading
              >> finally (try_catch (try_login pk (remember_of opts s.remember_me)) fail)
                  end_loading)
            s
    ]

    -- The callback of the refresh timer.
    unfoldable pub on_refresh : Io (Auth World) (Unit {0})
    on_refresh s = elim (present s.public_key) [
      | none ↦ (ok tt, s)
      | some pk ↦ try_catch (do_login pk s.remember_me) (λ _. pure tt) s
    ]

    -- `if (!connected) throw …`
    unfoldable pub require : Bool → Io (Auth World) (Unit {0})
    require connected =
        if connected
        then pure tt
        else throw (new_error "Freighter not installed. Visit https://freighter.app")

    unfoldable pub connect_wallet : WalletType → Io (Auth World) String
    connect_wallet freighter = do
      connected ← outside (is_freighter_connected api)
      require connected
      pk ← outside (connect_freighter api)
      modify (λ s. record s { public_key = some pk })
      pure pk
    connect_wallet other = throw (new_error (wallet_name other <> " support coming soon"))

    unfoldable pub connect : WalletType → Io (Auth World) String
    connect wallet_type =
        modify begin_loading >> finally (try_catch (connect_wallet wallet_type) fail) end_loading
