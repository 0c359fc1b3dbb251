-- ===== src/Sdk/Freighter.antt =====
-- sdk/src/freighter.ts. The wallet extension is a parameter.
pub mod Laws
use Prim.Native.String.{String}
use text.Mathlib.Text.{◌==◌}
use paystream_contracts.Prelude.{Bool, true, false, not, Option, none, some, if◌then◌else◌}
use paystream_contracts.Js.{Error, Io, ◌>>=◌, ◌>>◌, pure, throw, try_catch, new_error, ◌<>◌}

-- `globalThis.freighterApi`, over the state of the world: whether it is there, and its methods,
-- each with the field `error` of its reply (`none` where the field is absent).
pub record Wallet (World : Type 0) : Type 0 where
  pub installed : World → Bool
  pub is_connected : Io World Bool
  pub request_access : Io World (Option String)
  pub get_public_key : Io World (String × Option String)
  pub sign_transaction : String → String → Io World (String × Option String)

unfoldable pub not_installed : Error
not_installed = record {
  name = "FreighterNotInstalledError";
  message =
      "Freighter wallet extension is not installed. Install it from https://freighter.app and reload the page.";
}

-- A field `error` counts as one if it is a text that is not empty.
abbrev pub truthy : Option String → Bool
truthy none = false
truthy (some s) = not (s == "")

abbrev pub text_of : Option String → String
text_of none = "undefined"
text_of (some s) = s

module _ {World : Type 0} (api : Wallet World) where
  unfoldable pub get_freighter_api : Io World (Unit {0})
  unfolding not_installed
  get_freighter_api w = (if api.installed w then pure tt else throw not_installed) w

  unfoldable pub is_freighter_connected : Io World Bool
  unfolding get_freighter_api
  is_freighter_connected = try_catch (get_freighter_api >> api.is_connected) (λ _. pure false)

  -- `if (error) throw new Error(prefix + error)`
  abbrev pub reject : String → Option String → Io World (Unit {0})
  reject prefix e = if truthy e then throw (new_error (prefix <> text_of e)) else pure tt

  unfoldable pub connect_freighter : Io World String
  unfolding get_freighter_api
  connect_freighter = do
    get_freighter_api
    e ← api.request_access
    reject "Freighter access denied: " e
    (public_key, key_error) ← api.get_public_key
    reject "Freighter getPublicKey failed: " key_error
    pure public_key

  unfoldable pub get_freighter_public_key : Io World String
  unfolding get_freighter_api
  get_freighter_public_key = do
    get_freighter_api
    (public_key, e) ← api.get_public_key
    reject "Freighter getPublicKey failed: " e
    pure public_key

  unfoldable pub freighter_sign_transaction : String → String → Io World String
  unfolding get_freighter_api
  freighter_sign_transaction xdr network_passphrase = do
    get_freighter_api
    (signed_tx_xdr, e) ← api.sign_transaction xdr network_passphrase
    reject "Freighter signing failed: " e
    pure signed_tx_xdr
