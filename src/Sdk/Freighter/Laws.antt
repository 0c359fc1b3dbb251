-- ===== src/Sdk/Freighter/Laws.antt =====
-- Proofs about the wallet functions of sdk/src/freighter.ts.
use Prim.Native.String.{String}
use paystream_contracts.Prelude.{
  ◌≡◌, ap, ◌∙◌, ◌↔◌, arith, true, false, Option, none, some, Bool-cases, inl, inr, if◌then◌else◌,
}
use paystream_contracts.Js.{Result, Io, ok, err, pure, ◌>>=◌, ◌>>◌}
use paystream_contracts.Js.Laws.{bind_ok, bind_inv}
use paystream_contracts.Sdk.Freighter.{
  Wallet, truthy, reject, is_freighter_connected, connect_freighter, get_freighter_public_key,
  freighter_sign_transaction, not_installed,
}

module _ {World : Type 0} (api : Wallet World) (w : World) where
  -- The test whether the wallet is connected never throws, and it answers "no" where the
  -- extension is absent or throws.
  pub is_freighter_connected_lem : (is_freighter_connected api w).0 ≡ (
      if api.installed w
      then elim (api.is_connected w).0 [ ok b ↦ ok b | err _ ↦ ok false ]
      else ok false)
  unfolding is_freighter_connected
  is_freighter_connected_lem = ground arith

  -- Without the extension, connecting, reading the key and signing all throw the error that says
  -- so, and ask nothing of the wallet.
  pub not_installed_throws :
      api.installed w ≡ false
      → (xdr passphrase : String)
      → (connect_freighter api w ≡ (err not_installed, w))
        × (get_freighter_public_key api w ≡ (err not_installed, w))
        × (freighter_sign_transaction api xdr passphrase w ≡ (err not_installed, w))
  unfolding connect_freighter get_freighter_public_key freighter_sign_transaction
  not_installed_throws e xdr passphrase = ground arith

  abbrev signed_or_thrown : String × Option String → Io World String
  signed_or_thrown reply = reject api "Freighter signing failed: " reply.1 >> pure reply.0

  abbrev ask_to_sign : String → String → Io World String
  ask_to_sign xdr passphrase = api.sign_transaction xdr passphrase >>= signed_or_thrown

  sign_with_api :
      (xdr passphrase : String)
      → api.installed w ≡ true
      → freighter_sign_transaction api xdr passphrase w ≡ ask_to_sign xdr passphrase w
  unfolding freighter_sign_transaction
  sign_with_api xdr passphrase e = ground arith

  signed_inv :
      (reply : String × Option String) (w' : World) (signed : String)
      → (signed_or_thrown reply w').0 ≡ ok signed
      → (truthy reply.1 ≡ false) × (reply.0 ≡ signed)
  signed_inv (text, none) w' signed h = ground arith
  signed_inv (text, some e) w' signed h = ground arith

  -- A signature is returned exactly when the extension is there and replies with it and with no
  -- error.
  pub freighter_sign_transaction_iff :
      (xdr passphrase signed : String)
      → ((freighter_sign_transaction api xdr passphrase w).0 ≡ ok signed) ↔ (
          (api.installed w ≡ true)
          × ((e : Option String) × (w' : World) × (api.sign_transaction xdr passphrase w
                ≡ (ok (signed, e), w'))
              × (truthy e ≡ false)))
  unfolding freighter_sign_transaction
  freighter_sign_transaction_iff xdr passphrase signed = (to, from)
    where
      to :
          (freighter_sign_transaction api xdr passphrase w).0 ≡ ok signed
          → (api.installed w ≡ true)
            × ((e : Option String) × (w' : World) × (api.sign_transaction xdr passphrase w
                  ≡ (ok (signed, e), w'))
                × (truthy e ≡ false))
      to h = elim (Bool-cases (api.installed w)) [
        | inr absent ↦ absurd (ground arith)
        | inl here ↦
            let (reply, w', replied, h2) =
              bind_inv (api.sign_transaction xdr passphrase) signed_or_thrown w signed
                (rw (← sign_with_api xdr passphrase here) h) in
            let (fine, same) = signed_inv reply w' signed h2 in
            (here, (reply.1, w', cc (replied, same), fine))
      ]

      from :
          (api.installed w ≡ true)
            × ((e : Option String) × (w' : World) × (api.sign_transaction xdr passphrase w
                  ≡ (ok (signed, e), w'))
                × (truthy e ≡ false))
          → (freighter_sign_transaction api xdr passphrase w).0 ≡ ok signed
      from (here, (e, w', replied, fine)) =
          ap (λ (q : Result String × World). q.0)
            (sign_with_api xdr passphrase here
              ∙ bind_ok (api.sign_transaction xdr passphrase) signed_or_thrown w w' (signed, e)
                  replied)
          ∙ rw fine
