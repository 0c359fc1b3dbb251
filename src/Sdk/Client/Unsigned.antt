-- ===== src/Sdk/Client/Unsigned.antt =====
-- Proofs about the methods of `PayStreamClient` (sdk/src/client.ts) that build or read.
use Prim.Native.String.{String}
use paystream_contracts.Prelude.{◌≡◌, ◌↔◌, arith, List, none, some, Option-cases, inl, inr, ◌∙◌, ap}
use paystream_contracts.Js.{Result, ok, Io, lift, pure, throw, ◌>>=◌, new_error, ◌<>◌}
use paystream_contracts.Js.Laws.{bind_ok, bind_inv, Keeps, Keeps-bind}
use paystream_contracts.Sdk.Platform.{Platform}
use paystream_contracts.Sdk.Requests.{Request}
use paystream_contracts.Sdk.Client.{Client, to_scvals, call_tx, simulate, build_tx}

module _ (p : Platform) (c : Client p) where
  open p use {
    World, Account, ScVal, Transaction, Simulation, get_account, simulate_transaction,
    simulation_error, assemble_transaction, to_xdr,
  }

  -- What the client builds from a request, once the arguments are encoded.
  abbrev transaction : Request → List ScVal → Account → Transaction
  transaction r args account = call_tx p c c.contract account r.method args

  abbrev finish : Transaction → Simulation → Io World String
  finish tx sim = pure (to_xdr (assemble_transaction tx sim))

  abbrev with_account : Request → List ScVal → Account → Io World String
  with_account r args account =
      simulate p c (transaction r args account) >>= finish (transaction r args account)

  abbrev with_args : Request → List ScVal → Io World String
  with_args r args = get_account c.rpc r.caller >>= with_account r args

  abbrev checked : Simulation → Io World Simulation
  checked sim = elim (simulation_error sim) [
    | none ↦ pure sim
    | some e ↦ throw (new_error ("Simulation failed: " <> e))
  ]

  checked_world : (sim : Simulation) (w : World) → (checked sim w).1 ≡ w
  checked_world sim w = elim (Option-cases (simulation_error sim)) [
    | inl e ↦ rw (e, checked)
    | inr (x, e) ↦ rw (e, checked)
  ]

  simulate_fine :
      (tx : Transaction) (w w' : World) (sim : Simulation)
      → simulate_transaction c.rpc tx w ≡ (ok sim, w')
      → simulation_error sim ≡ none
      → simulate p c tx w ≡ (ok sim, w')
  unfolding simulate
  simulate_fine tx w w' sim e f =
      bind_ok (simulate_transaction c.rpc tx) checked w w' sim e ∙ rw (f, checked)

  simulate_inv :
      (tx : Transaction) (w w' : World) (sim : Simulation)
      → simulate p c tx w ≡ (ok sim, w')
      → (simulate_transaction c.rpc tx w ≡ (ok sim, w')) × (simulation_error sim ≡ none)
  unfolding simulate
  simulate_inv tx w w' sim e =
      ground (arith, bind_inv (simulate_transaction c.rpc tx) checked w sim)

  -- The request was encoded, the account found and the simulation free of errors; `xdr` is the
  -- text of the transaction that the simulation completes.
  abbrev pub IsPrepared : Request → World → String → Type 0
  IsPrepared r w xdr =
      (args : List ScVal) × (account : Account) × (sim : Simulation) × (w1 : World) × (w2 : World)
      × (to_scvals p r.args ≡ ok args)
      × (get_account c.rpc r.caller w ≡ (ok account, w1))
      × (simulate_transaction c.rpc (transaction r args account) w1 ≡ (ok sim, w2))
      × (simulation_error sim ≡ none)
      × (xdr ≡ to_xdr (assemble_transaction (transaction r args account) sim))

  build_tx_sound :
      (r : Request) (w : World) (xdr : String) → (build_tx p c r w).0 ≡ ok xdr → IsPrepared r w xdr
  unfolding build_tx
  build_tx_sound r w xdr e =
      let (args, w0, encoded, e1) = bind_inv (lift (to_scvals p r.args)) (with_args r) w xdr e in
      let (account, w1, found, e2) =
        bind_inv (get_account c.rpc r.caller) (with_account r args) w0 xdr e1 in
      let tx = transaction r args account in
      let (sim, w2, simulated, e3) = bind_inv (simulate p c tx) (finish tx) w1 xdr e2 in
      let (raw, fine) = simulate_inv tx w1 w2 sim simulated in
      let same : w0 ≡ w = cc encoded in
      (args, account, sim, w1, w2, cc encoded, rw (← same) found, raw, fine, cc e3)

  build_tx_complete :
      (r : Request) (w : World) (xdr : String) → IsPrepared r w xdr → (build_tx p c r w).0 ≡ ok xdr
  unfolding build_tx
  build_tx_complete r w xdr (args, account, sim, w1, w2, encoded, found, raw, fine, same) =
      let tx = transaction r args account in
      ap (λ (q : Result String × World). q.0)
        (bind_ok (lift (to_scvals p r.args)) (with_args r) w w args (rw encoded)
          ∙ bind_ok (get_account c.rpc r.caller) (with_account r args) w w1 account found
          ∙ bind_ok (simulate p c tx) (finish tx) w1 w2 sim (simulate_fine tx w1 w2 sim raw fine))
      ∙ rw same

  -- A method that builds a transaction returns a text exactly when the arguments are encoded, the
  -- account is found and the simulation reports no error, in this order, and the text is then
  -- that of the simulated transaction, for the contract, the function and the arguments asked for.
  pub build_tx_iff :
      (r : Request) (w : World) (xdr : String)
      → ((build_tx p c r w).0 ≡ ok xdr) ↔ IsPrepared r w xdr
  build_tx_iff r w xdr = (build_tx_sound r w xdr, build_tx_complete r w xdr)

  -- If asking for an account and simulating both keep `I`, so does building a transaction,
  -- whether it returns or throws.
  pub build_tx-Keeps :
      (I : World → Type 0) (r : Request)
      → ((id : String) → Keeps I (get_account c.rpc id))
      → ((tx : Transaction) → Keeps I (simulate_transaction c.rpc tx))
      → Keeps I (build_tx p c r)
  unfolding build_tx simulate
  build_tx-Keeps I r keep_account keep_simulate =
      Keeps-bind I (lift (to_scvals p r.args)) (with_args r) (λ w h. h)
        λ args.
          Keeps-bind I (get_account c.rpc r.caller) (with_account r args) (keep_account r.caller)
            λ account.
              let tx = transaction r args account in
              Keeps-bind I (simulate p c tx) (finish tx)
                (Keeps-bind I (simulate_transaction c.rpc tx) checked (keep_simulate tx)
                  (λ sim w h. rw (checked_world sim w) h))
                (λ sim w h. h)
