-- ===== src/Sdk/Client.antt =====
-- `PayStreamClient` (sdk/src/client.ts).
pub mod Submission
pub mod Unsigned
use Prim.Native.String.{String}
use text.Mathlib.Text.{◌==◌}
use paystream_contracts.Prelude.{ℕ, zero, suc, List, [], ◌∷◌, Option, none, some, if◌then◌else◌}
use paystream_contracts.Prelude.Int.{ℤ}
use paystream_contracts.Js.{
  Result, ok, err, Io, ◌>>=◌, ◌>>◌, pure, throw, lift, modify, and_then, new_error, ◌<>◌,
}
use paystream_contracts.Sdk.Types.{Stream, StreamParams, PayStreamClientOptions}
use paystream_contracts.Sdk.Platform.{Platform, IntType, success, failed, not_found}
use paystream_contracts.Sdk.Platform.{SendResult, TransactionStatus}
use paystream_contracts.Sdk.Convert.{big_int, native_to_stream}
use paystream_contracts.Sdk.Requests
use paystream_contracts.Sdk.Requests.{
  Arg, addr, u64, i128, batch, Field, address_field, i128_field, u64_field, batch_entries, Request,
  read_account,
}

abbrev timeout_seconds : ℕ
timeout_seconds = 30

module _ (p : Platform) where
  open p use {
    World, Contract, Account, Operation, Transaction, Simulation, ScVal, parse_big_int,
    new_contract, call, address, native_to_scval, scv_vec, scv_map, scval_to_native,
    scval_to_record, base_fee, build, simulation_error, retval, assemble_transaction, to_xdr,
    from_xdr, get_account, simulate_transaction, send_transaction, get_transaction, sleep,
  }

  -- The fields of the class.
  pub record Client : Type 0 where
    pub rpc : String
    pub contract : Contract
    pub network_passphrase : String
    pub contract_id : String

  unfoldable pub new_client : PayStreamClientOptions → Result Client
  new_client opts = and_then (new_contract opts.contract_id) λ contract. ok (record {
    rpc = opts.rpc_url;
    contract = contract;
    network_passphrase = opts.network_passphrase;
    contract_id = opts.contract_id;
  })

  field_to_scval : Field → Result ScVal
  field_to_scval (address_field a) = address a
  field_to_scval (i128_field n) = native_to_scval n IntType.i128
  field_to_scval (u64_field n) = native_to_scval n IntType.u64

  entries_to_scvals : List (String × Field) → Result (List (String × ScVal))
  unfolding field_to_scval
  entries_to_scvals [] = ok []
  entries_to_scvals (entry ∷ rest) =
      and_then (field_to_scval entry.1)
        λ v. and_then (entries_to_scvals rest) λ vs. ok ((entry.0, v) ∷ vs)

  -- One map of the vector in `createStreamsBatch`
  params_to_scval : StreamParams → Result ScVal
  unfolding entries_to_scvals
  params_to_scval q = and_then (entries_to_scvals (batch_entries q)) λ entries. ok (scv_map entries)

  params_to_scvals : List StreamParams → Result (List ScVal)
  unfolding params_to_scval
  params_to_scvals [] = ok []
  params_to_scvals (q ∷ qs) =
      and_then (params_to_scval q) λ v. and_then (params_to_scvals qs) λ vs. ok (v ∷ vs)

  to_scval : Arg → Result ScVal
  unfolding params_to_scvals
  to_scval (addr a) = address a
  to_scval (u64 n) = native_to_scval n IntType.u64
  to_scval (i128 n) = native_to_scval n IntType.i128
  to_scval (batch qs) = and_then (params_to_scvals qs) λ vs. ok (scv_vec vs)

  -- The arguments are encoded in order, before the client asks for the account.
  unfoldable pub to_scvals : List Arg → Result (List ScVal)
  unfolding to_scval
  to_scvals [] = ok []
  to_scvals (a ∷ rest) = and_then (to_scval a) λ v. and_then (to_scvals rest) λ vs. ok (v ∷ vs)

  -- The transaction that calls `method` of `contract`.
  unfoldable pub call_tx : Client → Contract → Account → String → List ScVal → Transaction
  call_tx c contract account method args =
      build account base_fee c.network_passphrase (call contract method args) timeout_seconds

  -- `simulateTransaction`, and the throw on a simulation error
  unfoldable pub simulate : Client → Transaction → Io World Simulation
  simulate c tx = do
    sim ← simulate_transaction c.rpc tx
    elim (simulation_error sim) [
      | none ↦ pure sim
      | some e ↦ throw (new_error ("Simulation failed: " <> e))
    ]

  unfoldable pub build_tx : Client → Request → Io World String
  unfolding to_scvals call_tx simulate
  build_tx c r = do
    args ← lift (to_scvals r.args)
    account ← get_account c.rpc r.caller
    let tx = call_tx c c.contract account r.method args
    sim ← simulate c tx
    pure (to_xdr (assemble_transaction tx sim))

  returned : Simulation → Io World ScVal
  returned sim = elim (retval sim) [
    | none ↦ throw (new_error "No result from simulation")
    | some v ↦ pure v
  ]

  unfoldable pub simulate_read : Client → Contract → Request → Io World ScVal
  unfolding to_scvals call_tx simulate returned
  simulate_read c contract r = do
    args ← lift (to_scvals r.args)
    account ← get_account c.rpc r.caller
    sim ← simulate c (call_tx c contract account r.method args)
    returned sim

  read_big_int : Client → Contract → Request → Io World ℤ
  unfolding simulate_read
  read_big_int c contract r = do
    v ← simulate_read c contract r
    lift (big_int parse_big_int (scval_to_native v))

  unfoldable pub get_stream : Client → ℤ → Io World Stream
  get_stream c stream_id = do
    v ← simulate_read c c.contract (Requests.get_stream stream_id)
    lift (native_to_stream parse_big_int (scval_to_record v))

  unfoldable pub claimable : Client → ℤ → Io World ℤ
  unfolding read_big_int
  claimable c stream_id = read_big_int c c.contract (Requests.claimable stream_id)

  unfoldable pub claimable_at : Client → ℤ → ℤ → Io World ℤ
  unfolding read_big_int
  claimable_at c stream_id timestamp =
      read_big_int c c.contract (Requests.claimable_at stream_id timestamp)

  unfoldable pub stream_count : Client → Io World ℤ
  unfolding read_big_int
  stream_count c = read_big_int c c.contract Requests.stream_count

  unfoldable pub admin_nonce : Client → Io World ℤ
  unfolding read_big_int
  admin_nonce c = read_big_int c c.contract Requests.admin_nonce

  -- Here the address is encoded after the account has come.
  unfoldable pub get_token_balance : Client → String → String → Io World ℤ
  unfolding to_scvals call_tx simulate returned
  get_token_balance c token_address user_address = do
    token ← lift (new_contract token_address)
    account ← get_account c.rpc read_account
    args ← lift (to_scvals (Requests.balance user_address).args)
    sim ← simulate c (call_tx c token account (Requests.balance user_address).method args)
    v ← returned sim
    lift (big_int parse_big_int (scval_to_native v))

  -- The loop that waits for confirmation, with the rounds that are left.
  unfoldable pub poll : Client → String → ℕ → Io World String
  poll c hash zero = throw (new_error ("Transaction not confirmed after timeout: " <> hash))
  poll c hash (suc n) = do
    modify (sleep 1500)
    status ← get_transaction c.rpc hash
    elim status [
      | success ↦ pure hash
      | failed ↦ throw (new_error ("Transaction failed: " <> hash))
      | not_found ↦ poll c hash n
    ]

  -- What follows the reply of `sendTransaction`
  unfoldable pub confirm : Client → SendResult → Io World String
  confirm c sent =
      if sent.status == "ERROR"
      then throw (new_error ("Submit failed: " <> sent.error_result))
      else poll c sent.hash 20

  unfoldable pub submit_transaction : Client → String → Io World String
  submit_transaction c signed_xdr = do
    tx ← lift (from_xdr signed_xdr c.network_passphrase)
    sent ← send_transaction c.rpc tx
    confirm c sent
