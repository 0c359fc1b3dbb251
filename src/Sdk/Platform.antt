-- ===== src/Sdk/Platform.antt =====
-- The code that the SDK calls and the repository does not hold: the Stellar SDK
-- (`@stellar/stellar-sdk`), the RPC server behind it, and the runtime's reading of a text as a
-- number. `World` is the state of all that lies outside the program.
use Prim.Native.String.{String}
use paystream_contracts.Prelude.{ℕ, List, Option}
use paystream_contracts.Prelude.Int.{ℤ}
use paystream_contracts.Js.{Result, Io, Native}

-- The integer types that `nativeToScVal` is called with.
pub data IntType : Type 0 where
  u64 i128 : IntType

-- The reply of `sendTransaction`; `error_result` is the JSON text of the field.
pub record SendResult : Type 0 where
  pub status : String
  pub hash : String
  pub error_result : String

-- The field `status` of the reply of `getTransaction`.
pub data TransactionStatus : Type 0 where
  success failed not_found : TransactionStatus

pub record Platform : Type 1 where
  pub World : Type 0
  pub Contract : Type 0
  pub Account : Type 0
  pub Operation : Type 0
  pub Transaction : Type 0
  pub Simulation : Type 0
  pub ScVal : Type 0
  -- `BigInt` of a text, `none` where it throws
  pub parse_big_int : String → Option ℤ
  -- `new Contract(id)` and `contract.call(method, ...args)`
  pub new_contract : String → Result Contract
  pub call : Contract → String → List ScVal → Operation
  -- `new Address(a).toScVal()`, `nativeToScVal(v, { type })`, `scvVec` and `scvMap`
  pub address : String → Result ScVal
  pub native_to_scval : ℤ → IntType → Result ScVal
  pub scv_vec : List ScVal → ScVal
  pub scv_map : List (String × ScVal) → ScVal
  -- `scValToNative`, at a value and at a map
  pub scval_to_native : ScVal → Native
  pub scval_to_record : ScVal → List (String × Native)
  -- `BASE_FEE`, and a `TransactionBuilder` with its fee, passphrase, operation and timeout
  pub base_fee : String
  pub build : Account → String → String → Operation → ℕ → Transaction
  -- `isSimulationError` with the field `error`, and the field `result.retval` of a success
  pub simulation_error : Simulation → Option String
  pub retval : Simulation → Option ScVal
  pub assemble_transaction : Transaction → Simulation → Transaction
  pub to_xdr : Transaction → String
  pub from_xdr : String → String → Result Transaction
  -- the server at a URL
  pub get_account : String → String → Io World Account
  pub simulate_transaction : String → Transaction → Io World Simulation
  pub send_transaction : String → Transaction → Io World SendResult
  pub get_transaction : String → String → Io World TransactionStatus
  -- `setTimeout` as a delay in milliseconds
  pub sleep : ℕ → World → World
