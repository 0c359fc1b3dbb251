-- ===== src/Sdk/Requests.antt =====
-- The contract call of each method of `PayStreamClient` (sdk/src/client.ts): who calls, the
-- contract function, and what is handed to the encoder for each argument.
use Prim.Native.String.{String}
use paystream_contracts.Prelude.{List, [], ◌∷◌, Option, none, some}
use paystream_contracts.Prelude.Int.{ℤ, pos}
use paystream_contracts.Sdk.Types.{StreamParams}

-- `new Address(a).toScVal()`, `nativeToScVal(n, { type })`, and the vector of maps that
-- `createStreamsBatch` builds.
pub data Arg : Type 0 where
  addr : String → Arg
  u64 i128 : ℤ → Arg
  batch : List StreamParams → Arg

pub record Request : Type 0 where
  pub caller : String
  pub method : String
  pub args : List Arg

-- A value of one of those maps
pub data Field : Type 0 where
  address_field : String → Field
  i128_field u64_field : ℤ → Field

-- The map of one stream of a batch: its keys with their values, in the order of the source
unfoldable pub batch_entries : StreamParams → List (String × Field)
batch_entries q =
    ("employee", address_field q.employee)
    ∷ ("token", address_field q.token)
    ∷ ("deposit", i128_field q.deposit)
    ∷ ("rate_per_second", i128_field q.rate_per_second)
    ∷ ("stop_time", u64_field q.stop_time)
    ∷ ("cliff_time", u64_field q.cliff_time)
    ∷ []

-- The account of the simulations that only read.
abbrev pub read_account : String
read_account = "GAAZI4TCR3TY5OJHCTJC2A4QSY6CJWJH5IAJTGKIN2ER7LBNVKOCCWN"

abbrev read : String → List Arg → Request
read method args = record { caller = read_account; method = method; args = args }

abbrev sent : String → String → List Arg → Request
sent caller method args = record { caller = caller; method = method; args = args }

unfoldable pub get_stream : ℤ → Request
get_stream stream_id = read "get_stream" (u64 stream_id ∷ [])

unfoldable pub claimable : ℤ → Request
claimable stream_id = read "claimable" (u64 stream_id ∷ [])

unfoldable pub claimable_at : ℤ → ℤ → Request
claimable_at stream_id timestamp = read "claimable_at" (u64 stream_id ∷ u64 timestamp ∷ [])

unfoldable pub stream_count : Request
stream_count = read "stream_count" []

unfoldable pub admin_nonce : Request
admin_nonce = read "admin_nonce" []

-- `getTokenBalance`, which calls another contract, the token's
unfoldable pub balance : String → Request
balance user_address = read "balance" (addr user_address ∷ [])

unfoldable pub initialize : String → Request
initialize admin = sent admin "initialize" (addr admin ∷ [])

unfoldable pub create_stream :
    (employer employee token_address : String)
    (deposit rate_per_second stop_time cooldown_period cliff_time : ℤ)
    → Request
create_stream employer employee token_address deposit rate stop cooldown cliff =
    sent employer "create_stream" (
      addr employer
      ∷ addr employee
      ∷ addr token_address
      ∷ i128 deposit
      ∷ i128 rate
      ∷ u64 stop
      ∷ u64 cooldown
      ∷ u64 cliff
      ∷ [])

unfoldable pub create_streams_batch : String → List StreamParams → Request
create_streams_batch employer params =
    sent employer "create_streams_batch" (addr employer ∷ batch params ∷ [])

-- `amount ?? 0n`
abbrev amount_or_zero : Option ℤ → ℤ
amount_or_zero none = pos 0
amount_or_zero (some a) = a

unfoldable pub withdraw : String → ℤ → Option ℤ → Request
withdraw employee stream_id amount =
    sent employee "withdraw" (addr employee ∷ u64 stream_id ∷ i128 (amount_or_zero amount) ∷ [])

unfoldable pub update_rate : String → ℤ → ℤ → Request
update_rate employer stream_id new_rate =
    sent employer "update_rate" (addr employer ∷ u64 stream_id ∷ i128 new_rate ∷ [])

unfoldable pub propose_admin : String → String → Request
propose_admin current_admin new_admin =
    sent current_admin "propose_admin" (addr current_admin ∷ addr new_admin ∷ [])

unfoldable pub accept_admin : String → Request
accept_admin new_admin = sent new_admin "accept_admin" (addr new_admin ∷ [])

unfoldable pub pause_contract : String → ℤ → Request
pause_contract admin nonce = sent admin "pause_contract" (addr admin ∷ u64 nonce ∷ [])

unfoldable pub unpause_contract : String → ℤ → Request
unpause_contract admin nonce = sent admin "unpause_contract" (addr admin ∷ u64 nonce ∷ [])

unfoldable pub set_min_deposit : String → ℤ → ℤ → Request
set_min_deposit admin nonce amount =
    sent admin "set_min_deposit" (addr admin ∷ u64 nonce ∷ i128 amount ∷ [])

unfoldable pub top_up : String → ℤ → ℤ → Request
top_up employer stream_id amount =
    sent employer "top_up" (addr employer ∷ u64 stream_id ∷ i128 amount ∷ [])

unfoldable pub pause_stream : String → ℤ → Request
pause_stream employer stream_id = sent employer "pause_stream" (addr employer ∷ u64 stream_id ∷ [])

unfoldable pub resume_stream : String → ℤ → Request
resume_stream employer stream_id =
    sent employer "resume_stream" (addr employer ∷ u64 stream_id ∷ [])

unfoldable pub cancel_stream : String → ℤ → Request
cancel_stream employer stream_id =
    sent employer "cancel_stream" (addr employer ∷ u64 stream_id ∷ [])
