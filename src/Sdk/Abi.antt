-- ===== src/Sdk/Abi.antt =====
-- The public functions of the stream contract (contracts/stream/src/lib.rs) that the SDK calls,
-- with the types of their arguments after `env`, and its struct `StreamParams` (types.rs).
pub mod Conformance
use Prim.Native.String.{String}
use text.Mathlib.Text as Text
use paystream_contracts.Prelude.{
  Bool, true, false, List, [], ◌∷◌, Option, none, some, if◌then◌else◌, ◌&&◌, ◌==◌, map, length,
}
use paystream_contracts.Prelude.Dict.{lookup}
use paystream_contracts.Sdk.Types.{StreamParams}
use paystream_contracts.Sdk.Requests.{
  Arg, addr, u64, i128, batch, Field, address_field, i128_field, u64_field, batch_entries, Request,
}

pub data ArgType : Type 0 where
  address_type i128_type u64_type params_type : ArgType

-- The types of the arguments of each function
abbrev initialize_args : List ArgType
initialize_args = address_type ∷ []

abbrev propose_admin_args : List ArgType
propose_admin_args = address_type ∷ address_type ∷ []

abbrev accept_admin_args : List ArgType
accept_admin_args = address_type ∷ []

abbrev pause_contract_args : List ArgType
pause_contract_args = address_type ∷ u64_type ∷ []

abbrev unpause_contract_args : List ArgType
unpause_contract_args = address_type ∷ u64_type ∷ []

abbrev set_min_deposit_args : List ArgType
set_min_deposit_args = address_type ∷ u64_type ∷ i128_type ∷ []

abbrev create_stream_args : List ArgType
create_stream_args =
    address_type ∷ address_type ∷ address_type ∷ i128_type ∷ i128_type ∷ u64_type ∷ u64_type
    ∷ u64_type ∷ []

abbrev create_streams_batch_args : List ArgType
create_streams_batch_args = address_type ∷ params_type ∷ []

abbrev withdraw_args : List ArgType
withdraw_args = address_type ∷ u64_type ∷ []

abbrev top_up_args : List ArgType
top_up_args = address_type ∷ u64_type ∷ i128_type ∷ []

abbrev pause_stream_args : List ArgType
pause_stream_args = address_type ∷ u64_type ∷ []

abbrev resume_stream_args : List ArgType
resume_stream_args = address_type ∷ u64_type ∷ []

abbrev cancel_stream_args : List ArgType
cancel_stream_args = address_type ∷ u64_type ∷ []

abbrev update_rate_args : List ArgType
update_rate_args = address_type ∷ u64_type ∷ i128_type ∷ []

abbrev get_stream_args : List ArgType
get_stream_args = u64_type ∷ []

abbrev claimable_args : List ArgType
claimable_args = u64_type ∷ []

abbrev claimable_at_args : List ArgType
claimable_at_args = u64_type ∷ u64_type ∷ []

abbrev stream_count_args : List ArgType
stream_count_args = []

abbrev admin_nonce_args : List ArgType
admin_nonce_args = []

-- `none` where the contract has no such function
unfoldable pub signature : String → Option (List ArgType)
signature name =
    if Text.◌==◌ name "initialize"
    then some initialize_args
    else if Text.◌==◌ name "propose_admin"
    then some propose_admin_args
    else if Text.◌==◌ name "accept_admin"
    then some accept_admin_args
    else if Text.◌==◌ name "pause_contract"
    then some pause_contract_args
    else if Text.◌==◌ name "unpause_contract"
    then some unpause_contract_args
    else if Text.◌==◌ name "set_min_deposit"
    then some set_min_deposit_args
    else if Text.◌==◌ name "create_stream"
    then some create_stream_args
    else if Text.◌==◌ name "create_streams_batch"
    then some create_streams_batch_args
    else if Text.◌==◌ name "withdraw"
    then some withdraw_args
    else if Text.◌==◌ name "top_up"
    then some top_up_args
    else if Text.◌==◌ name "pause_stream"
    then some pause_stream_args
    else if Text.◌==◌ name "resume_stream"
    then some resume_stream_args
    else if Text.◌==◌ name "cancel_stream"
    then some cancel_stream_args
    else if Text.◌==◌ name "update_rate"
    then some update_rate_args
    else if Text.◌==◌ name "get_stream"
    then some get_stream_args
    else if Text.◌==◌ name "claimable"
    then some claimable_args
    else if Text.◌==◌ name "claimable_at"
    then some claimable_at_args
    else if Text.◌==◌ name "stream_count"
    then some stream_count_args
    else if Text.◌==◌ name "admin_nonce"
    then some admin_nonce_args
    else none

-- The fields of `StreamParams`
unfoldable pub stream_params : List (String × ArgType)
stream_params =
    ("employee", address_type)
    ∷ ("token", address_type)
    ∷ ("deposit", i128_type)
    ∷ ("rate_per_second", i128_type)
    ∷ ("stop_time", u64_type)
    ∷ ("cliff_time", u64_type)
    ∷ []

abbrev field_fits : ArgType → Field → Bool
field_fits address_type (address_field _) = true
field_fits i128_type (i128_field _) = true
field_fits u64_type (u64_field _) = true
field_fits _ _ = false

-- The map has the key, with a value of the type.
abbrev has_field : List (String × Field) → String × ArgType → Bool
has_field entries expected = elim (lookup expected.0 entries) [
  | none ↦ false
  | some value ↦ field_fits expected.1 value
]

abbrev has_fields : List (String × Field) → List (String × ArgType) → Bool
has_fields entries [] = true
has_fields entries (expected ∷ rest) = has_field entries expected && has_fields entries rest

-- `keys_ok` says whether the host takes a map with its keys in this order.
module _ (keys_ok : List String → Bool) where
  -- The map is of the struct: as many entries as fields, and each field.
  unfoldable pub is_stream_params : List (String × Field) → Bool
  is_stream_params entries =
      keys_ok (map (λ entry. entry.0) entries)
      && length entries == length stream_params
      && has_fields entries stream_params

  unfoldable pub are_stream_params : List StreamParams → Bool
  are_stream_params [] = true
  are_stream_params (q ∷ qs) =
      let rest = are_stream_params qs in if is_stream_params (batch_entries q) then rest else false

  -- Whether an argument is of the type of a parameter.
  fits : ArgType → Arg → Bool
  unfolding are_stream_params
  fits address_type (addr _) = true
  fits i128_type (i128 _) = true
  fits u64_type (u64 _) = true
  fits params_type (batch qs) = are_stream_params qs
  fits _ _ = false

  all_fit : List ArgType → List Arg → Bool
  unfolding fits
  all_fit [] [] = true
  all_fit (t ∷ ts) (a ∷ args) = if fits t a then all_fit ts args else false
  all_fit _ _ = false

  -- Whether the contract has the function, with as many parameters as the call has arguments, and
  -- each of the argument's type.
  unfoldable pub accepts : Request → Bool
  unfolding all_fit signature
  accepts r = elim (signature r.method) [ none ↦ false | some ts ↦ all_fit ts r.args ]
