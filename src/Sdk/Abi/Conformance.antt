-- ===== src/Sdk/Abi/Conformance.antt =====
-- Proofs that the calls of `PayStreamClient` (sdk/src/client.ts) fit the contract's functions.
use Prim.Native.String.{String}
use paystream_contracts.Prelude.{◌≡◌, refl, Bool, true, false, List, [], ◌∷◌, Option}
use paystream_contracts.Prelude.Int.{ℤ}
use paystream_contracts.Sdk.Types.{StreamParams}
use paystream_contracts.Sdk.Requests
use paystream_contracts.Sdk.Requests.{Arg, addr, Request, read_account}

-- The methods of the client that call the stream contract, with their arguments. The first group
-- only reads.
pub data Operation : Type 0 where
  get_stream claimable : ℤ → Operation
  claimable_at : ℤ → ℤ → Operation
  stream_count admin_nonce : Operation
  initialize accept_admin : String → Operation
  create_stream :
      (employer employee token_address : String)
      (deposit rate_per_second stop_time cooldown_period cliff_time : ℤ)
      → Operation
  create_streams_batch : String → List StreamParams → Operation
  withdraw : String → ℤ → Option ℤ → Operation
  update_rate top_up set_min_deposit : String → ℤ → ℤ → Operation
  propose_admin : String → String → Operation
  pause_contract unpause_contract : String → ℤ → Operation
  pause_stream resume_stream cancel_stream : String → ℤ → Operation

unfoldable pub request : Operation → Request
request (get_stream i) = Requests.get_stream i
request (claimable i) = Requests.claimable i
request (claimable_at i t) = Requests.claimable_at i t
request stream_count = Requests.stream_count
request admin_nonce = Requests.admin_nonce
request (initialize a) = Requests.initialize a
request (accept_admin a) = Requests.accept_admin a
request (create_stream a b t d r s c l) = Requests.create_stream a b t d r s c l
request (create_streams_batch a qs) = Requests.create_streams_batch a qs
request (withdraw a i n) = Requests.withdraw a i n
request (update_rate a i n) = Requests.update_rate a i n
request (top_up a i n) = Requests.top_up a i n
request (set_min_deposit a i n) = Requests.set_min_deposit a i n
request (propose_admin a b) = Requests.propose_admin a b
request (pause_contract a n) = Requests.pause_contract a n
request (unpause_contract a n) = Requests.unpause_contract a n
request (pause_stream a i) = Requests.pause_stream a i
request (resume_stream a i) = Requests.resume_stream a i
request (cancel_stream a i) = Requests.cancel_stream a i

abbrev pub only_reads : Operation → Bool
only_reads (get_stream _) = true
only_reads (claimable _) = true
only_reads (claimable_at _ _) = true
only_reads stream_count = true
only_reads admin_nonce = true
only_reads _ = false

-- The keys of a stream in a batch, as the client writes them
abbrev pub batch_keys : List String
batch_keys = "employee" ∷ "token" ∷ "deposit" ∷ "rate_per_second" ∷ "stop_time" ∷ "cliff_time" ∷ []

-- `withdraw` sends three arguments to a function of two, and a batch that is not empty depends on
-- whether the host takes the keys in the order in which they are sent.
abbrev pub is_taken : (List String → Bool) → Operation → Bool
is_taken keys_ok (withdraw _ _ _) = false
is_taken keys_ok (create_streams_batch _ (q ∷ qs)) = keys_ok batch_keys
is_taken keys_ok _ = true

-- Whose signature a call needs: no one's for the methods that only read, and else that of the
-- address that is its first argument.
abbrev pub IsSignedBy : Bool → Request → Type 0
IsSignedBy true r = r.caller ≡ read_account
IsSignedBy false r = (rest : List Arg) × (r.args ≡ addr r.caller ∷ rest)

-- A method that only reads simulates from the fixed account. The transaction of any other method
-- has as its source the address that is the first argument of the call, which the contract asks
-- to authorise.
pub request-IsSignedBy : (op : Operation) → IsSignedBy (only_reads op) (request op)
unfolding request Requests.get_stream Requests.claimable Requests.claimable_at Requests.stream_count
    Requests.admin_nonce Requests.initialize Requests.accept_admin Requests.create_stream
    Requests.create_streams_batch Requests.withdraw Requests.update_rate Requests.top_up
    Requests.set_min_deposit Requests.propose_admin Requests.pause_contract
    Requests.unpause_contract Requests.pause_stream Requests.resume_stream Requests.cancel_stream
request-IsSignedBy (get_stream i) = refl
request-IsSignedBy (claimable i) = refl
request-IsSignedBy (claimable_at i t) = refl
request-IsSignedBy stream_count = refl
request-IsSignedBy admin_nonce = refl
request-IsSignedBy (initialize a) = (_, refl)
request-IsSignedBy _ = (_, refl)
