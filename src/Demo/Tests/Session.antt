-- ===== src/Demo/Tests/Session.antt =====
-- The session, the balance, the history and `usePayStream` at concrete inputs.
use Prim.Native.String.{String}
use paystream_contracts.Prelude.{ℕ, ◌≡◌, refl, [], ◌∷◌, Option, none, some, true, false}
use paystream_contracts.Prelude.Int.{ℤ, pos}
use paystream_contracts.Js.{ok, Io, str}
use paystream_contracts.Sdk.Client
use paystream_contracts.Sdk.Requests
use paystream_contracts.Sdk.Convert
use paystream_contracts.Prelude.Dict.{lookup}
use paystream_contracts.Demo.Auth.{
  Storage, Service, Auth, persist_session, read_persisted_session, set_session, exchange, login,
  hours_of, take_nonce, take_token, falsy,
}
use paystream_contracts.Demo.Auth.Laws.{signed_in, IsStorable, read-persist_session}
use paystream_contracts.Demo.Auth.Login.{IsLogin, login-IsLogin, IsIssued, exchange-IsIssued}
use paystream_contracts.Sdk.Freighter.{freighter_sign_transaction}
use paystream_contracts.Demo.Balance.{Balance, run, changed, replied}
use paystream_contracts.Demo.Balance.Laws.{run-without_earlier}
use paystream_contracts.Demo.History.{History, Op, Reply}
use paystream_contracts.Demo.PayStream.{PayStream, upsert, create_stream, withdraw}
use paystream_contracts.Demo.PayStream
use paystream_contracts.Demo.PayStream.Laws.{IsSubmitted, create_tx, create_stream-IsSubmitted}
use paystream_contracts.Samples.{platform, client, wallet, float, to_text}

abbrev empty_storage : Storage
empty_storage = record { local_storage = []; session_storage = [] }

five-IsStorable : IsStorable float (pos 5)
unfolding falsy
five-IsStorable = record { truthy = refl; shown = refl; read_back = refl }

read-persist_session_example :
    read_persisted_session float (pos 3) (persist_session float "jwt" (pos 5) true empty_storage)
    ≡ signed_in float "jwt" (pos 5) true
read-persist_session_example =
    read-persist_session float (pos 3) "jwt" (pos 5) true empty_storage refl five-IsStorable

abbrev service : Service ℕ
service = record {
  challenge = λ address w. (ok (record { accepted = true; nonce = ok "nonce" }), w);
  verify = λ address signature w.
      (ok (record { accepted = true; error = ok none; issued = ok ("jwt", "24h") }), w);
}

abbrev clock : ℕ → ℤ
clock w = pos w

abbrev auth : Auth float ℕ
auth = record {
  public_key = some "GA";
  token = none;
  token_expiry = none;
  remember_me = false;
  loading = false;
  error = none;
  storage = empty_storage;
  world = 0;
}

-- A session that is remembered
abbrev signed : Auth float ℕ
signed = set_session float "jwt" (pos 5) true auth

login-IsLogin_example :
    IsLogin float wallet service clock "test" "GA" true auth
      (login float wallet service clock "test" (some true) auth)
login-IsLogin_example = login-IsLogin float wallet service clock "test" (some true) auth "GA" refl

abbrev expiry : ℤ
expiry = float.add (pos 0) (float.mul (pos 5) (pos 3600000))

exchanged : (exchange float wallet service clock "test" "GA" 0).0 ≡ ok ("jwt", expiry)
unfolding exchange take_nonce take_token hours_of falsy freighter_sign_transaction
exchanged = refl

exchange-IsIssued_example : IsIssued float wallet service clock "test" "GA" 0 "jwt" expiry
exchange-IsIssued_example =
    exchange-IsIssued float wallet service clock "test" "GA" "jwt" expiry 0 exchanged

abbrev balance : Balance
balance = record { balance = none; loading = true; error = none; live = some 1; next = 2 }

-- The replies to runs 0 and 1, which were made before the token changed, and to run 2
run-without_earlier_example :
    run
      (changed (some "GA") (some "CB")
        ∷ replied 0 (ok (pos 7))
        ∷ replied 2 (ok (pos 9))
        ∷ replied 1 (ok (pos 8))
        ∷ [])
      balance
    ≡ run (changed (some "GA") (some "CB") ∷ replied 2 (ok (pos 9)) ∷ []) balance
run-without_earlier_example =
    run-without_earlier (changed (some "GA") (some "CB"))
      (replied 0 (ok (pos 7)) ∷ replied 2 (ok (pos 9)) ∷ replied 1 (ok (pos 8)) ∷ []) balance refl

abbrev op : Op
op = record {
  id = "1";
  created_at = none;
  type = "payment";
  amount = str "5";
  paging_token = some "p";
}

abbrev fetch : Option String → Io ℕ Reply
fetch cursor w = (ok (record { accepted = true; status = "200"; ops = ok (op ∷ []) }), w)

abbrev history : History ℕ
history = record {
  records = [];
  loading = false;
  error = none;
  cursor = some "c";
  has_more = true;
  world = 0;
}

abbrev spaced : String → String
spaced s = s

abbrev pay : PayStream ℕ
pay = record {
  public_key = some "GA";
  streams = [];
  claimable_amounts = [];
  error = none;
  loading = false;
  polled = [];
  world = 0;
}

created :
    (create_stream platform client wallet to_text "test" "GB" "C" (pos 100) (pos 2) (pos 0) pay).0
    ≡ ok (some "hash")
unfolding PayStream.create_stream PayStream.with_key PayStream.perform PayStream.sign_and_submit
    PayStream.load_newest PayStream.load_stream Client.build_tx Client.to_scvals Client.call_tx
    Client.simulate Client.submit_transaction Client.confirm Client.poll Client.stream_count
    Client.simulate_read Client.get_stream Requests.create_stream Requests.stream_count
    Requests.get_stream Convert.big_int Convert.native_to_stream freighter_sign_transaction lookup
created = refl

create_stream-IsSubmitted_example :
    IsSubmitted platform client wallet to_text "test"
      (create_tx platform client wallet to_text "test" "GB" "C" (pos 100) (pos 2) (pos 0) "GA")
      0
      "hash"
create_stream-IsSubmitted_example =
    create_stream-IsSubmitted platform client wallet to_text "test" "GB" "C" (pos 100) (pos 2)
      (pos 0) pay "GA" "hash" refl created

withdrawn : (withdraw platform client wallet to_text "test" (pos 0) pay).0 ≡ ok (some "hash")
unfolding PayStream.withdraw PayStream.with_key PayStream.perform PayStream.sign_and_submit
    PayStream.load_newest PayStream.load_stream Client.build_tx Client.to_scvals Client.call_tx
    Client.simulate Client.submit_transaction Client.confirm Client.poll Client.stream_count
    Client.simulate_read Client.get_stream Requests.withdraw Requests.stream_count
    Requests.get_stream Convert.big_int Convert.native_to_stream freighter_sign_transaction lookup
withdrawn = refl
