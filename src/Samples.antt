-- ===== src/Samples.antt =====
-- Sample values for the tests: the code outside of the repository, each part by a small concrete
-- function, and the data that the examples start from.
use Prim.Native.String.{String}
use paystream_contracts.Prelude.{ℕ, suc, List, [], ◌∷◌, none, some, true, false, if◌then◌else◌, ltb}
use paystream_contracts.Prelude.Int.{ℤ, pos, ltb_ℤ, leb_ℤ, ◌+ℤ◌, ◌-ℤ◌, ◌*ℤ◌}
use paystream_contracts.Js.{Native, str, int, bool, obj, ok}
use paystream_contracts.Js.Float.{Float}
use paystream_contracts.Sdk.Platform.{Platform, success, not_found}
use paystream_contracts.Sdk.Client.{Client}
use paystream_contracts.Sdk.Freighter.{Wallet}
use paystream_contracts.Sdk.Types.{Stream}

-- An object that `scValToNative` gives for the map of a stream.
abbrev pub stream_fields : List (String × Native)
stream_fields =
    ("id", int (pos 0))
    ∷ ("employer", str "GA")
    ∷ ("employee", str "GB")
    ∷ ("token", str "C")
    ∷ ("deposit", int (pos 100))
    ∷ ("withdrawn", int (pos 0))
    ∷ ("rate_per_second", int (pos 2))
    ∷ ("start_time", int (pos 1))
    ∷ ("stop_time", int (pos 0))
    ∷ ("last_withdraw_time", int (pos 1))
    ∷ ("cooldown_period", int (pos 0))
    ∷ ("status", str "Active")
    ∷ ("locked", bool false)
    ∷ ("cliff_time", int (pos 0))
    ∷ ("paused_at", int (pos 0))
    ∷ []

-- A network whose world is a number of rounds: a transaction is confirmed from the third on. It
-- has three streams, which are all alike.
abbrev pub platform : Platform
platform = record {
  World = ℕ;
  Contract = String;
  Account = String;
  Operation = String;
  Transaction = String;
  Simulation = ℤ;
  ScVal = Native;
  parse_big_int = λ s. none;
  new_contract = λ s. ok s;
  call = λ c method args. method;
  address = λ a. ok (str a);
  native_to_scval = λ n type. ok (int n);
  scv_vec = λ vs. obj "vec";
  scv_map = λ vs. obj "map";
  scval_to_native = λ v. v;
  scval_to_record = λ v. stream_fields;
  base_fee = "100";
  build = λ account fee passphrase operation timeout. operation;
  simulation_error = λ sim. none;
  retval = λ sim. some (int sim);
  assemble_transaction = λ tx sim. tx;
  to_xdr = λ tx. tx;
  from_xdr = λ text passphrase. ok text;
  get_account = λ url id w. (ok id, w);
  simulate_transaction = λ url tx w. (ok (pos 3), w);
  send_transaction =
      λ url tx w. (ok (record { status = "PENDING"; hash = "hash"; error_result = "" }), w);
  get_transaction = λ url hash w. (ok (if ltb w 3 then not_found else success), w);
  sleep = λ n w. suc w;
}

abbrev pub client : Client platform
client = record {
  rpc = "https://rpc";
  contract = "C";
  network_passphrase = "test";
  contract_id = "C";
}

abbrev pub wallet : Wallet ℕ
wallet = record {
  installed = λ w. true;
  is_connected = λ w. (ok true, w);
  request_access = λ w. (ok none, w);
  get_public_key = λ w. (ok ("GA", none), w);
  sign_transaction = λ xdr passphrase w. (ok (xdr, none), w);
}

abbrev pub no_wallet : Wallet ℕ
no_wallet = record wallet { installed = λ w. false }

-- Whole numbers in place of doubles.
abbrev pub float : Float
float = record {
  F = ℤ;
  of_int = λ n. n;
  add = λ a b. a +ℤ b;
  sub = λ a b. a -ℤ b;
  mul = λ a b. a *ℤ b;
  div = λ a b. a;
  lt = λ a b. ltb_ℤ a b;
  le = λ a b. leb_ℤ a b;
  is_nan = λ a. false;
  number = λ s. pos 5;
  parse_float = λ s. pos 5;
  parse_int = λ s. pos 5;
  round = λ a. a;
  floor = λ a. a;
  to_int = λ a. a;
  to_fixed = λ a digits. "5";
  show = λ a. "5";
}

abbrev pub stream : Stream
stream = record {
  id = pos 0;
  employer = str "GA";
  employee = str "GB";
  token = str "C";
  deposit = pos 100;
  withdrawn = pos 0;
  rate_per_second = pos 2;
  start_time = pos 1;
  stop_time = pos 0;
  last_withdraw_time = pos 1;
  cooldown_period = pos 0;
  status = str "Active";
  locked = bool false;
  cliff_time = pos 0;
  paused_at = pos 0;
}

-- `bigint.toString()`
abbrev pub to_text : ℤ → String
to_text n = "0"
