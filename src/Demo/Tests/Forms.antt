-- ===== src/Demo/Tests/Forms.antt =====
-- Templates, exports and the form at concrete inputs.
use Prim.Native.String.{String}
use paystream_contracts.Prelude.{ℕ, ◌≡◌, ◌≢◌, refl, arith, [], ◌∷◌, Option, none, some, true, false}
use paystream_contracts.Prelude.Int.{pos, ◌*ℤ◌}
use paystream_contracts.Js.{ok, Io}
use paystream_contracts.Demo.Csv.{Text, Dates, TxRecord, build_csv, needs_quotes}
use paystream_contracts.Demo.Csv
use paystream_contracts.Demo.Csv.Pages.{Page, Serves, export_all_history, export_all_history_lem}
use paystream_contracts.Demo.Validation.{
  Texts, validate_stream_form, validate_employee_address, calculate_fee_estimate,
  calculate_stream_duration,
}
use paystream_contracts.Demo.Validation
use paystream_contracts.Demo.Validation.Laws.{no_errors, estimate_of_valid}
use paystream_contracts.Samples.{float}

-- A payment whose type holds a comma and a quote, at a time that reads as a day.
abbrev day : Text
day = b'd' ∷ b'a' ∷ b'y' ∷ []

abbrev dates : Dates
dates = record { time = λ t. some (pos 5); to_iso_string = λ t. ok t }

abbrev payment : TxRecord
payment = record { timestamp = day; type = b',' ∷ b'"' ∷ []; amount = some (b'9' ∷ []) }

abbrev exported : Text
exported =
    Csv.document
      ((day ∷ (b'1' ∷ []) ∷ (b'G' ∷ []) ∷ (b'C' ∷ []) ∷ (b',' ∷ b'"' ∷ []) ∷ (b'9' ∷ []) ∷ []) ∷ [])

-- Two pages: the first one names a cursor, the second one none.
abbrev fetch_page : Option String → Io ℕ Page
fetch_page none w = (ok (record { records = payment ∷ []; next_cursor = some "c" }), w)
fetch_page (some _) w = (ok (record { records = payment ∷ []; next_cursor = some "" }), w)

two_pages : Serves fetch_page none 0 ((payment ∷ []) ∷ (payment ∷ []) ∷ []) 0
two_pages =
    Serves.more (record { records = payment ∷ []; next_cursor = some "c" }) "c" refl refl
      (Serves.last (record { records = payment ∷ []; next_cursor = some "" }) refl refl)

export_all_history_lem_example :
    export_all_history fetch_page dates 2 (b'1' ∷ []) (b'G' ∷ []) (b'C' ∷ []) none 0
    ≡ (build_csv dates (payment ∷ payment ∷ []) (b'1' ∷ []) (b'G' ∷ []) (b'C' ∷ []) none, 0)
export_all_history_lem_example =
    export_all_history_lem fetch_page dates 2 (b'1' ∷ []) (b'G' ∷ []) (b'C' ∷ []) none two_pages
      (omega arith)

abbrev texts : Texts
texts = record {
  trim = λ s. s;
  is_valid_ed25519_public_key = λ s. ok true;
  is_valid_contract = λ s. ok false;
}

valid : validate_stream_form texts float (pos 1) "GB" "C" "5" "5" "" ≡ no_errors
unfolding validate_stream_form Validation.validate_employee_address
    Validation.validate_token_address Validation.validate_deposit Validation.validate_rate
    Validation.validate_deposit_vs_rate Validation.validate_stop_time Validation.is_blank
    Validation.is_valid_stellar_address ◌*ℤ◌
valid = refl

estimate_of_valid_example :
    (calculate_fee_estimate texts float "5" "5" ≢ none)
    × (calculate_stream_duration texts float "5" "5" ≢ none)
estimate_of_valid_example = estimate_of_valid texts float (pos 1) "GB" "C" "5" "5" "" valid

-- The address of a contract is taken for an employee.
contract_as_employee :
    validate_employee_address
      (record texts {
        is_valid_ed25519_public_key = λ s. ok false;
        is_valid_contract = λ s. ok true;
      })
      "CB"
    ≡ none
unfolding validate_employee_address Validation.is_blank Validation.is_valid_stellar_address
contract_as_employee = refl
