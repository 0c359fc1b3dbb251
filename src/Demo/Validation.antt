-- ===== src/Demo/Validation.antt =====
-- The validation of the form that creates a stream, and its estimates
-- (demo/src/streamFormValidation.ts). Numbers are doubles, by their operations.
pub mod Laws
use Prim.Native.String.{String}
use text.Mathlib.Text.{◌==◌}
use paystream_contracts.Prelude.{
  Bool, true, false, not, ◌&&◌, ◌||◌, Option, none, some, if◌then◌else◌,
}
use paystream_contracts.Prelude.Int.{ℤ, pos}
use paystream_contracts.Js.{Result, ok, err, ◌<>◌}
use paystream_contracts.Js.Float.{Float}

pub record StreamFormErrors : Type 0 where
  pub employee : Option String
  pub token : Option String
  pub deposit : Option String
  pub rate : Option String
  pub stop_time : Option String
  pub deposit_vs_rate : Option String

-- Texts and addresses: `trim`, and `StrKey` of the Stellar SDK, which may throw.
pub record Texts : Type 0 where
  pub trim : String → String
  pub is_valid_ed25519_public_key : String → Result Bool
  pub is_valid_contract : String → Result Bool

abbrev pub base_fee_stroops : ℤ
base_fee_stroops = pos 100000

abbrev pub stroops_per_xlm : ℤ
stroops_per_xlm = pos 10000000

abbrev pub limit : ℤ
limit = pos 1000000000

-- `try { return r } catch { return false }`
abbrev or_false : Result Bool → Bool
or_false (ok b) = b
or_false (err _) = false

-- `a || b`, where a throw of either leaves the `try`
abbrev either_holds : Result Bool → Result Bool → Result Bool
either_holds (ok a) b = if a then ok true else b
either_holds (err e) b = err e

module _ (t : Texts) where
  open t use {trim, is_valid_ed25519_public_key, is_valid_contract}

  unfoldable pub is_valid_stellar_address : String → Bool
  is_valid_stellar_address address =
      if address == ""
      then false
      else or_false (either_holds (is_valid_ed25519_public_key address) (is_valid_contract address))

  -- `!s || !s.trim()`
  unfoldable pub is_blank : String → Bool
  is_blank s = s == "" || trim s == ""

  unfoldable pub validate_employee_address : String → Option String
  validate_employee_address address =
      if is_blank address
      then some "Employee address is required"
      else if is_valid_stellar_address address
      then none
      else some "Invalid Stellar address format (must start with G for public key)"

  unfoldable pub validate_token_address : String → Option String
  validate_token_address address =
      if is_blank address
      then some "Token contract ID is required"
      else if is_valid_stellar_address address
      then none
      else some "Invalid contract address format (must start with C for contract)"

  module _ (f : Float) where
    open f use {
      F, of_int, add, mul, div, lt, le, is_nan, parse_float, parse_int, round, floor, to_fixed,
      show,
    }

    unfoldable pub validate_deposit : String → Option String
    validate_deposit deposit =
        let dep = parse_float deposit in
        if is_blank deposit
        then some "Deposit is required"
        else if is_nan dep
        then some "Deposit must be a valid number"
        else if le dep (of_int (pos 0))
        then some "Deposit must be greater than 0"
        else if lt (of_int limit) dep
        then some "Deposit amount is too large"
        else none

    unfoldable pub validate_rate : String → Option String
    validate_rate rate =
        let r = parse_float rate in
        if is_blank rate
        then some "Rate is required"
        else if is_nan r
        then some "Rate must be a valid number"
        else if le r (of_int (pos 0))
        then some "Rate must be greater than 0"
        else if lt (of_int limit) r
        then some "Rate is too large"
        else none

    unfoldable pub validate_deposit_vs_rate : (deposit rate : String) → Option String
    validate_deposit_vs_rate deposit rate =
        let dep = parse_float deposit in
        let r = parse_float rate in
        if is_nan dep || is_nan r || le dep (of_int (pos 0)) || le r (of_int (pos 0))
        then none
        else if lt (mul dep (of_int stroops_per_xlm)) r
        then some (
            "Deposit must be at least "
            <> to_fixed (div r (of_int stroops_per_xlm)) (of_int (pos 6))
            <> " XLM to stream for 1 second at this rate")
        else none

    -- `Math.floor(Date.now() / 1000)`
    unfoldable pub now_sec : F → F
    now_sec now = floor (div now (of_int (pos 1000)))

    unfoldable pub validate_stop_time : F → String → Option String
    validate_stop_time now stop_time =
        let st = parse_int stop_time in
        if stop_time == "" || stop_time == "0"
        then none
        else if is_nan st
        then some "Stop time must be a valid number"
        else if le st (now_sec now)
        then some "Stop time must be in the future"
        else none

    -- `!depositError && !rateError`
    abbrev pub check_both :
        (deposit_error rate_error : Option String) → Option String → Option String
    check_both none none e = e
    check_both none (some _) e = none
    check_both (some _) _ e = none

    -- No message is empty, so `if (e)` is whether there is one.
    unfoldable pub validate_stream_form :
        F → (employee token deposit rate stop_time : String) → StreamFormErrors
    validate_stream_form now employee token deposit rate stop_time =
        let deposit_error = validate_deposit deposit in
        let rate_error = validate_rate rate in
        record {
          employee = validate_employee_address employee;
          token = validate_token_address token;
          deposit = deposit_error;
          rate = rate_error;
          stop_time = validate_stop_time now stop_time;
          deposit_vs_rate =
              check_both deposit_error rate_error (validate_deposit_vs_rate deposit rate);
        }

    -- `!x`
    unfoldable pub falsy : F → Bool
    falsy x = is_nan x || (le x (of_int (pos 0)) && le (of_int (pos 0)) x)

    -- `!dep || !r || dep <= 0 || r <= 0`
    unfoldable pub no_estimate : F → F → Bool
    no_estimate dep r = falsy dep || falsy r || le dep (of_int (pos 0)) || le r (of_int (pos 0))

    unfoldable pub duration_text : F → String
    duration_text seconds =
        if lt seconds (of_int (pos 60))
        then "~" <> show (round seconds) <> "s"
        else if lt seconds (of_int (pos 3600))
        then "~" <> show (round (div seconds (of_int (pos 60)))) <> "m"
        else if lt seconds (of_int (pos 86400))
        then "~" <> to_fixed (div seconds (of_int (pos 3600))) (of_int (pos 1)) <> "h"
        else "~" <> to_fixed (div seconds (of_int (pos 86400))) (of_int (pos 1)) <> " days"

    unfoldable pub calculate_stream_duration : (deposit rate : String) → Option String
    calculate_stream_duration deposit rate =
        let dep = parse_float deposit in
        let r = parse_float rate in
        if no_estimate dep r
        then none
        else some (duration_text (div (mul dep (of_int stroops_per_xlm)) r))

    pub record FeeEstimate : Type 0 where
      pub base_fee : F
      pub total_fee : F
      pub total_fee_xlm : F
      pub estimated_duration : String
      pub estimated_duration_seconds : F

    -- `s || fallback`
    abbrev or_else : Option String → String → String
    or_else none fallback = fallback
    or_else (some s) fallback = if s == "" then fallback else s

    unfoldable pub calculate_fee_estimate : (deposit rate : String) → Option FeeEstimate
    calculate_fee_estimate deposit rate =
        let dep = parse_float deposit in
        let r = parse_float rate in
        if no_estimate dep r
        then none
        else some record {
          base_fee = of_int base_fee_stroops;
          total_fee = of_int base_fee_stroops;
          total_fee_xlm = div (of_int base_fee_stroops) (of_int stroops_per_xlm);
          estimated_duration = or_else (calculate_stream_duration deposit rate) "Unknown";
          estimated_duration_seconds = floor (div (mul dep (of_int stroops_per_xlm)) r);
        }

    unfoldable pub xlm_to_stroops : F → ℤ
    xlm_to_stroops xlm = f.to_int (round (mul xlm (of_int stroops_per_xlm)))
