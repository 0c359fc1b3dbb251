-- ===== src/Demo/Validation/Laws.antt =====
-- Proofs about the stream form's validation (demo/src/streamFormValidation.ts).
use Prim.Native.String.{String}
use text.Mathlib.Text.{◌==◌}
use paystream_contracts.Prelude.{
  ◌≡◌, ◌≢◌, refl, ap, ◌↔◌, ◌⊎◌, Bool, inl, inr, arith, true, false, Bool-cases, ◌||◌, none,
}
use paystream_contracts.Prelude.Int.{pos}
use paystream_contracts.Js.{Result, ok, err}
use paystream_contracts.Js.Float.{Float}
use paystream_contracts.Demo.Validation.{
  Texts, StreamFormErrors, or_false, either_holds, is_blank, is_valid_stellar_address,
  validate_employee_address, validate_token_address, validate_deposit, validate_rate,
  validate_deposit_vs_rate, validate_stop_time, validate_stream_form, stroops_per_xlm, limit,
  now_sec, no_estimate, falsy, calculate_fee_estimate, calculate_stream_duration,
}

abbrev pub no_errors : StreamFormErrors
no_errors = record {
  employee = none;
  token = none;
  deposit = none;
  rate = none;
  stop_time = none;
  deposit_vs_rate = none;
}

-- The first holds, or it does not and the second does; neither throws before.
either_iff :
    (a b : Result Bool)
    → (or_false (either_holds a b) ≡ true) ↔ ((a ≡ ok true) ⊎ ((a ≡ ok false) × (b ≡ ok true)))
either_iff (ok true) b = (λ _. inl refl, λ _. refl)
either_iff (ok false) (ok true) = (λ _. inr (refl, refl), λ _. refl)
either_iff (ok false) (ok false) = (λ e. ground (arith, e), λ h. ground (arith, h))
either_iff (ok false) (err x) = (λ e. ground (arith, e), λ h. ground (arith, h))
either_iff (err x) b = (λ e. ground (arith, e), λ h. ground (arith, h))

module _ (t : Texts) (f : Float) where
  open f use {F, of_int, mul, lt, le, is_nan, parse_float, parse_int}

  -- A text that is the address of an account or, if it is none, of a contract. Either kind is taken
  -- for an employee and for a token.
  record IsAddress (s : String) : Type 0 where
    pub written : is_blank t s ≡ false
    pub valid :
        (t.is_valid_ed25519_public_key s ≡ ok true)
        ⊎ ((t.is_valid_ed25519_public_key s ≡ ok false) × (t.is_valid_contract s ≡ ok true))

  is_valid_stellar_address_iff :
      (s : String)
      → is_blank t s ≡ false
      → (is_valid_stellar_address t s ≡ true) ↔ (
          (t.is_valid_ed25519_public_key s ≡ ok true)
          ⊎ ((t.is_valid_ed25519_public_key s ≡ ok false) × (t.is_valid_contract s ≡ ok true)))
  unfolding is_valid_stellar_address is_blank
  is_valid_stellar_address_iff s h =
      let some_text : (s == "") ≡ false = ground (arith, h) in
      rw some_text (either_iff (t.is_valid_ed25519_public_key s) (t.is_valid_contract s))

  -- A text that is a number, positive and up to the limit.
  record IsAmount (s : String) : Type 0 where
    pub written : is_blank t s ≡ false
    pub number : is_nan (parse_float s) ≡ false
    pub positive : le (parse_float s) (of_int (pos 0)) ≡ false
    pub small : lt (of_int limit) (parse_float s) ≡ false

  -- A text that is no stop time, or one that is later than now.
  record IsStop (now : F) (s : String) : Type 0 where
    pub number : (s == "" || s == "0") ≡ false → is_nan (parse_int s) ≡ false
    pub later : (s == "" || s == "0") ≡ false → le (parse_int s) (now_sec t f now) ≡ false

  -- A form that describes a stream: the deposit pays for a second at least.
  record IsStreamForm (now : F) (employee token deposit rate stop_time : String) : Type 0 where
    pub employee_ok : IsAddress employee
    pub token_ok : IsAddress token
    pub deposit_ok : IsAmount deposit
    pub rate_ok : IsAmount rate
    pub stop_ok : IsStop now stop_time
    pub covered : lt (mul (parse_float deposit) (of_int stroops_per_xlm)) (parse_float rate) ≡ false

  employee_iff : (s : String) → (validate_employee_address t s ≡ none) ↔ IsAddress s
  unfolding validate_employee_address
  employee_iff s = (
    λ e.
        let typed : is_blank t s ≡ false = ground arith in
        record { written = typed; valid = (is_valid_stellar_address_iff s typed).0 (ground arith) },
    λ h. ground (arith, h.written, (is_valid_stellar_address_iff s h.written).1 h.valid),
  )

  token_iff : (s : String) → (validate_token_address t s ≡ none) ↔ IsAddress s
  unfolding validate_token_address
  token_iff s = (
    λ e.
        let typed : is_blank t s ≡ false = ground arith in
        record { written = typed; valid = (is_valid_stellar_address_iff s typed).0 (ground arith) },
    λ h. ground (arith, h.written, (is_valid_stellar_address_iff s h.written).1 h.valid),
  )

  deposit_iff : (s : String) → (validate_deposit t f s ≡ none) ↔ IsAmount s
  unfolding validate_deposit
  deposit_iff s = (
    λ e. record {
      written = ground arith;
      number = ground arith;
      positive = ground arith;
      small = ground arith;
    },
    λ h. ground (arith, h.written, h.number, h.positive, h.small),
  )

  rate_iff : (s : String) → (validate_rate t f s ≡ none) ↔ IsAmount s
  unfolding validate_rate
  rate_iff s = (
    λ e. record {
      written = ground arith;
      number = ground arith;
      positive = ground arith;
      small = ground arith;
    },
    λ h. ground (arith, h.written, h.number, h.positive, h.small),
  )

  validate_stop_time_iff :
      (now : F) (s : String) → (validate_stop_time t f now s ≡ none) ↔ IsStop now s
  unfolding validate_stop_time
  validate_stop_time_iff now s = (
    λ e. record { number = λ h. ground arith; later = λ h. ground arith },
    λ h. elim (Bool-cases (s == "" || s == "0")) [
      | inl e ↦ ground arith
      | inr e ↦ ground (arith, h.number e, h.later e)
    ],
  )

  covered_iff :
      (deposit rate : String)
      → IsAmount deposit
      → IsAmount rate
      → (validate_deposit_vs_rate t f deposit rate ≡ none)
        ↔ (lt (mul (parse_float deposit) (of_int stroops_per_xlm)) (parse_float rate) ≡ false)
  unfolding validate_deposit_vs_rate
  covered_iff deposit rate d r = (
    λ e. ground (arith, d.number, d.positive, r.number, r.positive),
    λ h. ground (arith, d.number, d.positive, r.number, r.positive),
  )

  -- The form has no error if and only if it describes a stream: each field is as it has to be, and
  -- the deposit pays for a second at least.
  validate_stream_form_iff :
      (now : F) (employee token deposit rate stop_time : String)
      → (validate_stream_form t f now employee token deposit rate stop_time ≡ no_errors)
        ↔ IsStreamForm now employee token deposit rate stop_time
  unfolding validate_stream_form
  validate_stream_form_iff now employee token deposit rate stop_time = (
    (λ e.
        let d : validate_deposit t f deposit ≡ none = ap (λ (x : StreamFormErrors). x.deposit) e in
        let r : validate_rate t f rate ≡ none = ap (λ (x : StreamFormErrors). x.rate) e in
        let c = ap (λ (x : StreamFormErrors). x.deposit_vs_rate) e in
        record {
          employee_ok = (employee_iff employee).0 (ap (λ (x : StreamFormErrors). x.employee) e);
          token_ok = (token_iff token).0 (ap (λ (x : StreamFormErrors). x.token) e);
          deposit_ok = (deposit_iff deposit).0 d;
          rate_ok = (rate_iff rate).0 r;
          stop_ok =
              (validate_stop_time_iff now stop_time).0
                (ap (λ (x : StreamFormErrors). x.stop_time) e);
          covered =
              (covered_iff deposit rate ((deposit_iff deposit).0 d) ((rate_iff rate).0 r)).0
                (ground (arith, d, r, c));
        }),
    (λ h. ground (
      arith,
      (employee_iff employee).1 h.employee_ok,
      (token_iff token).1 h.token_ok,
      (deposit_iff deposit).1 h.deposit_ok,
      (rate_iff rate).1 h.rate_ok,
      (validate_stop_time_iff now stop_time).1 h.stop_ok,
      (covered_iff deposit rate h.deposit_ok h.rate_ok).1 h.covered,
    )),
  )

  -- A form without errors has an estimate, and a text for its duration.
  pub estimate_of_valid :
      (now : F) (employee token deposit rate stop_time : String)
      → validate_stream_form t f now employee token deposit rate stop_time ≡ no_errors
      → (calculate_fee_estimate t f deposit rate ≢ none)
        × (calculate_stream_duration t f deposit rate ≢ none)
  unfolding calculate_fee_estimate calculate_stream_duration no_estimate falsy
  estimate_of_valid now employee token deposit rate stop_time h =
      let v = (validate_stream_form_iff now employee token deposit rate stop_time).0 h in
      (
        ground (
          arith, v.deposit_ok.number, v.deposit_ok.positive, v.rate_ok.number, v.rate_ok.positive,
        ),
        ground (
          arith, v.deposit_ok.number, v.deposit_ok.positive, v.rate_ok.number, v.rate_ok.positive,
        ),
      )
