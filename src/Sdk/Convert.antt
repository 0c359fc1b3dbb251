-- ===== src/Sdk/Convert.antt =====
-- sdk/src/convert.ts, and `BigInt` on a value of unknown type.
use Prim.Native.String.{String}
use paystream_contracts.Prelude.{Option, none, some, List, true, false}
use paystream_contracts.Prelude.Int.{ℤ, pos}
use paystream_contracts.Js.{
  Result, ok, err, Error, and_then, Native, undefined, str, int, bool, obj, field, ◌<>◌,
}
use paystream_contracts.Sdk.Types.{Stream}

-- The error of `BigInt` on a text that is no integer.
abbrev syntax_error : String → Error
syntax_error s = record { name = "SyntaxError"; message = "Cannot convert " <> s <> " to a BigInt" }

abbrev undefined_error : Error
undefined_error = record { name = "TypeError"; message = "Cannot convert undefined to a BigInt" }

module _ (parse : String → Option ℤ) where
  unfoldable pub big_int_text : String → Result ℤ
  big_int_text s = elim (parse s) [ none ↦ err (syntax_error s) | some n ↦ ok n ]

  -- `BigInt(v)`
  unfoldable pub big_int : Native → Result ℤ
  unfolding big_int_text
  big_int undefined = err undefined_error
  big_int (int n) = ok n
  big_int (bool true) = ok (pos 1)
  big_int (bool false) = ok (pos 0)
  big_int (str s) = big_int_text s
  big_int (obj s) = big_int_text s

  -- `scValToStream`, on the object that `scValToNative` returns
  unfoldable pub native_to_stream : List (String × Native) → Result Stream
  native_to_stream native = and_then (big_int (field native "id")) λ id.
      and_then (big_int (field native "deposit")) λ deposit.
        and_then (big_int (field native "withdrawn")) λ withdrawn.
          and_then (big_int (field native "rate_per_second")) λ rate.
            and_then (big_int (field native "start_time")) λ start.
              and_then (big_int (field native "stop_time")) λ stop.
                and_then (big_int (field native "last_withdraw_time")) λ last.
                  and_then (big_int (field native "cooldown_period")) λ cooldown.
                    and_then (big_int (field native "cliff_time")) λ cliff.
                      and_then (big_int (field native "paused_at")) λ paused. ok (record {
                        id = id;
                        employer = field native "employer";
                        employee = field native "employee";
                        token = field native "token";
                        deposit = deposit;
                        withdrawn = withdrawn;
                        rate_per_second = rate;
                        start_time = start;
                        stop_time = stop;
                        last_withdraw_time = last;
                        cooldown_period = cooldown;
                        status = field native "status";
                        locked = field native "locked";
                        cliff_time = cliff;
                        paused_at = paused;
                      })
