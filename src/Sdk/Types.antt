-- ===== src/Sdk/Types.antt =====
-- sdk/src/types.ts. A field that the SDK casts without a test keeps its unknown type.
use Prim.Native.String.{String}
use paystream_contracts.Prelude.Int.{ℤ}
use paystream_contracts.Js.{Native}

pub record Stream : Type 0 where
  pub id : ℤ
  pub employer : Native
  pub employee : Native
  pub token : Native
  pub deposit : ℤ
  pub withdrawn : ℤ
  pub rate_per_second : ℤ
  pub start_time : ℤ
  pub stop_time : ℤ
  pub last_withdraw_time : ℤ
  pub cooldown_period : ℤ
  pub status : Native
  pub locked : Native
  pub cliff_time : ℤ
  pub paused_at : ℤ

pub record StreamParams : Type 0 where
  pub employee : String
  pub token : String
  pub deposit : ℤ
  pub rate_per_second : ℤ
  pub stop_time : ℤ
  pub cliff_time : ℤ

pub record PayStreamClientOptions : Type 0 where
  pub rpc_url : String
  pub network_passphrase : String
  pub contract_id : String
