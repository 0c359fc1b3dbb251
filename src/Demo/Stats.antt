-- ===== src/Demo/Stats.antt =====
-- The figures above a list of streams: `stats` of demo/src/useEmployerDashboard.ts. Amounts in
-- XLM are floats, and a parameter.
pub mod Laws
use paystream_contracts.Prelude.{ℕ, suc, Bool, List, [], ◌∷◌, if◌then◌else◌}
use paystream_contracts.Prelude.Int.{ℤ, pos, ◌-ℤ◌}
use paystream_contracts.Js.{is_text}
use paystream_contracts.Js.Float.{Float}
use paystream_contracts.Sdk.Types.{Stream}

module _ (fl : Float) where
  open fl use {F, of_int, add, div, lt}

  pub record DashboardStats : Type 0 where
    pub total : ℕ
    pub active : ℕ
    pub paused : ℕ
    pub cancelled : ℕ
    pub exhausted : ℕ
    pub total_locked_xlm : F
    pub total_deposit_xlm : F
    pub total_withdrawn_xlm : F

  -- `Number(n) / 10_000_000`
  abbrev pub to_xlm : ℤ → F
  to_xlm n = div (of_int n) (of_int (pos 10000000))

  -- The chain of tests of the status.
  count_status : Stream → DashboardStats → DashboardStats
  count_status s acc =
      if is_text s.status "Active"
      then record acc { active = suc acc.active }
      else if is_text s.status "Paused"
      then record acc { paused = suc acc.paused }
      else if is_text s.status "Cancelled"
      then record acc { cancelled = suc acc.cancelled }
      else if is_text s.status "Exhausted"
      then record acc { exhausted = suc acc.exhausted }
      else acc

  -- `if (locked > 0) acc.totalLockedXlm += locked`
  add_amounts : Stream → DashboardStats → DashboardStats
  add_amounts s acc =
      let locked = to_xlm (s.deposit -ℤ s.withdrawn) in
      record acc {
        total_locked_xlm =
            if lt (of_int (pos 0)) locked
            then add acc.total_locked_xlm locked
            else acc.total_locked_xlm;
        total_deposit_xlm = add acc.total_deposit_xlm (to_xlm s.deposit);
        total_withdrawn_xlm = add acc.total_withdrawn_xlm (to_xlm s.withdrawn);
      }

  -- The function that `streams.reduce` is given.
  unfoldable pub add_stream : DashboardStats → Stream → DashboardStats
  unfolding count_status add_amounts
  add_stream acc s = add_amounts s (count_status s (record acc { total = suc acc.total }))

  unfoldable pub reduce : DashboardStats → List Stream → DashboardStats
  reduce acc [] = acc
  reduce acc (s ∷ rest) = reduce (add_stream acc s) rest

  abbrev pub zero_stats : DashboardStats
  zero_stats = record {
    total = 0;
    active = 0;
    paused = 0;
    cancelled = 0;
    exhausted = 0;
    total_locked_xlm = of_int (pos 0);
    total_deposit_xlm = of_int (pos 0);
    total_withdrawn_xlm = of_int (pos 0);
  }

  unfoldable pub stats : List Stream → DashboardStats
  stats streams = reduce zero_stats streams
