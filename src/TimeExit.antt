-- ===== src/TimeExit.antt =====
-- The exit by time, a validation in multiples of the initial risk:
-- crates/trader-core/src/execution/time_exit.rs. The counter is a u32 in the source: it stays below
-- 2^32 as long as a position sees fewer candles than that.
pub mod Validation
use daytradebot.Base.{ℕ, ◌+◌, Bool, true, false, not, ◌&&◌, ◌||◌, leb, if◌then◌else◌}
use daytradebot.Decimal.{Decimal, ◌⊖◌, ◌⊘◌, le, is_zero}
use daytradebot.Domain.Signals.{Direction, long, short}

pub record TimeExitConfig (D : Type 0) : Type 0 where
  pub enabled : Bool
  pub min_r : D
  pub candles : ℕ

pub record TimeExitTracker (D : Type 0) : Type 0 where
  pub config : TimeExitConfig D
  pub tracking : Bool
  pub entry_price : D
  pub risk_per_unit : D
  pub direction : Direction
  pub candles_since_fill : ℕ
  pub validated : Bool

module _ {D : Type 0} ⦃d : Decimal D⦄ where
  -- `TimeExitTracker::new`
  unfoldable pub new_tracker : TimeExitConfig D → TimeExitTracker D
  new_tracker config = record {
    config = config;
    tracking = false;
    entry_price = d.nought;
    risk_per_unit = d.nought;
    direction = long;
    candles_since_fill = 0;
    validated = false;
  }

  unfoldable pub ensure_tracking : TimeExitTracker D → D → D → Direction → TimeExitTracker D
  ensure_tracking t entry_price stop_price direction =
      let risk_per_unit = d.abs (entry_price ⊖ stop_price) in
      if t.tracking then t else if is_zero risk_per_unit then t else record t {
        tracking = true;
        entry_price = entry_price;
        risk_per_unit = risk_per_unit;
        direction = direction;
        candles_since_fill = 0;
        validated = false;
      }

  unfoldable pub reset : TimeExitTracker D → TimeExitTracker D
  reset t = record t { tracking = false; candles_since_fill = 0; validated = false }

  abbrev pub floating : Direction → D → D → D
  floating long entry_price close = close ⊖ entry_price
  floating short entry_price close = entry_price ⊖ close

  -- The close has reached `min_r` times the risk.
  abbrev pub reaches : TimeExitTracker D → D → Bool
  reaches t close =
      not (is_zero t.risk_per_unit)
      && le t.config.min_r (floating t.direction t.entry_price close ⊘ t.risk_per_unit)

  -- The new tracker, and whether the position is to be closed now.
  unfoldable pub on_candle_close : TimeExitTracker D → D → TimeExitTracker D × Bool
  on_candle_close t close =
      if not t.config.enabled || not t.tracking
      then (t, false)
      else (let seen = t.candles_since_fill + 1 in
          let validated = t.validated || reaches t close in
          let t' : TimeExitTracker D = record t {
            candles_since_fill = seen;
            validated = validated;
          } in
          if validated then (t', false) else (t', leb t.config.candles seen))
